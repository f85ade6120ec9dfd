-- ===== src/Tests/Money.antt =====
-- Scores and amounts at concrete inputs.
use insurance_claim_approval.Prelude.{
  ℕ, ◌≤◌, ◌≡◌, refl, ◌+◌, ◌-◌, true, false, none, some, [], arith, min,
}
use insurance_claim_approval.Config.{default_settings}
use insurance_claim_approval.Trust.{compute_trust_score}
use insurance_claim_approval.Trust.Bounds.{trust_score_bounds}
use insurance_claim_approval.Payout.{calculate, gst_of, is_total_loss_of}
use insurance_claim_approval.Payout.Bounds.{settlement, payout_capped, payout_le_claim}
use insurance_claim_approval.Confidence.{ExplainabilityInput}
use insurance_claim_approval.Tests.Data.{policy, claim, bureau}

trust_score_bounds_example :
    ((n : ℕ) × ((compute_trust_score default_settings (some bureau) true none).score ≡ some n)
      × (n ≤ 100))
    × ((compute_trust_score default_settings none true none).score ≡ none)
trust_score_bounds_example = trust_score_bounds default_settings bureau true none

payout_capped_example :
    (settlement (calculate policy 1_900_000 (some claim)) ≤ 2_000_000)
    × ((calculate policy 1_900_000 (some claim)).payable_amount ≤ 2_000_000 + gst_of 2_000_000)
payout_capped_example = payout_capped policy 1_900_000 (some claim) (omega arith)

repairable : (calculate policy 300_000 (some claim)).is_total_loss ≡ false
unfolding calculate is_total_loss_of
repairable = refl

payout_le_claim_example :
    settlement (calculate policy 300_000 (some claim)) ≤ 300_000 - min 50_000 300_000
payout_le_claim_example = payout_le_claim policy 300_000 (some claim) repairable

abbrev scores : ℕ → ℕ → ExplainabilityInput
scores evidence risk = record {
  retrieved_clauses = [];
  evidence_results = [];
  fraud_score = 0;
  policy_match_score = 10_000;
  evidence_confidence = evidence;
  customer_risk_score = risk;
  clause_clarity_score = 9000;
}
