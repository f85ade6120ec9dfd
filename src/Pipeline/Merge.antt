-- ===== src/Pipeline/Merge.antt =====
-- The merged dictionary of `finalize_claim`, and what it reads out of it.
use insurance_claim_approval.Prelude.{ℕ, false, Option, none, some, List, [], ◌∷◌, or_else}
use insurance_claim_approval.Config.{Settings}
use insurance_claim_approval.Schema.Policy.{Policy}
use insurance_claim_approval.Schema.Claim.{Claim}
use insurance_claim_approval.Schema.Outcome.{Merged}
use insurance_claim_approval.Decision.{DecisionInput}
use insurance_claim_approval.Confidence.{ExplainabilityInput}
use insurance_claim_approval.Escalation.{EscalationResult}
use insurance_claim_approval.Payout.{calculate}

abbrev pub empty_merged : Merged
empty_merged = record {
  stage_error = none;
  eligible = none;
  policy_expired = none;
  premium_unpaid = none;
  incident_excluded = none;
  violations = none;
  policy_match_score = none;
  retrieved_clauses = none;
  clause_clarity_score = none;
  customer_risk_score = none;
  prior_claims_count = none;
  signals = none;
  customer_trust = none;
  evidence_confidence_score = none;
  evidence_missing = none;
  evidence_results = none;
  duplicate_uploads = none;
  evidence_mismatch = none;
  evidence_issues = none;
  fraud_score = none;
  blacklist_hit = none;
  payout_breakdown = none;
  payout_preview_payable = none;
}

-- A key of the later dictionary, or else of the earlier one.
abbrev pub later {ℓ} : {A : Type ℓ} → Option A → Option A → Option A
later a none = a
later a (some b) = some b

-- `a.update(b)`
unfoldable pub update : Merged → Merged → Merged
update a b = record {
  stage_error = later a.stage_error b.stage_error;
  eligible = later a.eligible b.eligible;
  policy_expired = later a.policy_expired b.policy_expired;
  premium_unpaid = later a.premium_unpaid b.premium_unpaid;
  incident_excluded = later a.incident_excluded b.incident_excluded;
  violations = later a.violations b.violations;
  policy_match_score = later a.policy_match_score b.policy_match_score;
  retrieved_clauses = later a.retrieved_clauses b.retrieved_clauses;
  clause_clarity_score = later a.clause_clarity_score b.clause_clarity_score;
  customer_risk_score = later a.customer_risk_score b.customer_risk_score;
  prior_claims_count = later a.prior_claims_count b.prior_claims_count;
  signals = later a.signals b.signals;
  customer_trust = later a.customer_trust b.customer_trust;
  evidence_confidence_score = later a.evidence_confidence_score b.evidence_confidence_score;
  evidence_missing = later a.evidence_missing b.evidence_missing;
  evidence_results = later a.evidence_results b.evidence_results;
  duplicate_uploads = later a.duplicate_uploads b.duplicate_uploads;
  evidence_mismatch = later a.evidence_mismatch b.evidence_mismatch;
  evidence_issues = later a.evidence_issues b.evidence_issues;
  fraud_score = later a.fraud_score b.fraud_score;
  blacklist_hit = later a.blacklist_hit b.blacklist_hit;
  payout_breakdown = later a.payout_breakdown b.payout_breakdown;
  payout_preview_payable = later a.payout_preview_payable b.payout_preview_payable;
}

merge_from : Merged → List Merged → Merged
merge_from m [] = m
merge_from m (x ∷ xs) = merge_from (update m x) xs

-- `for item in parallel_results: merged.update(item)`
unfoldable pub merge : List Merged → Merged
unfolding merge_from
merge xs = merge_from empty_merged xs

-- `ExplainabilityInput(…)` of the merged results.
unfoldable pub explain_input : Merged → ExplainabilityInput
explain_input m = record {
  retrieved_clauses = or_else m.retrieved_clauses [];
  evidence_results = or_else m.evidence_results [];
  fraud_score = or_else m.fraud_score 0;
  policy_match_score = or_else m.policy_match_score 10_000;
  evidence_confidence = or_else m.evidence_confidence_score 10_000;
  customer_risk_score = or_else m.customer_risk_score 0;
  clause_clarity_score = or_else m.clause_clarity_score 10_000;
}

-- The payout preview, where the claim has a policy.
unfoldable pub with_preview : Claim → Option Policy → Merged → Merged
with_preview c none m = m
with_preview c (some p) m =
    let r = calculate p c.claim_amount (some c) in
    record m { payout_breakdown = some r; payout_preview_payable = some r.payable_amount }

-- `DecisionInput(…)` of the merged results; `limit` is the amount limit of the customer's tier.
unfoldable pub decision_input : Settings → Claim → Merged → EscalationResult → ℕ → ℕ → DecisionInput
decision_input s c m e confidence limit = record {
  policy_expired = or_else m.policy_expired false;
  premium_unpaid = or_else m.premium_unpaid false;
  incident_excluded = or_else m.incident_excluded false;
  evidence_missing = or_else m.evidence_missing false;
  fraud_score = or_else m.fraud_score 0;
  claim_amount = c.claim_amount;
  confidence_score = confidence;
  evidence_confidence_score = or_else m.evidence_confidence_score 10_000;
  fraud_threshold = s.fraud_escalate_threshold;
  fraud_review_threshold = s.fraud_review_threshold;
  evidence_review_threshold = s.evidence_review_threshold;
  human_review_amount_threshold = limit;
  confidence_review_threshold = s.confidence_review_threshold;
  escalation_flags = e.flags;
  escalation_messages = e.messages;
}
