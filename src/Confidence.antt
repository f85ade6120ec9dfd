-- ===== src/Confidence.antt =====
-- backend/services/explainability.py, the computed part: the confidence score and the sentences of
-- the template reasoning. Scores are in ten-thousandths; their weighted sum is exact, in millionths,
-- and rounded at the end.
use insurance_claim_approval.Prelude.{
  ℕ, ◌+◌, ◌-◌, ◌*◌, ◌≤◌, min, Bool, ◌&&◌, ◌||◌, not, List, [], ◌∷◌, ◌++◌, arith, leb, is_empty,
  length, count_if, when,
}
use insurance_claim_approval.Prelude.Rounding.{round_half_even}
use insurance_claim_approval.Prelude.Text.{Text}
use insurance_claim_approval.Schema.Status.{ClaimStatus}
use insurance_claim_approval.Schema.Messages.{Violation}
use insurance_claim_approval.Schema.Outcome.{
  Clause, DocumentResult, Part, policy_issues, relevant_sections, evidence_passed, fraud_part,
  approved_part, rejected_part, review_part, info_part,
}

pub record ExplainabilityInput : Type 0 where
  pub retrieved_clauses : List Clause
  pub evidence_results : List DocumentResult
  pub fraud_score : ℕ
  pub policy_match_score : ℕ
  pub evidence_confidence : ℕ
  pub customer_risk_score : ℕ
  pub clause_clarity_score : ℕ

-- `1 - customer_risk_score` on scores of at most 1.
unfoldable pub compute_confidence : ExplainabilityInput → ℕ
compute_confidence i =
    round_half_even
      (min
        (30 * i.policy_match_score
          + 30 * i.evidence_confidence
          + 20 * (10_000 - i.customer_risk_score)
          + 20 * i.clause_clarity_score)
        1_000_000)
      100

-- `r["valid"]` of `to_dict_list`.
abbrev pub is_valid_result : DocumentResult → Bool
is_valid_result r = not r.type_mismatch && is_empty r.issues

passes : DocumentResult → Bool
passes r = is_valid_result r || (not r.type_mismatch && leb 5000 r.confidence)

first_three : List Clause → List Text
first_three [] = []
first_three (a ∷ []) = a.section_ref ∷ []
first_three (a ∷ b ∷ []) = a.section_ref ∷ b.section_ref ∷ []
first_three (a ∷ b ∷ c ∷ _) = a.section_ref ∷ b.section_ref ∷ c.section_ref ∷ []

status_part : ClaimStatus → ℕ → List Part
status_part ClaimStatus.approved payable = approved_part payable ∷ []
status_part ClaimStatus.rejected payable = rejected_part ∷ []
status_part ClaimStatus.human_review payable = review_part ∷ []
status_part ClaimStatus.escalate payable = review_part ∷ []
status_part ClaimStatus.pending_review payable = review_part ∷ []
status_part ClaimStatus.request_more_info payable = info_part ∷ []
status_part _ payable = []

unfoldable pub generate_reasoning :
    ClaimStatus → ExplainabilityInput → List Violation → ℕ → List Part
unfolding passes first_three status_part
generate_reasoning s i violations payable =
    when (not (is_empty violations)) (policy_issues violations)
    ++ when (not (is_empty i.retrieved_clauses))
        (relevant_sections (first_three i.retrieved_clauses))
    ++ when (not (is_empty i.evidence_results))
        (evidence_passed (count_if passes i.evidence_results) (length i.evidence_results))
    ++ fraud_part i.fraud_score ∷ []
    ++ status_part s payable

round_mono : (m n : ℕ) → m ≤ n → round_half_even m 100 ≤ round_half_even n 100
unfolding round_half_even
round_mono m n h = ground arith

round_cap : (m : ℕ) → m ≤ 1_000_000 → round_half_even m 100 ≤ 10_000
unfolding round_half_even
round_cap m h = ground arith

-- The confidence is at most 1, and it never falls when a score improves: a better policy match,
-- evidence or clause clarity, or a lower customer risk.
confidence_monotone :
    (i j : ExplainabilityInput)
    → i.policy_match_score ≤ j.policy_match_score
    → i.evidence_confidence ≤ j.evidence_confidence
    → j.customer_risk_score ≤ i.customer_risk_score
    → i.clause_clarity_score ≤ j.clause_clarity_score
    → (compute_confidence i ≤ compute_confidence j) × (compute_confidence j ≤ 10_000)
unfolding compute_confidence
confidence_monotone i j hp he hr hc = (round_mono _ _ (omega arith), round_cap _ (omega arith))
