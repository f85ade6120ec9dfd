-- ===== src/Decision/Limits.antt =====
-- How the outcome moves with the amount limit, which the customer's trust tier scales.
use insurance_claim_approval.Prelude.{ℕ, ◌≤◌, ◌≡◌, ◌↔◌, arith}
use insurance_claim_approval.Schema.Status.{ClaimStatus}
use insurance_claim_approval.Decision.{DecisionInput, decide}

abbrev pub with_limit : DecisionInput → ℕ → DecisionInput
with_limit i limit = record i { human_review_amount_threshold = limit }

-- Whatever the amount limit, the same claims are rejected and the same claims are sent back for
-- documents.
limit_keeps_rejections :
    (i : DecisionInput) (limit : ℕ)
    → (((decide (with_limit i limit)).status ≡ ClaimStatus.rejected)
        ↔ ((decide i).status ≡ ClaimStatus.rejected))
      × (((decide (with_limit i limit)).status ≡ ClaimStatus.request_more_info)
          ↔ ((decide i).status ≡ ClaimStatus.request_more_info))
unfolding decide
limit_keeps_rejections i limit =
    ((λ h. ground arith, λ h. ground arith), (λ h. ground arith, λ h. ground arith))

-- A higher amount limit never takes a cleared claim away from the fast path.
limit_monotone :
    (i : DecisionInput) (limit : ℕ)
    → i.human_review_amount_threshold ≤ limit
    → (decide i).status ≡ ClaimStatus.analysis_complete
    → (decide (with_limit i limit)).status ≡ ClaimStatus.analysis_complete
unfolding decide
limit_monotone i limit wider clear = ground arith
