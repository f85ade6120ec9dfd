-- ===== src/Decision/Routes.antt =====
-- Which inputs of `DecisionEngine.decide` lead to which status.
use insurance_claim_approval.Prelude.{◌≤◌, ◌<◌, ◌≡◌, ◌≢◌, ◌↔◌, ◌⊎◌, true, false, arith, []}
use insurance_claim_approval.Schema.Status.{ClaimStatus}
use insurance_claim_approval.Decision.{DecisionInput, decide}

-- What a claim needs to be cleared without a person.
pub record IsClear (i : DecisionInput) : Type 0 where
  pub in_force : i.policy_expired ≡ false
  pub premium_paid : i.premium_unpaid ≡ false
  pub covered : i.incident_excluded ≡ false
  pub documented : i.evidence_missing ≡ false
  pub unflagged : i.escalation_flags ≡ []
  pub low_fraud : i.fraud_score < i.fraud_review_threshold
  pub not_escalated : i.fraud_score ≤ i.fraud_threshold
  pub good_evidence : i.evidence_review_threshold < i.evidence_confidence_score
  pub within_limit : i.claim_amount ≤ i.human_review_amount_threshold
  pub confident : i.confidence_review_threshold ≤ i.confidence_score

-- `decide` completes the analysis exactly when none of its rules stops the claim.
pub decide-complete_iff :
    (i : DecisionInput) → ((decide i).status ≡ ClaimStatus.analysis_complete) ↔ IsClear i
unfolding decide
decide-complete_iff i = (λ h. ground arith, λ c. ground arith)

-- `decide` rejects exactly the claims whose policy is expired, unpaid or excludes the incident;
-- no score, amount or flag can reject a claim.
pub decide-rejected_iff :
    (i : DecisionInput)
    → ((decide i).status ≡ ClaimStatus.rejected)
      ↔ ((i.policy_expired ≡ true) ⊎ (i.premium_unpaid ≡ true) ⊎ (i.incident_excluded ≡ true))
unfolding decide
decide-rejected_iff i = (λ h. ground arith, λ h. ground arith)

-- A human review is asked for exactly when the status is PENDING_REVIEW.
pub decide-review_iff :
    (i : DecisionInput)
    → ((decide i).human_review_required ≡ true) ↔ ((decide i).status ≡ ClaimStatus.pending_review)
unfolding decide
decide-review_iff i = (λ h. ground arith, λ h. ground arith)

-- The engine never approves a claim: approval is left to the insurer.
pub decide-ne-approved : (i : DecisionInput) → (decide i).status ≢ ClaimStatus.approved
unfolding decide
decide-ne-approved i h = ground arith
