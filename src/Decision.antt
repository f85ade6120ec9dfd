-- ===== src/Decision.antt =====
-- backend/services/decision_engine.py: the ladder of rules that turns the analysis of a claim into
-- a status. Scores are in ten-thousandths, amounts in cents.
pub mod Routes
pub mod Limits
use insurance_claim_approval.Prelude.{
  ℕ, Bool, true, false, List, ltb, leb, is_empty, not, if◌then◌else◌,
}
use insurance_claim_approval.Schema.Status.{ClaimStatus}
use insurance_claim_approval.Schema.Messages.{
  Flag, Message, Reason, expired_policy, premium_arrears, excluded_incident, evidence_required,
  flagged_with_messages, flagged_with_flags, fraud_review, low_evidence, fraud_high, amount_over,
  low_confidence, analysis_ok,
}

pub record DecisionInput : Type 0 where
  pub policy_expired : Bool
  pub premium_unpaid : Bool
  pub incident_excluded : Bool
  pub evidence_missing : Bool
  pub fraud_score : ℕ
  pub claim_amount : ℕ
  pub confidence_score : ℕ
  pub evidence_confidence_score : ℕ
  pub fraud_threshold : ℕ
  pub fraud_review_threshold : ℕ
  pub evidence_review_threshold : ℕ
  pub human_review_amount_threshold : ℕ
  pub confidence_review_threshold : ℕ
  pub escalation_flags : List Flag
  pub escalation_messages : List Message

pub record DecisionResult : Type 0 where
  pub status : ClaimStatus
  pub reasoning : Reason
  pub human_review_required : Bool

abbrev pub closed_with : ClaimStatus → Reason → DecisionResult
closed_with s r = record { status = s; reasoning = r; human_review_required = false }

abbrev pub to_review : Reason → DecisionResult
to_review r = record {
  status = ClaimStatus.pending_review;
  reasoning = r;
  human_review_required = true;
}

abbrev flag_summary : List Flag → List Message → Reason
flag_summary flags messages =
    if is_empty messages then flagged_with_flags flags else flagged_with_messages messages

-- The rules below the four hard stops and the escalation flags.
decide_scores : DecisionInput → DecisionResult
decide_scores i =
    if leb i.fraud_review_threshold i.fraud_score
    then to_review (fraud_review i.fraud_score)
    else if leb i.evidence_confidence_score i.evidence_review_threshold
    then to_review (low_evidence i.evidence_confidence_score)
    else if ltb i.fraud_threshold i.fraud_score
    then to_review (fraud_high i.fraud_score)
    else if ltb i.human_review_amount_threshold i.claim_amount
    then to_review (amount_over i.claim_amount)
    else if ltb i.confidence_score i.confidence_review_threshold
    then to_review (low_confidence i.confidence_score)
    else closed_with ClaimStatus.analysis_complete analysis_ok

unfoldable pub decide : DecisionInput → DecisionResult
unfolding decide_scores
decide i =
    if i.policy_expired
    then closed_with ClaimStatus.rejected expired_policy
    else if i.premium_unpaid
    then closed_with ClaimStatus.rejected premium_arrears
    else if i.incident_excluded
    then closed_with ClaimStatus.rejected excluded_incident
    else if i.evidence_missing
    then closed_with ClaimStatus.request_more_info evidence_required
    else if not (is_empty i.escalation_flags)
    then to_review (flag_summary i.escalation_flags i.escalation_messages)
    else decide_scores i
