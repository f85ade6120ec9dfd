-- ===== src/Schema/Outcome.antt =====
-- What the stages of the pipeline hand on, and the rows of backend/models/audit.py in which their
-- outcome is kept. Scores are in ten-thousandths, amounts in cents.
use insurance_claim_approval.Prelude.{ℕ, Bool, Option, List}
use insurance_claim_approval.Prelude.Text.{Text}
use insurance_claim_approval.Schema.Status.{ClaimStatus, DocumentType, HumanReviewStatus}
use insurance_claim_approval.Schema.Messages.{Message, Violation, Signal, Reason}
use insurance_claim_approval.Schema.Claim.{EvidenceIssue, IssueCode, Trust, Tier}

-- An entry of `retrieved_clauses`.
pub record Clause : Type 0 where
  pub section_ref : Text
  pub clause_text : Text

-- `DocumentValidationResult` of services/evidence_analysis.py.
pub record DocumentResult : Type 0 where
  pub doc_type : DocumentType
  pub document_id : ℕ
  pub filename : Text
  pub confidence : ℕ
  pub issues : List Text
  pub issue_codes : List IssueCode
  pub type_mismatch : Bool
  pub mismatch_reason : Text

-- `PayoutResult` of services/payout_calculation.py. The three unrounded amounts are in units of a
-- millionth of a cent; the others are in cents.
pub record PayoutResult : Type 0 where
  pub gross_amount : ℕ
  pub deductible_applied : ℕ
  pub depreciation_applied : ℕ
  pub co_pay_applied : ℕ
  pub coverage_cap_applied : ℕ
  pub own_damage_payable : ℕ
  pub third_party_payable : ℕ
  pub gst_amount : ℕ
  pub salvage_deduction : ℕ
  pub is_total_loss : Bool
  pub next_cycle_ncb_pct : ℕ
  pub payable_amount : ℕ

-- The dictionary that the stage results are merged into: `none` is a missing key.
pub record Merged : Type 0 where
  pub stage_error : Option (Unit {0})
  pub eligible : Option Bool
  pub policy_expired : Option Bool
  pub premium_unpaid : Option Bool
  pub incident_excluded : Option Bool
  pub violations : Option (List Violation)
  pub policy_match_score : Option ℕ
  pub retrieved_clauses : Option (List Clause)
  pub clause_clarity_score : Option ℕ
  pub customer_risk_score : Option ℕ
  pub prior_claims_count : Option ℕ
  pub signals : Option (List Signal)
  pub customer_trust : Option Trust
  pub evidence_confidence_score : Option ℕ
  pub evidence_missing : Option Bool
  pub evidence_results : Option (List DocumentResult)
  pub duplicate_uploads : Option (List Text)
  pub evidence_mismatch : Option Bool
  pub evidence_issues : Option (List EvidenceIssue)
  pub fraud_score : Option ℕ
  pub blacklist_hit : Option Bool
  pub payout_breakdown : Option PayoutResult
  pub payout_preview_payable : Option ℕ

-- The sentences of `ExplainabilityService.generate_reasoning`.
pub data Part : Type 0 where
  policy_issues : List Violation → Part
  relevant_sections : List Text → Part
  evidence_passed : ℕ → ℕ → Part
  fraud_part approved_part : ℕ → Part
  rejected_part review_part info_part : Part

pub data Reasoning : Type 0 where
  template : List Part → Reasoning
  written : Text → Reasoning

pub data NextAction : Type 0 where
  submit_to_insurance_company chat_with_expert upload_missing_documents : NextAction
  review_and_submit approved_by_insurer rejected_by_insurer : NextAction

-- A document that is asked for: by the title of its type, or by the label of a request.
pub data MissingDocument : Type 0 where
  titled : DocumentType → MissingDocument
  labelled : Text → MissingDocument

pub record ClaimDecision : Type 0 where
  pub claim_id : ℕ
  pub status : ClaimStatus
  pub payable_amount : ℕ
  pub confidence_score : ℕ
  pub reasoning : Reasoning
  pub retrieved_clauses : List Clause
  pub evidence_results : List DocumentResult
  pub fraud_score : ℕ
  pub human_review_required : Bool
  pub payout_breakdown : Option PayoutResult
  pub approval_probability : ℕ
  pub coverage_estimate : ℕ
  pub expected_settlement : ℕ
  pub missing_documents : List MissingDocument
  pub potential_problems : ℕ  -- how many
  pub next_best_action : NextAction

-- `HumanReview.reason`; the note is the customer's trust tier, score and amount limit.
pub data ReviewReason : Type 0 where
  ruled : Reason → Option (Tier × ℕ × ℕ) → ReviewReason
  escalated : List Message → Option (Tier × ℕ × ℕ) → ReviewReason
  auto_assigned manual_assignment insurer_approved_it insurer_rejected_it : ReviewReason

pub record HumanReview : Type 0 where
  pub claim_id : ℕ
  pub reason : ReviewReason
  pub assigned_to : Option Text
  pub status : HumanReviewStatus
  pub reviewer_notes : Option Text
  pub decision_override : Option ClaimStatus

pub record FraudAssessment : Type 0 where
  pub claim_id : ℕ
  pub fraud_score : ℕ
  pub signals : List Signal
  pub blacklist_hit : Bool

pub data EventType : Type 0 where
  draft_created claim_submitted parallel_analysis_complete decision_generated : EventType
  claim_auto_assigned claim_assigned expert_consultation sent_to_insurer : EventType
  insurer_approved insurer_rejected evidence_replaced evidence_acknowledged : EventType

-- The payload is kept where the program reads it back.
pub record AuditLog : Type 0 where
  pub claim_id : ℕ
  pub event_type : EventType
  pub payload : Option Merged
