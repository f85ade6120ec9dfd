-- ===== src/Schema/Claim.antt =====
-- backend/models/claim.py: a claim and its documents. `policy_context_ready` is what
-- `has_policy_context` reads out of `policy_context_json`.
use insurance_claim_approval.Prelude.{ℕ, Bool, Option, List}
use insurance_claim_approval.Prelude.Text.{Text}
use insurance_claim_approval.Prelude.Time.{DateTime}
use insurance_claim_approval.Schema.Status.{ClaimStatus, DocumentType, IncidentType}
use insurance_claim_approval.Schema.Messages.{Flag, Message}

pub data IssueCode : Type 0 where
  evidence_type_mismatch extraction_failed_issue : IssueCode

-- An entry of `Claim.evidence_issues`.
pub record EvidenceIssue : Type 0 where
  pub doc_type : DocumentType  -- `field` is its label
  pub document_id : ℕ
  pub filename : Text
  pub reason : Text
  pub issue_code : IssueCode
  pub acknowledged : Bool

pub record ClaimDocument : Type 0 where
  pub id : ℕ
  pub claim_id : ℕ
  pub doc_type : DocumentType
  pub original_filename : Text
  pub checksum : Text
  pub ocr_text : Option Text
  pub acknowledged : Bool  -- `metadata_json["acknowledged"]`
  pub created_at : DateTime

pub data Tier : Type 0 where
  preferred standard watch unscored : Tier

-- `Claim.customer_trust_json`, as far as it is read back.
pub record Trust : Type 0 where
  pub score : Option ℕ
  pub tier : Tier

pub record Claim : Type 0 where
  pub id : ℕ
  pub customer_id : ℕ
  pub policy_id : Option ℕ
  pub incident_description : Text
  pub incident_datetime : DateTime
  pub claim_amount : ℕ
  pub status : ClaimStatus
  pub submission_step : ℕ
  pub incident_type : IncidentType
  pub third_party_involved : Bool
  pub injuries_reported : Bool
  pub vehicle_year : Option ℕ
  pub vin : Option Text
  pub driver_license_number : Option Text
  pub submission_device_hash : Option Text
  pub policy_context_ready : Bool
  pub escalation_flags : List Flag
  pub escalation_messages : List Message
  pub assigned_agent : Option Text
  pub assigned_agent_id : Option ℕ
  pub assigned_at : Option DateTime
  pub evidence_mismatch : Bool
  pub evidence_issues : List EvidenceIssue
  pub pipeline_run_id : ℕ
  pub customer_trust : Option Trust
  pub created_at : DateTime
