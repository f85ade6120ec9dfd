-- ===== src/Schema/Status.antt =====
-- The enumerations of backend/models/claim.py, policy.py and audit.py. Membership tests of the
-- source (`status in (…)`) are functions by clauses, beside the code that makes them.
use insurance_claim_approval.Prelude.{Bool, true, false}

pub data ClaimStatus : Type 0 where
  draft pending processing analysis_complete approved rejected : ClaimStatus
  escalate human_review pending_review request_more_info : ClaimStatus
  submission_ready submitted_to_insurer : ClaimStatus

pub data DocumentType : Type 0 where
  damage_photo repair_estimate police_report driver_license : DocumentType
  vehicle_registration towing_invoice third_party_statement : DocumentType
  policy_paper other_document : DocumentType

pub data IncidentType : Type 0 where
  collision theft vandalism fire natural_disaster glass_only : IncidentType
  third_party_liability other_incident : IncidentType

pub data PolicyStatus : Type 0 where
  active expired lapsed cancelled : PolicyStatus

pub data PremiumPaymentStatus : Type 0 where
  paid unpaid overdue : PremiumPaymentStatus

pub data HumanReviewStatus : Type 0 where
  review_pending review_in_progress review_completed : HumanReviewStatus

pub data RiskBand : Type 0 where
  low_risk medium_risk high_risk : RiskBand

abbrev pub is_police_report : DocumentType → Bool
is_police_report DocumentType.police_report = true
is_police_report _ = false

abbrev pub is_paid : PremiumPaymentStatus → Bool
is_paid PremiumPaymentStatus.paid = true
is_paid _ = false
