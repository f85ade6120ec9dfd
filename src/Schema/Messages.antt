-- ===== src/Schema/Messages.antt =====
-- The texts that the services compose, as data: a constructor for each template, with the values
-- that fill it. Flags, violations and signals are the closed sets that the services append.
use insurance_claim_approval.Prelude.{ℕ, List}
use insurance_claim_approval.Prelude.Int.{ℤ}
use insurance_claim_approval.Prelude.Text.{Text}
use insurance_claim_approval.Schema.Status.{PolicyStatus, DocumentType}

-- The keys of `FLAG_MESSAGES`.
pub data Flag : Type 0 where
  high_fraud_score low_evidence_confidence early_claim_high_amount clause_mismatch : Flag
  evidence_mismatch extraction_failed total_loss_suspected vin_mismatch : Flag
  unlicensed_driver third_party_injury_reported no_police_report_major_loss : Flag
  lakehouse_high_risk_policy : Flag

-- `FLAG_MESSAGES` filled in; `fixed` is a message without a value.
pub data Message : Type 0 where
  fraud_pct evidence_pct : ℕ → Message
  early_days : ℤ → Message
  told : Text → Message
  told_of_document : DocumentType → Text → Text → Message
  risk_profile : ℕ → ℕ → Message
  fixed : Flag → Message

-- `PolicyValidationResult.violations`.
pub data Violation : Type 0 where
  policy_not_found policy_has_expired premium_not_current : Violation
  policy_status_is : PolicyStatus → Violation
  within_waiting : ℕ → Violation
  matches_exclusion : Text → Violation
  exceeds_coverage_limit : ℕ → Violation

-- `FraudDetectionResult.signals` and `CustomerProfileResult.signals`.
pub data Signal : Type 0 where
  blacklisted financial_stress cross_insurer_claims near_coverage_limit : Signal
  high_claim_frequency duplicate_document third_party_no_police : Signal
  injuries_no_police licence_missing : Signal
  duplicate_claims device_reuse aged_vehicle : ℕ → Signal
  vin_differs : Text → Text → Signal
  lakehouse_high : ℕ → ℕ → Signal
  lakehouse_medium : ℕ → Signal
  llm_rationale : Text → Signal
  on_watchlist no_saved_vehicles : Signal
  prior_claims_12m : ℕ → Signal

-- `DecisionResult.reasoning`, and the texts that the later stages put in its place.
pub data Reason : Type 0 where
  expired_policy premium_arrears excluded_incident evidence_required : Reason
  flagged_with_messages : List Message → Reason
  flagged_with_flags : List Flag → Reason
  fraud_review low_evidence fraud_high amount_over low_confidence : ℕ → Reason
  analysis_ok : Reason
  llm_text : Text → Reason
