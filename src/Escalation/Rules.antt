-- ===== src/Escalation/Rules.antt =====
-- The escalation rules, each as the flag that it raises with its details.
use insurance_claim_approval.Prelude.{
  ℕ, ◌*◌, Bool, true, false, ◌&&◌, not, Option, none, some, List, [], ◌∷◌, ltb, leb, or_else, when,
  keep,
}
use insurance_claim_approval.Prelude.Int.{ℤ, pos, leb_ℤ}
use insurance_claim_approval.Prelude.Text.{Text, truthy}
use insurance_claim_approval.Prelude.Time.{days_since}
use insurance_claim_approval.Config.{Settings}
use insurance_claim_approval.Schema.Status.{DocumentType, RiskBand}
use insurance_claim_approval.Schema.Policy.{Policy, RiskSignal}
use insurance_claim_approval.Schema.Claim.{
  Claim, ClaimDocument, EvidenceIssue, IssueCode, evidence_type_mismatch, extraction_failed_issue,
}
use insurance_claim_approval.Schema.Messages.{
  Flag, high_fraud_score, low_evidence_confidence, early_claim_high_amount, clause_mismatch,
  evidence_mismatch, extraction_failed, total_loss_suspected, vin_mismatch, unlicensed_driver,
  third_party_injury_reported, no_police_report_major_loss, lakehouse_high_risk_policy,
}
use insurance_claim_approval.Schema.Outcome.{Merged, PayoutResult}
use insurance_claim_approval.Fraud.{vins_differ, has_police_report}

-- `flag_details[flag]`, as far as a message reads it.
pub data Detail : Type 0 where
  score_detail : ℕ → Detail
  text_detail : Text → Detail
  document_detail : DocumentType → Text → Text → Detail
  days_detail : ℤ → Detail
  risk_detail : ℕ → ℕ → Detail
  empty_detail : Detail

abbrev pub Entry : Type 0
Entry = Flag × Detail

abbrev pub fraud_rule : Settings → ℕ → List Entry
fraud_rule s n = when (leb s.fraud_review_threshold n) (high_fraud_score, score_detail n)

abbrev pub evidence_rule : Settings → ℕ → List Entry
evidence_rule s n =
    when (leb n s.evidence_review_threshold) (low_evidence_confidence, score_detail n)

-- The reason of the first open issue, or the standard sentence (here the empty text).
first_reason : List EvidenceIssue → Text
first_reason [] = []
first_reason (i ∷ is) = i.reason

unfoldable pub mismatch_text : List EvidenceIssue → Text
unfolding first_reason
mismatch_text issues = first_reason (keep (λ i. not i.acknowledged) issues)

abbrev pub mismatch_rule : Merged → List Entry
mismatch_rule m =
    when (or_else m.evidence_mismatch false)
      (evidence_mismatch, text_detail (mismatch_text (or_else m.evidence_issues [])))

abbrev is_extraction_failed : IssueCode → Bool
is_extraction_failed extraction_failed_issue = true
is_extraction_failed evidence_type_mismatch = false

unfoldable pub extraction_issues : List EvidenceIssue → List EvidenceIssue
extraction_issues = keep (λ i. is_extraction_failed i.issue_code && not i.acknowledged)

abbrev extraction_entries : List EvidenceIssue → List Entry
extraction_entries [] = []
extraction_entries (i ∷ is) =
    (extraction_failed, document_detail i.doc_type i.filename i.reason) ∷ []

abbrev pub extraction_rule : Merged → List Entry
extraction_rule m = extraction_entries (extraction_issues (or_else m.evidence_issues []))

-- `claim_amount > 0.5 * threshold`, at most `early_claim_days` after the policy took effect.
abbrev pub early_rule : Settings → Claim → Option Policy → List Entry
early_rule s c none = []
early_rule s c (some p) =
    let days = days_since c.incident_datetime p.effective_date in
    when
      (leb_ℤ days (pos s.early_claim_days)
        && ltb s.early_claim_amount_threshold (c.claim_amount * 2))
      (early_claim_high_amount, days_detail days)

-- `aligned` is the answer of `check_clause_alignment`.
abbrev pub alignment_rule : Bool → List Entry
alignment_rule aligned = when (not aligned) (clause_mismatch, empty_detail)

abbrev pub band_entries : RiskSignal → RiskBand → List Entry
band_entries r RiskBand.high_risk =
    (lakehouse_high_risk_policy, risk_detail r.fraud_risk_score r.total_claims_count) ∷ []
band_entries r _ = []

abbrev pub signal_entries : Option RiskSignal → List Entry
signal_entries none = []
signal_entries (some r) = band_entries r r.claim_risk_band

abbrev pub lakehouse_rule : Option Policy → List Entry
lakehouse_rule none = []
lakehouse_rule (some p) = signal_entries p.risk_signal

abbrev pub total_loss_rule : Option PayoutResult → List Entry
total_loss_rule none = []
total_loss_rule (some r) = when r.is_total_loss (total_loss_suspected, empty_detail)

abbrev pub vin_rule : Claim → Option Policy → List Entry
vin_rule c none = []
vin_rule c (some p) = when (vins_differ c.vin p.covered_vehicle_vin) (vin_mismatch, empty_detail)

abbrev pub licence_rule : Claim → List Entry
licence_rule c = when (not (truthy c.driver_license_number)) (unlicensed_driver, empty_detail)

abbrev pub injury_rule : Claim → List Entry
injury_rule c = when c.injuries_reported (third_party_injury_reported, empty_detail)

-- `claim_amount > 0.5 * coverage_limit` with no police report among the documents.
abbrev pub major_loss_rule : Claim → Option Policy → List ClaimDocument → List Entry
major_loss_rule c none documents = []
major_loss_rule c (some p) documents =
    when (ltb p.coverage_limit (c.claim_amount * 2) && not (has_police_report documents))
      (no_police_report_major_loss, empty_detail)
