-- ===== src/Escalation.antt =====
-- backend/services/escalation_service.py: the flags that send a claim to a person, and a message for
-- each. Scores are in ten-thousandths, amounts in cents.
mod Rules
pub mod Laws
unfoldable pub use Rules.*
use insurance_claim_approval.Prelude.{
  ℕ, Option, none, some, List, [], ◌∷◌, ◌++◌, is_empty, or_else, if◌then◌else◌, Bool, ◌==◌, map,
}
use insurance_claim_approval.Prelude.Int.{ℤ, pos}
use insurance_claim_approval.Prelude.Text.{Text}
use insurance_claim_approval.Prelude.Rounding.{round_half_even}
use insurance_claim_approval.Config.{Settings}
use insurance_claim_approval.Schema.Policy.{Policy}
use insurance_claim_approval.Schema.Claim.{Claim, ClaimDocument}
use insurance_claim_approval.Schema.Messages.{
  Flag, high_fraud_score, low_evidence_confidence, early_claim_high_amount, clause_mismatch,
  evidence_mismatch, extraction_failed, lakehouse_high_risk_policy, total_loss_suspected,
  vin_mismatch, unlicensed_driver, third_party_injury_reported, no_police_report_major_loss,
  Message, fraud_pct, evidence_pct, early_days, told, told_of_document, risk_profile, fixed,
}
use insurance_claim_approval.Schema.Outcome.{Merged}

pub record EscalationResult : Type 0 where
  pub flags : List Flag
  pub messages : List Message

-- The flags with their details, in the order in which the source appends them.
unfoldable pub raised :
    Settings → Claim → Option Policy → List ClaimDocument → Bool → Merged → List Entry
raised s c policy documents aligned m =
    fraud_rule s (or_else m.fraud_score 0)
    ++ (evidence_rule s (or_else m.evidence_confidence_score 10_000)
        ++ (mismatch_rule m
            ++ (extraction_rule m
                ++ (early_rule s c policy
                    ++ (alignment_rule aligned
                        ++ (lakehouse_rule policy
                            ++ (total_loss_rule m.payout_breakdown
                                ++ (vin_rule c policy
                                    ++ (licence_rule c
                                        ++ (injury_rule c
                                            ++ major_loss_rule c policy documents))))))))))

flags_of : List Entry → List Flag
flags_of [] = []
flags_of ((f, d) ∷ es) = f ∷ flags_of es

flag_code : Flag → ℕ
flag_code high_fraud_score = 0
flag_code low_evidence_confidence = 1
flag_code evidence_mismatch = 2
flag_code extraction_failed = 3
flag_code early_claim_high_amount = 4
flag_code clause_mismatch = 5
flag_code lakehouse_high_risk_policy = 6
flag_code total_loss_suspected = 7
flag_code vin_mismatch = 8
flag_code unlicensed_driver = 9
flag_code third_party_injury_reported = 10
flag_code no_police_report_major_loss = 11

-- `details.get(flag, {})`
find_detail : Flag → List Entry → Detail
find_detail f [] = empty_detail
find_detail f ((g, d) ∷ es) = if flag_code g == flag_code f then d else find_detail f es

-- A percentage, rounded: `round(score * 100)`.
percent : ℕ → ℕ
percent n = round_half_even n 100

score_of : Detail → ℕ
score_of (score_detail n) = n
score_of _ = 0

days_of : Settings → Detail → ℤ
days_of s (days_detail n) = n
days_of s _ = pos s.early_claim_days

told_text : Detail → Message
told_text (text_detail t) = told t
told_text (document_detail k name reason) = told_of_document k name reason
told_text _ = told []

risk_message : Detail → Message
risk_message (risk_detail n k) = risk_profile n k
risk_message _ = risk_profile 0 0

-- The message of a flag, from its details or from the defaults of the source; the two section
-- references of a clause mismatch, which the language model names, are left out.
unfoldable pub message_for : Settings → Flag → Detail → Message
unfolding percent score_of days_of told_text risk_message
message_for s high_fraud_score d = fraud_pct (percent (score_of d))
message_for s low_evidence_confidence d = evidence_pct (percent (score_of d))
message_for s early_claim_high_amount d = early_days (days_of s d)
message_for s evidence_mismatch d = told_text d
message_for s extraction_failed d = told_text d
message_for s lakehouse_high_risk_policy d = risk_message d
message_for s f d = fixed f

unfoldable pub build_messages : Settings → List Flag → List Entry → List Message
unfolding find_detail message_for flag_code
build_messages s fs details = map (λ f. message_for s f (find_detail f details)) fs

unfoldable pub evaluate :
    Settings → Claim → Option Policy → List ClaimDocument → Bool → Merged → EscalationResult
unfolding flags_of
evaluate s c policy documents aligned m =
    let es = raised s c policy documents aligned m in
    record { flags = flags_of es; messages = build_messages s (flags_of es) es }
