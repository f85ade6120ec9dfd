-- ===== src/Fraud.antt =====
-- backend/services/fraud_detection.py: the rule engine for fraud. A rule that fires adds its weight,
-- in ten-thousandths, and its signal; the weights are multiples of 0.05, so their sum is exact.
mod Rules
pub mod Hard
pub mod Soft
unfoldable pub use Rules.*
use mathlib.Core.List.{map}
use insurance_claim_approval.Prelude.{
  ℕ, ◌≡◌, min, max, Bool, true, false, not, Option, none, some, List, [], ◌∷◌, ◌++◌, ◌==◌,
  if◌then◌else◌, find_first,
}
use insurance_claim_approval.Prelude.Int.{ℤ, pos, negsuc}
use insurance_claim_approval.Prelude.Text.{Text}
use insurance_claim_approval.Schema.Customer.{Customer, CustomerProfileSignal}
use insurance_claim_approval.Schema.Claim.{Claim}
use insurance_claim_approval.Schema.Outcome.{FraudAssessment}
use insurance_claim_approval.Schema.Messages.{Signal, third_party_no_police, injuries_no_police}
use insurance_claim_approval.Schema.Db.{Db, policy_of, customer_of, documents_of}

pub record FraudDetectionResult : Type 0 where
  pub fraud_score : ℕ
  pub signals : List Signal
  pub blacklist_hit : Bool
  pub profile_signals : List Signal

-- `customer.profile_signal if customer else None`
unfoldable pub profile_signal_of : Option Customer → Db → Option CustomerProfileSignal
profile_signal_of none db = none
profile_signal_of (some x) db = find_first (λ s. s.customer_id == x.id) db.profile_signals

-- The rules, in the order in which the source applies them.
unfoldable pub findings : Db → Claim → List Text → List Finding
findings db c duplicates =
    let policy = policy_of c db in
    let customer = customer_of c db in
    let reported = has_police_report (documents_of c.id db) in
    blacklist_rule customer
    ++ (profile_rule (profile_signal_of customer db)
        ++ (duplicate_rule (duplicates_of c db)
            ++ (amount_rule policy c
                ++ (lakehouse_rule (risk_of policy)
                    ++ (frequency_rule (recent_claims c db)
                        ++ (upload_rule duplicates
                            ++ (vin_rule policy c
                                ++ (aged_rule policy c c.vehicle_year
                                    ++ (police_rule c.third_party_involved reported
                                          third_party_no_police
                                        ++ (police_rule c.injuries_reported reported
                                              injuries_no_police
                                            ++ (device_rule c.submission_device_hash c db
                                                ++ licence_rule c.driver_license_number)))))))))))

is_blacklisted : Option Customer → Bool
is_blacklisted none = false
is_blacklisted (some c) = c.blacklist_flag

abbrev pub signals_of : List Finding → List Signal
signals_of = map (λ (f : Finding). f.1)

unfoldable pub detect : Db → Claim → List Text → FraudDetectionResult
unfolding is_blacklisted
detect db c duplicates =
    let fs = findings db c duplicates in
    let customer = customer_of c db in
    record {
      fraud_score = min (total fs) 10_000;
      signals = signals_of fs;
      blacklist_hit = is_blacklisted customer;
      profile_signals = signals_of (profile_rule (profile_signal_of customer db));
    }

write_assessment : FraudAssessment → List FraudAssessment → List FraudAssessment
write_assessment x [] = x ∷ []
write_assessment x (a ∷ as') =
    if a.claim_id == x.claim_id then x ∷ as' else a ∷ write_assessment x as'

-- `FraudDetectionService.persist`: one assessment for a claim.
unfoldable pub persist : Db → ℕ → FraudDetectionResult → Db
unfolding write_assessment
persist db k r = record db {
  assessments =
      write_assessment
        (record {
          claim_id = k;
          fraud_score = r.fraud_score;
          signals = r.signals;
          blacklist_hit = r.blacklist_hit;
        })
        db.assessments;
}

-- `llm_fraud.get("fraud_score")`: no answer, one that is no number, or a number.
pub data LlmScore : Type 0 where
  absent unreadable : LlmScore
  read : ℤ → LlmScore

clamped : ℤ → ℕ
clamped (pos n) = min n 10_000
clamped (negsuc n) = 0

-- The combiner of `_run_fraud_detection`: the larger of the rules' score and the model's.
unfoldable pub combine : ℕ → LlmScore → ℕ
unfolding clamped
combine score absent = score
combine score unreadable = max score 0
combine score (read z) = max score (clamped z)
