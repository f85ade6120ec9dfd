-- ===== src/Fraud/Rules.antt =====
-- The rules of backend/services/fraud_detection.py, each as the findings that it adds; the weights
-- are SIGNAL_WEIGHTS in ten-thousandths.
use insurance_claim_approval.Prelude.{
  ℕ, ◌+◌, ◌-◌, ◌*◌, Bool, false, ◌&&◌, not, Option, none, some, List, [], ◌∷◌, map, ltb, leb, ◌==◌,
  is_empty, when, any_of, count_if,
}
use insurance_claim_approval.Prelude.Text.{Text, text_eq, strip, upper, truthy}
use insurance_claim_approval.Prelude.Time.{stamp, day_micros}
use insurance_claim_approval.Schema.Status.{RiskBand, is_police_report}
use insurance_claim_approval.Schema.Policy.{Policy, RiskSignal}
use insurance_claim_approval.Schema.Customer.{Customer, CustomerProfileSignal}
use insurance_claim_approval.Schema.Claim.{Claim, ClaimDocument}
use insurance_claim_approval.Schema.Messages.{
  Signal, blacklisted, near_coverage_limit, high_claim_frequency, duplicate_document,
  licence_missing, duplicate_claims, device_reuse, aged_vehicle, vin_differs, lakehouse_high,
  lakehouse_medium,
}
use insurance_claim_approval.Schema.Db.{Db}
use insurance_claim_approval.Profile.{is_sibling}
use insurance_claim_approval.Trust.{
  WeightKey, financial_stress_key, cross_insurer_claims_key, fraud_signals,
}

-- What a rule that fires adds to the score and to the signals.
abbrev pub Finding : Type 0
Finding = ℕ × Signal

abbrev pub total : List Finding → ℕ
total [] = 0
total ((w, s) ∷ fs) = w + total fs

unfoldable pub profile_weight : WeightKey → ℕ
profile_weight financial_stress_key = 1500
profile_weight cross_insurer_claims_key = 2000

abbrev pub blacklist_rule : Option Customer → List Finding
blacklist_rule none = []
blacklist_rule (some c) = when c.blacklist_flag (5000, blacklisted)

weigh : WeightKey × Signal → Finding
unfolding profile_weight
weigh (k, s) = (profile_weight k, s)

unfoldable pub profile_rule : Option CustomerProfileSignal → List Finding
unfolding weigh
profile_rule x = map weigh (fraud_signals x)

-- Another claim of the customer with the same description and amount.
unfoldable pub duplicates_of : Claim → Db → ℕ
duplicates_of c db =
    count_if
      (λ d.
        is_sibling c d
        && (text_eq d.incident_description c.incident_description
            && d.claim_amount == c.claim_amount))
      db.claims

abbrev pub duplicate_rule : ℕ → List Finding
duplicate_rule n = when (ltb 0 n) (4500, duplicate_claims n)

-- `claim_amount > coverage_limit * 0.9`
abbrev pub amount_rule : Option Policy → Claim → List Finding
amount_rule none c = []
amount_rule (some p) c =
    when (ltb (p.coverage_limit * 9) (c.claim_amount * 10)) (2500, near_coverage_limit)

abbrev pub band_rule : RiskSignal → RiskBand → List Finding
band_rule r RiskBand.high_risk = (4000, lakehouse_high r.fraud_risk_score r.total_claims_count) ∷ []
band_rule r RiskBand.medium_risk = (1500, lakehouse_medium r.fraud_risk_score) ∷ []
band_rule r RiskBand.low_risk = []

abbrev pub risk_of : Option Policy → Option RiskSignal
risk_of none = none
risk_of (some p) = p.risk_signal

abbrev pub lakehouse_rule : Option RiskSignal → List Finding
lakehouse_rule none = []
lakehouse_rule (some r) = band_rule r r.claim_risk_band

-- Other claims since the first of the month in which this one was made, at its time of day.
unfoldable pub recent_claims : Claim → Db → ℕ
recent_claims c db =
    count_if
      (λ d. is_sibling c d && leb (stamp (record c.created_at { day = 1 })) (stamp d.created_at))
      db.claims

abbrev pub frequency_rule : ℕ → List Finding
frequency_rule n = when (leb 3 n) (2500, high_claim_frequency)

abbrev pub upload_rule : List Text → List Finding
upload_rule duplicates = when (not (is_empty duplicates)) (2000, duplicate_document)

unfoldable pub same_vin : Text → Text → Bool
same_vin a b = text_eq (upper (strip a)) (upper (strip b))

-- Both numbers are there, and they differ.
abbrev pub vins_differ : Option Text → Option Text → Bool
vins_differ none b = false
vins_differ (some a) none = false
vins_differ (some a) (some b) = not (is_empty a) && (not (is_empty b) && not (same_vin a b))

abbrev pub vin_finding : Option Text → Option Text → Finding
vin_finding (some a) (some b) = (4500, vin_differs a b)
vin_finding _ _ = (4500, vin_differs [] [])

abbrev pub vin_rule : Option Policy → Claim → List Finding
vin_rule none c = []
vin_rule (some p) c =
    when (vins_differ c.vin p.covered_vehicle_vin) (vin_finding c.vin p.covered_vehicle_vin)

-- A year of 0 counts as missing. The age is 0 for a vehicle of a later year.
abbrev pub aged_rule : Option Policy → Claim → Option ℕ → List Finding
aged_rule none c year = []
aged_rule (some p) c none = []
aged_rule (some p) c (some year) =
    let age = c.incident_datetime.year - year in
    when (ltb 0 year && (ltb (p.coverage_limit * 8) (c.claim_amount * 10) && leb 5 age))
      (2000, aged_vehicle age)

unfoldable pub has_police_report : List ClaimDocument → Bool
has_police_report = any_of (λ d. is_police_report d.doc_type)

abbrev pub police_rule : Bool → Bool → Signal → List Finding
police_rule involved reported s = when (involved && not reported) (2500, s)

pub same_device : Text → Option Text → Bool
same_device h none = false
same_device h (some g) = text_eq g h

-- Claims of other customers from the same device, made at most 90 days before this one.
unfoldable pub device_matches : Text → Claim → Db → ℕ
device_matches h c db =
    count_if
      (λ d.
        same_device h d.submission_device_hash
        && (not (d.customer_id == c.customer_id)
            && leb (stamp c.created_at) (stamp d.created_at + 90 * day_micros)))
      db.claims

abbrev pub device_rule : Option Text → Claim → Db → List Finding
device_rule none c db = []
device_rule (some h) c db =
    let n = device_matches h c db in when (not (is_empty h) && leb 1 n) (4500, device_reuse n)

abbrev pub licence_rule : Option Text → List Finding
licence_rule licence = when (not (truthy licence)) (2000, licence_missing)
