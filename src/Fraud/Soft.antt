-- ===== src/Fraud/Soft.antt =====
-- What the soft signals can and cannot do.
use insurance_claim_approval.Prelude.{◌+◌, ◌≤◌, ◌<◌, ◌≡◌, refl, none, some, Option, List, [], arith}
use insurance_claim_approval.Prelude.Text.{Text}
use insurance_claim_approval.Schema.Customer.{CustomerProfileSignal}
use insurance_claim_approval.Schema.Claim.{Claim}
use insurance_claim_approval.Schema.Db.{Db, policy_of, customer_of, documents_of}
use insurance_claim_approval.Trust.{fraud_signals}
use insurance_claim_approval.Fraud.{
  total, findings, detect, profile_rule, profile_signal_of, duplicates_of, recent_claims,
  device_matches, device_rule,
}
use insurance_claim_approval.Fraud.Hard.{total-append}

profile_rule-le : (x : Option CustomerProfileSignal) → total (profile_rule x) ≤ 3500
unfolding profile_rule fraud_signals
profile_rule-le x = ground arith

-- The database without the customers' bureau and driving records.
abbrev pub without_profiles : Db → Db
without_profiles db = record db { profile_signals = [] }

device_rule-without :
    (db : Db) (c : Claim) (o : Option Text)
    → total (device_rule o c (without_profiles db)) ≡ total (device_rule o c db)
unfolding device_matches
device_rule-without db c none = refl
device_rule-without db c (some h) = refl

profile_adds :
    (db : Db) (c : Claim) (duplicates : List Text)
    → total (findings db c duplicates) ≤ total (findings (without_profiles db) c duplicates) + 3500
unfolding findings customer_of policy_of documents_of duplicates_of recent_claims
profile_adds db c ds = simp total-append (
    omega (
      arith,
      profile_rule-le (profile_signal_of (customer_of c db) db),
      device_rule-without db c c.submission_device_hash,
    ))

-- Profile data adds at most 0.35 to a fraud score; so a claim against which no other rule fires
-- stays below 0.40, the default review threshold, whatever the profile says.
profile_stays_below_review :
    (db : Db) (c : Claim) (duplicates : List Text)
    → ((detect db c duplicates).fraud_score
        ≤ (detect (without_profiles db) c duplicates).fraud_score + 3500)
      × ((detect (without_profiles db) c duplicates).fraud_score ≡ 0
          → (detect db c duplicates).fraud_score < 4000)
unfolding detect
profile_stays_below_review db c ds =
    (omega (arith, profile_adds db c ds), λ h. omega (arith, profile_adds db c ds))
