-- ===== src/Fraud/Hard.antt =====
-- Every hard signal reaches the review threshold by itself, and the model can only add suspicion.
use insurance_claim_approval.Prelude.{
  ℕ, ◌+◌, ◌≤◌, ◌≡◌, ◌<◌, Option, true, some, List, [], ◌∷◌, ◌++◌, is_empty, false, arith,
}
use insurance_claim_approval.Prelude.Text.{Text}
use insurance_claim_approval.Schema.Status.{RiskBand}
use insurance_claim_approval.Schema.Policy.{Policy, RiskSignal}
use insurance_claim_approval.Schema.Customer.{Customer}
use insurance_claim_approval.Schema.Claim.{Claim}
use insurance_claim_approval.Schema.Db.{Db, policy_of, customer_of}
use insurance_claim_approval.Fraud.{
  Finding, total, findings, detect, duplicates_of, device_matches, vins_differ, LlmScore, combine,
  blacklist_rule, duplicate_rule, lakehouse_rule, risk_of, vin_rule, device_rule,
}

pub total-append : (xs ys : List Finding) → total (xs ++ ys) ≡ total xs + total ys
total-append [] ys = omega arith
total-append ((w, s) ∷ xs) ys = omega (arith, total-append xs ys)

-- The patterns that SIGNAL_WEIGHTS calls hard.
pub data IsHard (db : Db) (c : Claim) : Type 0 where
  on_blacklist : (x : Customer) → customer_of c db ≡ some x → x.blacklist_flag ≡ true → IsHard db c
  claimed_twice : 0 < duplicates_of c db → IsHard db c
  bad_history :
      (p : Policy) (r : RiskSignal)
      → policy_of c db ≡ some p
      → p.risk_signal ≡ some r
      → r.claim_risk_band ≡ RiskBand.high_risk
      → IsHard db c
  wrong_vehicle :
      (p : Policy)
      → policy_of c db ≡ some p
      → vins_differ c.vin p.covered_vehicle_vin ≡ true
      → IsHard db c
  shared_device :
      (h : Text)
      → c.submission_device_hash ≡ some h
      → is_empty h ≡ false
      → 0 < device_matches h c db
      → IsHard db c

blacklist_heavy :
    (o : Option Customer) (x : Customer)
    → o ≡ some x
    → x.blacklist_flag ≡ true
    → 4000 ≤ total (blacklist_rule o)
blacklist_heavy o x e b = ground arith

duplicate_heavy : (n : ℕ) → 0 < n → 4000 ≤ total (duplicate_rule n)
duplicate_heavy n h = ground arith

history_heavy :
    (o : Option Policy) (p : Policy) (r : RiskSignal)
    → o ≡ some p
    → p.risk_signal ≡ some r
    → r.claim_risk_band ≡ RiskBand.high_risk
    → 4000 ≤ total (lakehouse_rule (risk_of o))
history_heavy o p r e f b = ground arith

vehicle_heavy :
    (c : Claim) (o : Option Policy) (p : Policy)
    → o ≡ some p
    → vins_differ c.vin p.covered_vehicle_vin ≡ true
    → 4000 ≤ total (vin_rule o c)
vehicle_heavy c o p e v = ground arith

device_heavy :
    (db : Db) (c : Claim) (o : Option Text) (h : Text)
    → o ≡ some h
    → is_empty h ≡ false
    → 0 < device_matches h c db
    → 4000 ≤ total (device_rule o c db)
device_heavy db c o h e n m = ground arith

-- A claim with one hard signal (blacklist, duplicate claim, HIGH risk band, VIN mismatch, device
-- reuse) has a fraud score of at least 0.40, the default review threshold, whatever else is known.
pub hard_reaches_review :
    (db : Db) (c : Claim) (duplicates : List Text)
    → IsHard db c
    → 4000 ≤ (detect db c duplicates).fraud_score
unfolding detect findings
hard_reaches_review db c ds (on_blacklist x e b) =
    simp total-append (omega (arith, blacklist_heavy _ x e b))
hard_reaches_review db c ds (claimed_twice n) =
    simp total-append (omega (arith, duplicate_heavy _ n))
hard_reaches_review db c ds (bad_history p r e f b) =
    simp total-append (omega (arith, history_heavy _ p r e f b))
hard_reaches_review db c ds (wrong_vehicle p e v) =
    simp total-append (omega (arith, vehicle_heavy c _ p e v))
hard_reaches_review db c ds (shared_device h e n m) =
    simp total-append (omega (arith, device_heavy db c _ h e n m))

-- The fraud score is at most 1.
pub detect_bounds :
    (db : Db) (c : Claim) (duplicates : List Text) → (detect db c duplicates).fraud_score ≤ 10_000
unfolding detect
detect_bounds db c ds = omega arith

-- The language model never lowers a score of the rules, and keeps it at most 1.
combine_bounds : (n : ℕ) (s : LlmScore) → n ≤ 10_000 → (n ≤ combine n s) × (combine n s ≤ 10_000)
unfolding combine
combine_bounds n s h = ground arith
