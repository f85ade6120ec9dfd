-- ===== src/Validation.antt =====
-- backend/services/policy_validation.py: is the policy in force, paid, past its waiting period, and
-- does it cover the incident? Each check changes the result that the checks before it left.
pub mod Laws
use insurance_claim_approval.Prelude.{
  ℕ, zero, ◌*◌, Bool, true, false, ◌||◌, ◌&&◌, not, Option, none, some, List, [], ◌∷◌, ◌++◌, ltb,
  leb, ◌==◌, if◌then◌else◌, keep, ◌+◌,
}
use insurance_claim_approval.Prelude.Int.{pos, ltb_ℤ}
use insurance_claim_approval.Prelude.Text.{Text, lower, contains}
use insurance_claim_approval.Prelude.Time.{DateTime, stamp, days_since}
use insurance_claim_approval.Schema.Status.{PolicyStatus, is_paid}
use insurance_claim_approval.Schema.Policy.{Policy, PremiumPayment}
use insurance_claim_approval.Schema.Claim.{Claim}
use insurance_claim_approval.Schema.Messages.{
  Violation, policy_not_found, policy_has_expired, premium_not_current, policy_status_is,
  within_waiting, matches_exclusion, exceeds_coverage_limit,
}
use insurance_claim_approval.Schema.Db.{Db, policy_of}

pub record PolicyValidationResult : Type 0 where
  pub eligible : Bool
  pub policy_expired : Bool
  pub premium_unpaid : Bool
  pub incident_excluded : Bool
  pub within_waiting_period : Bool
  pub exceeds_coverage : Bool
  pub violations : List Violation

abbrev pub is_expired : PolicyStatus → Bool
is_expired PolicyStatus.expired = true
is_expired _ = false

abbrev pub is_lapsed_or_cancelled : PolicyStatus → Bool
is_lapsed_or_cancelled PolicyStatus.lapsed = true
is_lapsed_or_cancelled PolicyStatus.cancelled = true
is_lapsed_or_cancelled _ = false

-- The place of a payment in the order of `paid_at`: NULL comes before every moment, as SQLite, the
-- default database, has it.
unfoldable pub paid_rank : Option DateTime → ℕ
unfolding stamp
paid_rank none = 0
paid_rank (some t) = stamp t + 1

-- `order_by(paid_at.desc()).first()`; of two payments of one moment the earlier row is taken.
unfoldable pub latest_payment : List PremiumPayment → Option PremiumPayment
unfolding paid_rank
latest_payment [] = none
latest_payment (p ∷ ps) = elim (latest_payment ps) [
  | none ↦ some p
  | some q ↦ if leb (paid_rank q.paid_at) (paid_rank p.paid_at) then some p else some q
]

-- The policy is past its expiry date, or marked expired.
unfoldable pub out_of_date : Policy → DateTime → Bool
out_of_date p now = is_expired p.status || ltb (stamp p.expiry_date) (stamp now)

unfoldable pub is_unpaid : Option PremiumPayment → Bool
is_unpaid none = false
is_unpaid (some x) = not (is_paid x.status)

unfoldable pub in_waiting_period : Policy → Claim → Bool
in_waiting_period p c =
    ltb 0 p.waiting_period_days
    && ltb_ℤ (days_since c.incident_datetime p.effective_date) (pos p.waiting_period_days)

abbrev eligible_result : PolicyValidationResult
eligible_result = record {
  eligible = true;
  policy_expired = false;
  premium_unpaid = false;
  incident_excluded = false;
  within_waiting_period = false;
  exceeds_coverage = false;
  violations = [];
}

abbrev not_found : PolicyValidationResult
not_found = record eligible_result { eligible = false; violations = policy_not_found ∷ [] }

check_expiry : Policy → DateTime → PolicyValidationResult → PolicyValidationResult
check_expiry p now r =
    if out_of_date p now
    then record r {
      eligible = false;
      policy_expired = true;
      violations = r.violations ++ policy_has_expired ∷ [];
    }
    else r

check_status : Policy → PolicyValidationResult → PolicyValidationResult
check_status p r =
    if is_lapsed_or_cancelled p.status
    then record r {
      eligible = false;
      policy_expired = true;
      violations = r.violations ++ policy_status_is p.status ∷ [];
    }
    else r

check_premium : Option PremiumPayment → PolicyValidationResult → PolicyValidationResult
check_premium latest r =
    if is_unpaid latest
    then record r {
      eligible = false;
      premium_unpaid = true;
      violations = r.violations ++ premium_not_current ∷ [];
    }
    else r

check_waiting : Policy → Claim → PolicyValidationResult → PolicyValidationResult
check_waiting p c r =
    if in_waiting_period p c
    then record r {
      eligible = false;
      within_waiting_period = true;
      violations = r.violations ++ within_waiting p.waiting_period_days ∷ [];
    }
    else r

-- `exclusion.lower() in incident_lower`
unfoldable pub excludes : Text → Text → Bool
excludes incident exclusion = contains (lower exclusion) (lower incident)

exclude_step : Text → Text → PolicyValidationResult → PolicyValidationResult
exclude_step incident x r =
    if excludes incident x
    then record r {
      eligible = false;
      incident_excluded = true;
      violations = r.violations ++ matches_exclusion x ∷ [];
    }
    else r

unfoldable pub check_exclusions : Text → List Text → PolicyValidationResult → PolicyValidationResult
unfolding exclude_step
check_exclusions incident [] r = r
check_exclusions incident (x ∷ xs) r = check_exclusions incident xs (exclude_step incident x r)

-- Over the limit is noted, and leaves the claim eligible.
check_coverage : Policy → Claim → PolicyValidationResult → PolicyValidationResult
check_coverage p c r =
    if ltb p.coverage_limit c.claim_amount
    then record r {
      exceeds_coverage = true;
      violations = r.violations ++ exceeds_coverage_limit p.coverage_limit ∷ [];
    }
    else r

unfoldable pub payments_of : Policy → Db → List PremiumPayment
payments_of p db = keep (λ x. x.policy_id == p.id) db.payments

unfoldable pub validate_policy :
    Policy → Option PremiumPayment → Claim → DateTime → PolicyValidationResult
unfolding check_expiry check_status check_premium check_waiting check_coverage
validate_policy p latest c now = check_coverage p c (
    check_exclusions c.incident_description p.exclusions (
      check_waiting p c
        (check_premium latest (check_status p (check_expiry p now eligible_result)))))

unfoldable pub validate : Db → Claim → DateTime → PolicyValidationResult
validate db c now = elim (policy_of c db) [
  | none ↦ not_found
  | some p ↦ validate_policy p (latest_payment (payments_of p db)) c now
]
