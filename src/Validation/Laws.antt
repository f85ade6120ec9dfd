-- ===== src/Validation/Laws.antt =====
-- What each flag of a policy validation means.
use insurance_claim_approval.Prelude.{
  ◌≡◌, Bool, ◌||◌, ◌&&◌, not, Option, List, [], ◌∷◌, arith, ltb, any_of,
}
use insurance_claim_approval.Prelude.Text.{Text}
use insurance_claim_approval.Prelude.Time.{DateTime}
use insurance_claim_approval.Schema.Policy.{Policy, PremiumPayment}
use insurance_claim_approval.Schema.Claim.{Claim}
use insurance_claim_approval.Validation.{
  PolicyValidationResult, is_lapsed_or_cancelled, out_of_date, is_unpaid, in_waiting_period,
  excludes, exclude_step, check_exclusions, validate_policy,
}

abbrev pub any_excludes : Claim → Policy → Bool
any_excludes c p = any_of (excludes c.incident_description) p.exclusions

-- The loop over the exclusions changes two flags, by whether any of them matches.
record ExclusionLoop (incident : Text) (xs : List Text) (r r' : PolicyValidationResult)
    : Type 0 where
  excluded : r'.incident_excluded ≡ (r.incident_excluded || any_of (excludes incident) xs)
  eligible : r'.eligible ≡ (r.eligible && not (any_of (excludes incident) xs))
  expired : r'.policy_expired ≡ r.policy_expired
  unpaid : r'.premium_unpaid ≡ r.premium_unpaid
  waiting : r'.within_waiting_period ≡ r.within_waiting_period
  exceeds : r'.exceeds_coverage ≡ r.exceeds_coverage

exclusion_loop :
    (incident : Text) (xs : List Text) (r : PolicyValidationResult)
    → ExclusionLoop incident xs r (check_exclusions incident xs r)
unfolding check_exclusions exclude_step
exclusion_loop incident [] r = ground arith
exclusion_loop incident (x ∷ xs) r =
    ground (arith, exclusion_loop incident xs (exclude_step incident x r))

-- The five flags of a validation, each by the one condition that sets it.
pub record Flags (p : Policy) (latest : Option PremiumPayment) (c : Claim) (now : DateTime)
    (r : PolicyValidationResult) : Type 0 where
  pub expired : r.policy_expired ≡ (out_of_date p now || is_lapsed_or_cancelled p.status)
  pub unpaid : r.premium_unpaid ≡ is_unpaid latest
  pub excluded : r.incident_excluded ≡ any_excludes c p
  pub waiting : r.within_waiting_period ≡ in_waiting_period p c
  pub exceeds : r.exceeds_coverage ≡ ltb p.coverage_limit c.claim_amount

-- Validating a claim against its policy sets each flag by its own condition: expired by date, mark,
-- lapse or cancellation; unpaid by the latest payment; excluded by any exclusion text in the
-- incident; waiting by the days since the policy took effect; over the limit by the amount.
pub validate-Flags :
    (p : Policy) (latest : Option PremiumPayment) (c : Claim) (now : DateTime)
    → Flags p latest c now (validate_policy p latest c now)
unfolding validate_policy
validate-Flags p latest c now = grind (arith, exclusion_loop)

-- A claim on a policy is eligible exactly when none of the four disqualifying conditions holds; the
-- coverage limit is not one of them.
pub validate-eligible :
    (p : Policy) (latest : Option PremiumPayment) (c : Claim) (now : DateTime)
    → let r = validate_policy p latest c now in
      r.eligible
      ≡ not (r.policy_expired || r.premium_unpaid || r.within_waiting_period || r.incident_excluded)
unfolding validate_policy
validate-eligible p latest c now = grind (arith, exclusion_loop)
