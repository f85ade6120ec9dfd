-- ===== src/Profile.antt =====
-- backend/services/customer_profile.py: the risk score of a customer, from payments, claims and
-- tenure. The score is computed exactly, in units of 1 / 36 500 000, and rounded at the end.
use insurance_claim_approval.Prelude.{
  ℕ, ◌+◌, ◌-◌, ◌*◌, ◌≤◌, min, Bool, true, false, ◌&&◌, not, Option, none, some, List, ◌++◌, arith,
  leb, ◌==◌, if◌then◌else◌, when, find_first, count_if,
}
use insurance_claim_approval.Prelude.Int.{ℤ, pos, pos_part, neg_part}
use insurance_claim_approval.Prelude.Rounding.{round_half_even}
use insurance_claim_approval.Prelude.Time.{DateTime, stamp, day_micros, days_since}
use insurance_claim_approval.Schema.Status.{ClaimStatus, is_paid}
use insurance_claim_approval.Schema.Policy.{PremiumPayment, Policy}
use insurance_claim_approval.Schema.Customer.{Customer, CustomerProfile}
use insurance_claim_approval.Schema.Claim.{Claim}
use insurance_claim_approval.Schema.Messages.{
  Signal, on_watchlist, no_saved_vehicles, prior_claims_12m,
}
use insurance_claim_approval.Schema.Db.{Db, policy_of, customer_of}

pub record CustomerProfileResult : Type 0 where
  pub customer_risk_score : ℕ
  pub prior_claims_count : ℕ
  pub policy_tenure_days : ℤ
  pub signals : List Signal

abbrev pub is_prior_status : ClaimStatus → Bool
is_prior_status ClaimStatus.approved = true
is_prior_status ClaimStatus.escalate = true
is_prior_status ClaimStatus.human_review = true
is_prior_status _ = false

-- Another claim of the same customer.
abbrev pub is_sibling : Claim → Claim → Bool
is_sibling c d = d.customer_id == c.customer_id && not (d.id == c.id)

pub prior_claims : Claim → Db → ℕ
prior_claims c db = count_if (λ d. is_sibling c d && is_prior_status d.status) db.claims

pub claims_12m : Claim → DateTime → Db → ℕ
claims_12m c now db =
    count_if (λ d. is_sibling c d && leb (stamp now) (stamp d.created_at + 365 * day_micros))
      db.claims

tenure_days : Option Policy → DateTime → ℤ
tenure_days none now = pos 0
tenure_days (some p) now = days_since now p.effective_date

unpaid_payments : Option ℕ → List PremiumPayment → ℕ
unpaid_payments none ps = 0
unpaid_payments (some k) ps = count_if (λ p. p.policy_id == k && not (is_paid p.status)) ps

-- 1, in the unit of the risk.
abbrev pub whole_risk : ℕ
whole_risk = 36_500_000

-- `max(0, 1 - min(days / 365, 1))` in 365ths: above 1 for a policy that has yet to take effect.
abbrev tenure_gap : ℤ → ℕ
tenure_gap days = 365 + neg_part days - min (pos_part days) 365

unfoldable pub base_risk : ℕ → ℕ → ℤ → ℕ
base_risk unpaid prior days =
    min
      (3 * 365 * min (unpaid * 2500) 10_000
        + 4 * 365 * min (prior * 1500) 10_000
        + 3 * 10_000 * tenure_gap days)
      whole_risk

is_blacklisted : Option Customer → Bool
is_blacklisted none = false
is_blacklisted (some c) = c.blacklist_flag

unfoldable pub risk_score : Bool → ℕ → ℕ
risk_score blacklisted risk =
    round_half_even (if blacklisted then min (risk + 10_950_000) whole_risk else risk) 3650

-- `len(profile.saved_vehicles or []) if profile else 0`
saved_vehicles_count : Option CustomerProfile → ℕ
saved_vehicles_count none = 0
saved_vehicles_count (some p) = p.saved_vehicles

unfoldable pub analyze : Db → Claim → DateTime → CustomerProfileResult
unfolding prior_claims claims_12m tenure_days unpaid_payments is_blacklisted saved_vehicles_count
analyze db c now =
    let policy = policy_of c db in
    let blacklisted = is_blacklisted (customer_of c db) in
    let prior = prior_claims c db in
    let days = tenure_days policy now in
    let recent = claims_12m c now db in
    let profile = find_first (λ p. p.customer_id == c.customer_id) db.profiles in
    record {
      customer_risk_score =
          risk_score blacklisted (base_risk (unpaid_payments c.policy_id db.payments) prior days);
      prior_claims_count = prior;
      policy_tenure_days = days;
      signals =
          when blacklisted on_watchlist
          ++ when (leb 3 recent) (prior_claims_12m recent)
          ++ when (saved_vehicles_count profile == 0) no_saved_vehicles;
    }

risk_score-le : (b : Bool) (r : ℕ) → r ≤ whole_risk → risk_score b r ≤ 10_000
unfolding risk_score round_half_even
risk_score-le b r h = ground arith

-- The customer's risk score is at most 1, whatever the database holds.
analyze_bounds :
    (db : Db) (c : Claim) (now : DateTime) → (analyze db c now).customer_risk_score ≤ 10_000
unfolding analyze
analyze_bounds db c now = risk_score-le _ _ (unfold base_risk in omega arith)

-- More unpaid premiums or more decided claims never lower the risk before rounding and before the
-- addition for the watchlist.
base_risk_monotone :
    (u v p q : ℕ) (days : ℤ) → u ≤ v → p ≤ q → base_risk u p days ≤ base_risk v q days
unfolding base_risk
base_risk_monotone u v p q days hu hp = omega arith
