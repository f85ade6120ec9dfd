-- ===== src/Payout/Bounds.antt =====
-- What the payout is bounded by, and how its parts fit together.
use native.Mathlib.Nat.{le_refl, mul-le-mul}
use insurance_claim_approval.Prelude.{
  ℕ, ◌+◌, ◌-◌, ◌*◌, ◌≤◌, ◌<◌, ◌≡◌, min, Bool, true, false, Option, arith, if◌then◌else◌,
}
use insurance_claim_approval.Prelude.Rounding.{round_half_even}
use insurance_claim_approval.Schema.Policy.{Policy}
use insurance_claim_approval.Schema.Claim.{Claim}
use insurance_claim_approval.Schema.Outcome.{PayoutResult}
use insurance_claim_approval.Payout.{
  cent, depreciation_pct_for_age, vehicle_age_years, is_liability_claim, is_total_loss_of,
  after_co_pay, base_payable, third_party_share, own_damage_share, gst_of, calculate,
}

-- The two shares add up to the base, to half a cent.
shares_sum :
    (b : Bool) (base : ℕ)
    → let tp = third_party_share b base in
      let od = own_damage_share base tp in
      ((od + tp) * cent ≤ base + 500_000) × (base ≤ (od + tp) * cent + 500_000)
unfolding third_party_share own_damage_share round_half_even
shares_sum b base = ground arith

-- A base of at most `n` whole cents gives shares of at most `n` cents.
shares-le :
    (b : Bool) (base n : ℕ)
    → base ≤ n * cent
    → let tp = third_party_share b base in own_damage_share base tp + tp ≤ n
unfolding third_party_share own_damage_share round_half_even
shares-le b base n h = ground arith

-- Whole cents are split without loss.
shares_whole :
    (b : Bool) (n : ℕ)
    → let tp = third_party_share b (n * cent) in own_damage_share (n * cent) tp + tp ≡ n
unfolding third_party_share own_damage_share round_half_even
shares_whole b n = ground arith

is_total_loss_of_lem :
    (gross idv : ℕ) → 0 < idv → idv * 3 ≤ gross * 4 → is_total_loss_of gross idv ≡ true
unfolding is_total_loss_of
is_total_loss_of_lem gross idv h big = ground arith

base_payable-le :
    (t : Bool) (idv salvage net : ℕ) → 0 < idv → base_payable t idv salvage net ≤ idv * cent
unfolding base_payable
base_payable-le t idv s net h = ground arith

gst_mono : (m n : ℕ) → m ≤ n → gst_of m ≤ gst_of n
unfolding gst_of round_half_even
gst_mono m n h = ground arith

-- The settlement before GST.
abbrev pub settlement : PayoutResult → ℕ
settlement r = r.own_damage_payable + r.third_party_payable

-- With a coverage limit (the vehicle's IDV) the settlement is at most the limit, and the amount
-- paid at most the limit and its GST, in a total loss too.
pub payout_capped :
    (p : Policy) (gross : ℕ) (c : Option Claim)
    → 0 < p.coverage_limit
    → let r = calculate p gross c in
      (settlement r ≤ p.coverage_limit)
      × (r.payable_amount ≤ p.coverage_limit + gst_of p.coverage_limit)
unfolding calculate
payout_capped p gross c h =
    let t = is_total_loss_of gross p.coverage_limit in
    let ded = min p.deductible gross in
    let dep = depreciation_pct_for_age (vehicle_age_years c) p.zero_depreciation_addon in
    let net = after_co_pay (gross - ded) dep p.co_pay_pct in
    let salvage : ℕ = (if t then round_half_even p.coverage_limit 10 else 0) in
    let base = base_payable t p.coverage_limit salvage net in
    let le =
      shares-le (is_liability_claim c) base p.coverage_limit
        (base_payable-le t p.coverage_limit salvage net h) in
    (le, omega (arith, le, gst_mono _ p.coverage_limit le))

-- Depreciation and co-pay only take away.
after_co_pay-le : (n d c : ℕ) → after_co_pay n d c ≤ n * cent
unfolding after_co_pay
after_co_pay-le n d c =
    mul-le-mul (le_refl n) (mul-le-mul {n₂ = 100} {m₂ = 10_000} (omega arith) (omega arith))

-- Outside a total loss the settlement is at most the claimed amount less the deductible.
pub payout_le_claim :
    (p : Policy) (gross : ℕ) (c : Option Claim)
    → (calculate p gross c).is_total_loss ≡ false
    → settlement (calculate p gross c) ≤ gross - min p.deductible gross
unfolding calculate
payout_le_claim p gross c h =
    let net_le =
      after_co_pay-le (gross - min p.deductible gross)
        (depreciation_pct_for_age (vehicle_age_years c) p.zero_depreciation_addon) p.co_pay_pct in
    rw h (
      shares-le (is_liability_claim c) _ (gross - min p.deductible gross)
        (unfold base_payable in ground (arith, net_le)))

-- A total loss (a limit, and a claim of at least 75 % of it) settles at exactly the IDV less the
-- salvage of a tenth of it, whatever the deductible, the co-pay, the vehicle's age or the excess of
-- the claim.
total_loss_settlement :
    (p : Policy) (gross : ℕ) (c : Option Claim)
    → 0 < p.coverage_limit
    → p.coverage_limit * 3 ≤ gross * 4
    → settlement (calculate p gross c) ≡ p.coverage_limit - round_half_even p.coverage_limit 10
unfolding calculate
total_loss_settlement p gross c some_limit big =
    rw (is_total_loss_of_lem gross p.coverage_limit some_limit big) (
      unfold base_payable in
      shares_whole (is_liability_claim c) (p.coverage_limit - round_half_even p.coverage_limit 10))
