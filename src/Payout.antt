-- ===== src/Payout.antt =====
-- backend/services/payout_calculation.py: the rules-based motor payout. Amounts are in cents and
-- percentages of a policy in hundredths of a percent; between the roundings amounts are exact, in
-- millionths of a cent. A policy's co-pay is at most 100 %.
pub mod Bounds
pub mod Llm
use insurance_claim_approval.Prelude.{
  ℕ, zero, suc, ◌+◌, ◌-◌, ◌*◌, min, Bool, true, false, ◌&&◌, ◌||◌, Option, none, some, ltb, leb,
  if◌then◌else◌,
}
use insurance_claim_approval.Prelude.Rounding.{round_half_even}
use insurance_claim_approval.Schema.Status.{IncidentType}
use insurance_claim_approval.Schema.Policy.{Policy}
use insurance_claim_approval.Schema.Claim.{Claim}
use insurance_claim_approval.Schema.Outcome.{PayoutResult}

-- A cent, in the unit of the exact amounts.
abbrev pub cent : ℕ
cent = 1_000_000

-- `AGE_BASED_DEPRECIATION_PCT`, in percent.
unfoldable pub depreciation_pct_for_age : ℕ → Bool → ℕ
depreciation_pct_for_age age true = 0
depreciation_pct_for_age zero false = 5
depreciation_pct_for_age (suc zero) false = 15
depreciation_pct_for_age (suc (suc zero)) false = 30
depreciation_pct_for_age (suc (suc (suc zero))) false = 40
depreciation_pct_for_age (suc (suc (suc (suc zero)))) false = 50
depreciation_pct_for_age (suc (suc (suc (suc (suc n))))) false = 60

-- A year of 0 counts as missing.
age_of : Option ℕ → ℕ → ℕ
age_of none incident_year = 0
age_of (some year) incident_year = if ltb 0 year then incident_year - year else 0

unfoldable pub vehicle_age_years : Option Claim → ℕ
unfolding age_of
vehicle_age_years none = 0
vehicle_age_years (some c) = age_of c.vehicle_year c.incident_datetime.year

abbrev pub is_third_party_liability : IncidentType → Bool
is_third_party_liability IncidentType.third_party_liability = true
is_third_party_liability _ = false

unfoldable pub is_liability_claim : Option Claim → Bool
is_liability_claim none = false
is_liability_claim (some c) = is_third_party_liability c.incident_type || c.third_party_involved

-- `gross / idv >= 0.75`, for a policy that has a limit.
unfoldable pub is_total_loss_of : ℕ → ℕ → Bool
is_total_loss_of gross idv = ltb 0 idv && leb (idv * 3) (gross * 4)

-- Steps 2 to 4, exactly: what is left after the deductible, the depreciation in percent and the
-- co-pay in hundredths of a percent.
unfoldable pub after_co_pay : ℕ → ℕ → ℕ → ℕ
after_co_pay after_deductible dep_pct co_pay_pct =
    after_deductible * ((100 - dep_pct) * (10_000 - co_pay_pct))

-- Steps 5 and 6.
unfoldable pub base_payable : Bool → ℕ → ℕ → ℕ → ℕ
base_payable total_loss idv salvage net =
    if total_loss then (idv - salvage) * cent else if ltb 0 idv then min net (idv * cent) else net

-- Step 7: the third party's share of 30 %, and the rest, each rounded to the cent.
unfoldable pub third_party_share : Bool → ℕ → ℕ
third_party_share liability base = if liability then round_half_even (base * 3) 10_000_000 else 0

unfoldable pub own_damage_share : ℕ → ℕ → ℕ
own_damage_share base tp = round_half_even (base - tp * cent) cent

-- Step 8: GST of 18 %.
unfoldable pub gst_of : ℕ → ℕ
gst_of amount = round_half_even (amount * 18) 100

unfoldable pub calculate : Policy → ℕ → Option Claim → PayoutResult
calculate policy gross claim =
    let idv = policy.coverage_limit in
    let total_loss = is_total_loss_of gross idv in
    let deductible = min policy.deductible gross in
    let after_deductible = gross - deductible in
    let dep_pct =
      depreciation_pct_for_age (vehicle_age_years claim) policy.zero_depreciation_addon in
    let after_depreciation = after_deductible * (100 - dep_pct) * 10_000 in
    let net = after_co_pay after_deductible dep_pct policy.co_pay_pct in
    let salvage = (if total_loss then round_half_even idv 10 else 0) in
    let base = base_payable total_loss idv salvage net in
    let tp = third_party_share (is_liability_claim claim) base in
    let od = own_damage_share base tp in
    let gst = gst_of (od + tp) in
    record {
      gross_amount = gross;
      deductible_applied = deductible;
      depreciation_applied = after_deductible * dep_pct * 10_000;
      co_pay_applied = after_depreciation - net;
      coverage_cap_applied = net - (if ltb 0 idv then min net (idv * cent) else net);
      own_damage_payable = od;
      third_party_payable = tp;
      gst_amount = gst;
      salvage_deduction = salvage;
      is_total_loss = total_loss;
      next_cycle_ncb_pct = if ltb 0 od then 0 else policy.no_claim_bonus_pct;
      payable_amount = od + tp + gst;
    }
