-- ===== src/Payout/Llm.antt =====
-- backend/services/llm_payout_service.py: the payout from parameters that the language model reads
-- out of the policy, or from the policy itself. A percentage may be any integer, in hundredths of a
-- percent; a cap is not negative. Between the roundings amounts are exact, in units of 10⁻⁸ cent.
use insurance_claim_approval.Prelude.{
  ℕ, ◌-◌, ◌*◌, ◌≤◌, min, Bool, true, false, Option, some, arith, ltb, or_else, if◌then◌else◌,
}
use insurance_claim_approval.Prelude.Int.{ℤ, pos, pos_part, ◌-ℤ◌, ◌*ℤ◌}
use insurance_claim_approval.Prelude.Rounding.{round_half_even}
use insurance_claim_approval.Schema.Policy.{Policy}

pub data Basis : Type 0 where
  gross_basis net_basis after_deductible_basis : Basis

-- The keys of `extract_payout_parameters`; `none` is a missing key.
pub record Params : Type 0 where
  pub apply_deductible : Option Bool
  pub deductible_amount : Option ℤ
  pub co_pay_pct : Option ℤ
  pub co_pay_basis : Option Basis
  pub apply_depreciation : Option Bool
  pub depreciation_pct : Option ℤ
  pub coverage_cap : Option ℕ

abbrev pub fallback_params : Policy → Params
fallback_params p = record {
  apply_deductible = some true;
  deductible_amount = some (pos p.deductible);
  co_pay_pct = some (pos p.co_pay_pct);
  co_pay_basis = some after_deductible_basis;
  apply_depreciation = some (ltb 0 p.depreciation_rate);
  depreciation_pct = some (pos p.depreciation_rate);
  coverage_cap = some p.coverage_limit;
}

-- `min(max(deductible, 0), gross)`
deductible_of : Params → Policy → ℕ → ℕ
deductible_of q p gross =
    if or_else q.apply_deductible true
    then min (pos_part (or_else q.deductible_amount (pos p.deductible))) gross
    else 0

co_pay_base : Basis → ℕ → ℕ → ℕ
co_pay_base gross_basis gross after = gross
co_pay_base net_basis gross after = after
co_pay_base after_deductible_basis gross after = after

-- What the co-pay leaves, in ten-thousandths of a cent. On the gross basis the deductible is not
-- taken off.
net_of_co_pay : Basis → ℕ → ℕ → ℤ → ℤ
unfolding co_pay_base
net_of_co_pay basis gross after pct =
    let base = co_pay_base basis gross after in pos (base * 10_000) -ℤ (pos base *ℤ pct)

depreciation_of : Params → ℤ
depreciation_of q =
    if or_else q.apply_depreciation false then or_else q.depreciation_pct (pos 0) else pos 0

-- The payable amount in cents, from the parameters of the model or those of the policy.
unfoldable pub payable_from : Params → Policy → ℕ → ℕ
unfolding deductible_of net_of_co_pay depreciation_of
payable_from q p gross =
    let after = gross - deductible_of q p gross in
    let net =
      net_of_co_pay (or_else q.co_pay_basis after_deductible_basis) gross after
        (or_else q.co_pay_pct (pos p.co_pay_pct)) in
    let exact = net *ℤ (pos 10_000 -ℤ depreciation_of q) in
    let cap = or_else q.coverage_cap p.coverage_limit in
    round_half_even (min (pos_part exact) (cap * 100_000_000)) 100_000_000

unfoldable pub llm_payable : Option Params → Policy → ℕ → ℕ
unfolding payable_from
llm_payable params p gross = payable_from (or_else params (fallback_params p)) p gross

round_half_even-le : (n k : ℕ) → n ≤ k * 100_000_000 → round_half_even n 100_000_000 ≤ k
unfolding round_half_even
round_half_even-le n k h = ground arith

-- Whatever the model answers, percentages below zero or above 100 included, the payable amount is
-- at most its cap, or the policy's limit where it names none or gives no answer.
llm_payable_capped :
    (params : Option Params) (p : Policy) (gross : ℕ)
    → llm_payable params p gross
      ≤ or_else (or_else params (fallback_params p)).coverage_cap p.coverage_limit
unfolding llm_payable
llm_payable_capped params p gross = round_half_even-le _ _ (omega arith)
