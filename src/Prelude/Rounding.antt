-- ===== src/Prelude/Rounding.antt =====
-- Python's `round` on an exact quotient: to the nearest, a tie to the even neighbour.
use Prim.Native.Nat.{ℕ, ◌+◌, ◌*◌, ◌/◌, ◌%◌, ◌≤◌, ◌<◌}
use native.Mathlib.Nat.{div-add-mod', le_of_mul-le-mul_right}
use native.Mathlib.Omega.{arith}
use mathlib.Core.Path.{◌≡◌, ap}
use mathlib.Core.Logic.{◌⊎◌, inl, inr}
use insurance_claim_approval.Prelude.Tests.{ltb, ◌==◌, if◌then◌else◌}

-- `q` and `r` are the quotient and the remainder by `d`.
round_from : ℕ → ℕ → ℕ → ℕ
round_from q r d =
    if ltb (r * 2) d then q else if ltb d (r * 2) then q + 1 else if q % 2 == 0 then q else q + 1

unfoldable pub round_half_even : ℕ → ℕ → ℕ
unfolding round_from
round_half_even n d = round_from (n / d) (n % d) d

eq-or-lt : (q k : ℕ) → q ≤ k → (q ≡ k) ⊎ (q < k)
eq-or-lt q k le = ground arith

round_from-le : (q r d k : ℕ) → 0 < d → q ≤ k → (q ≡ k → r ≡ 0) → round_from q r d ≤ k
unfolding round_from
round_from-le q r d k pos le last = elim (eq-or-lt q k le) [
  | inl same ↦ let none_left = last same in ground arith
  | inr less ↦ ground arith
]

-- A quotient of at most `k` rounds to at most `k`.
pub round_half_even-le : (m d k : ℕ) → 0 < d → m ≤ k * d → round_half_even m d ≤ k
unfolding round_half_even
round_half_even-le m d k pos le =
    let split = div-add-mod' m d in
    round_from-le (m / d) (m % d) d k pos (le_of_mul-le-mul_right (omega arith) pos)
      (λ same. let whole = ap (λ q. q * d) same in omega arith)
