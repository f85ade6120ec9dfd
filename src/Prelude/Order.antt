-- ===== src/Prelude/Order.antt =====
-- Equality and order of texts.
use Prim.Native.Nat.{ℕ, ◌<◌}
use mathlib.Core.Path.{◌≡◌, refl}
use mathlib.Core.Logic.{◌⊎◌, inl, inr}
use mathlib.Core.Bool.{true, false}
use mathlib.Core.List.{[], ◌∷◌}
use native.Mathlib.Omega.{arith}
use insurance_claim_approval.Prelude.Tests.{Bool-cases}
use insurance_claim_approval.Prelude.Text.{Text, text_eq, text_lt}

pub text_eq_refl : (s : Text) → text_eq s s ≡ true
unfolding text_eq
text_eq_refl [] = refl
text_eq_refl (x ∷ s) = rw (text_eq_refl s) (ground arith)

pub text_eq_comm : (s t : Text) → text_eq s t ≡ text_eq t s
unfolding text_eq
text_eq_comm [] [] = refl
text_eq_comm [] (y ∷ t) = refl
text_eq_comm (x ∷ s) [] = refl
text_eq_comm (x ∷ s) (y ∷ t) = let rest = text_eq_comm s t in ground arith

pub text_eq→eq : (s t : Text) → text_eq s t ≡ true → s ≡ t
unfolding text_eq
text_eq→eq [] [] h = refl
text_eq→eq [] (y ∷ t) h = ground arith
text_eq→eq (x ∷ s) [] h = ground arith
text_eq→eq (x ∷ s) (y ∷ t) h = let rest = text_eq→eq s t in grind arith

pub text_lt_irrefl : (s : Text) → text_lt s s ≡ false
unfolding text_lt
text_lt_irrefl [] = refl
text_lt_irrefl (x ∷ s) = let rest = text_lt_irrefl s in ground arith

pub text_lt_trans : (s t u : Text) → text_lt s t ≡ true → text_lt t u ≡ true → text_lt s u ≡ true
unfolding text_lt
text_lt_trans s [] u h k = ground arith
text_lt_trans s (y ∷ t) [] h k = ground arith
text_lt_trans [] (y ∷ t) (z ∷ u) h k = refl
text_lt_trans (x ∷ s) (y ∷ t) (z ∷ u) h k = let rest = text_lt_trans s t u in ground arith

heads : (x y : ℕ) → (x < y) ⊎ ((y < x) ⊎ (x ≡ y))
heads x y = ground arith

-- Two texts of which neither comes first are equal.
pub text_lt_total : (s t : Text) → (text_lt s t ≡ true) ⊎ ((text_lt t s ≡ true) ⊎ (s ≡ t))
unfolding text_lt
text_lt_total [] [] = inr (inr refl)
text_lt_total [] (y ∷ t) = inl refl
text_lt_total (x ∷ s) [] = inr (inl refl)
text_lt_total (x ∷ s) (y ∷ t) = elim (text_lt_total s t) [
  | inl h ↦ ground arith
  | inr (inl h) ↦ ground arith
  | inr (inr h) ↦ elim (heads x y) [
    | inl less ↦ ground arith
    | inr (inl more) ↦ ground arith
    | inr (inr same) ↦ inr (inr (cc (same, h)))
  ]
]

pub text_lt_asymm : (s t : Text) → text_lt s t ≡ true → text_lt t s ≡ false
text_lt_asymm s t h =
    let round = text_lt_trans s t s h in let never = text_lt_irrefl s in ground arith

pub text_lt→ne : (s t : Text) → text_lt s t ≡ true → text_eq s t ≡ false
text_lt→ne s t h = elim (Bool-cases (text_eq s t)) [
  | inl same ↦ let e = text_eq→eq s t same in cc (e, h, text_lt_irrefl t)
  | inr other ↦ other
]
