-- ===== src/Experts/Choice.antt =====
-- The expert who is chosen.
use insurance_claim_approval.Prelude.{
  ◌≤◌, ◌<◌, ◌≡◌, refl, ◌⊎◌, ◌↔◌, true, false, none, some, List, [], ◌∷◌, arith, any_of,
  Option-cases, Bool-cases, inl, inr,
}
use insurance_claim_approval.Schema.Claim.{Claim}
use insurance_claim_approval.Schema.Customer.{PolicyAgent}
use insurance_claim_approval.Experts.{load, least_loaded}

-- No active expert of the list comes before `a`: none has fewer open claims, and none with as many
-- has a lower id.
abbrev pub IsLeast : List Claim → PolicyAgent → List PolicyAgent → Type 0
IsLeast cs a [] = Unit
IsLeast cs a (b ∷ bs) =
    (b.is_active ≡ true → (load cs a < load cs b) ⊎ ((load cs a ≡ load cs b) × (a.id ≤ b.id)))
    × IsLeast cs a bs

IsLeast-trans :
    (cs : List Claim) (a b : PolicyAgent) (xs : List PolicyAgent)
    → (load cs a < load cs b) ⊎ ((load cs a ≡ load cs b) × (a.id ≤ b.id))
    → IsLeast cs b xs
    → IsLeast cs a xs
IsLeast-trans cs a b [] h l = tt
IsLeast-trans cs a b (x ∷ xs) h l =
    (λ active. ground (arith, l.0 active), IsLeast-trans cs a b xs h l.1)

none-IsLeast :
    (cs : List Claim) (xs : List PolicyAgent) (a : PolicyAgent)
    → least_loaded cs xs ≡ none
    → IsLeast cs a xs
unfolding least_loaded
none-IsLeast cs [] a h = tt
none-IsLeast cs (x ∷ xs) a h = (λ active. ground arith, none-IsLeast cs xs a (ground arith))

-- The chosen expert is active, and no active expert comes before in the order of open claims and id.
pub least_loaded-IsLeast :
    (cs : List Claim) (xs : List PolicyAgent) (a : PolicyAgent)
    → least_loaded cs xs ≡ some a
    → (a.is_active ≡ true) × IsLeast cs a xs
unfolding least_loaded
least_loaded-IsLeast cs [] a h = cc
least_loaded-IsLeast cs (x ∷ xs) a h =
    let ih = least_loaded-IsLeast cs xs in
    let away = none-IsLeast cs xs in
    let swap = IsLeast-trans cs in
    elim (Bool-cases x.is_active) [
      | inl on ↦ elim (Option-cases (least_loaded cs xs)) [
        | inl e ↦ ground (arith, away a e)
        | inr (b, e) ↦ ground (arith, ih b e, swap a b xs, swap b a xs)
      ]
      | inr off ↦ ground (arith, ih a)
    ]

-- No expert is chosen exactly when none is active.
least_loaded-none_iff :
    (cs : List Claim) (xs : List PolicyAgent)
    → (least_loaded cs xs ≡ none) ↔ (any_of (λ x. x.is_active) xs ≡ false)
unfolding least_loaded
least_loaded-none_iff cs [] = (λ h. refl, λ h. refl)
least_loaded-none_iff cs (x ∷ xs) =
    let (f, g) = least_loaded-none_iff cs xs in (λ h. ground (arith, f), λ h. ground (arith, g))
