-- ===== src/Lifecycle/Deploys.antt =====
-- Deployments: what is served has passed its gate, and a failed one leaves no trace.
use insurance_claim_approval.Prelude.{
  ℕ, ◌≡◌, refl, ap, ◌⊎◌, inl, inr, Bool, true, false, Option, none, some, List, [], ◌∷◌, ◌==◌, map,
  arith, Bool-cases, Option-cases,
}
use insurance_claim_approval.Lifecycle.{
  Model, Store, is_gated, archived_at, taken_out, replace_champion, promote, rollback, Heads,
  promote_heads, untouched, then_heads, deployed, rolled_back, refused, deploy_main,
}

stamp_self : (stamp : ℕ) → (stamp == stamp) ≡ true
stamp_self stamp = ground arith

rollback-replace_champion :
    (stamp : ℕ) (s : Store) → rollback (replace_champion stamp s).0 (replace_champion stamp s).1 ≡ s
unfolding rollback replace_champion archived_at taken_out
rollback-replace_champion stamp s = elim (Option-cases s.champion) [
  | inl first ↦ rw first
  | inr (old, was) ↦ rw (was, stamp_self stamp)
]

no_value : {A : Type 0} {a : A} → none ≡ some a → ⊥
no_value h = ground arith

-- `rollback` undoes `promote`: it puts the directories of the head back as they were.
pub rollback-promote :
    (stamp : ℕ) (s t : Store) (name : Option ℕ)
    → promote stamp s ≡ some (name, t)
    → rollback name t ≡ s
unfolding promote
rollback-promote stamp s t name e = elim (Bool-cases (is_gated s.candidate)) [
  | inl gated ↦
      let done = rw gated at e in
      let same_name : (replace_champion stamp s).0 ≡ name = cc done in
      let same_store : (replace_champion stamp s).1 ≡ t = cc done in
      rw (← same_name, ← same_store) (rollback-replace_champion stamp s)
  | inr not_gated ↦ absurd (no_value (rw not_gated at e))
]

-- The stores of the heads, as they are.
abbrev pub stores : Heads → List Store
stores heads = map (λ (stamp, s). s) heads

promote_heads-undone :
    (heads : Heads)
    → (promote_heads heads).0 ≡ true
    → map (λ (name, t). rollback name t) (promote_heads heads).1 ≡ stores heads
unfolding promote_heads then_heads
promote_heads-undone [] h = refl
promote_heads-undone ((stamp, s) ∷ heads) h = elim (Option-cases (promote stamp s)) [
  | inl fails ↦ let never = rw fails at h in ground arith
  | inr ((name, t), e) ↦ rw e (
      rw (rollback-promote stamp s t name e)
        (ap (λ l. s ∷ l) (promote_heads-undone heads (rw e at h))))
]

-- Every head is promoted.
pub data Promoted : Heads → List Store → Type 0 where
  none_left : Promoted [] []
  then_next :
      {stamp : ℕ} {s : Store} {heads : Heads} {name : Option ℕ} {t : Store} {after : List Store}
      → promote stamp s ≡ some (name, t)
      → Promoted heads after
      → Promoted ((stamp, s) ∷ heads) (t ∷ after)

-- Those before the first refusal are promoted, and the others stand as they were.
pub data Stopped : Heads → List Store → Type 0 where
  at_once :
      {stamp : ℕ} {s : Store} {heads : Heads}
      → promote stamp s ≡ none
      → Stopped ((stamp, s) ∷ heads) (s ∷ stores heads)
  after_next :
      {stamp : ℕ} {s : Store} {heads : Heads} {name : Option ℕ} {t : Store} {after : List Store}
      → promote stamp s ≡ some (name, t)
      → Stopped heads after
      → Stopped ((stamp, s) ∷ heads) (t ∷ after)

untouched-stores : (heads : Heads) → map (λ (name, t). t) (untouched heads) ≡ stores heads
unfolding untouched
untouched-stores [] = refl
untouched-stores ((stamp, s) ∷ heads) = ap (λ l. s ∷ l) (untouched-stores heads)

promote_heads-outcome :
    (heads : Heads)
    → (((promote_heads heads).0 ≡ true)
        × Promoted heads (map (λ (name, t). t) (promote_heads heads).1))
      ⊎ (((promote_heads heads).0 ≡ false)
          × Stopped heads (map (λ (name, t). t) (promote_heads heads).1))
unfolding promote_heads then_heads
promote_heads-outcome [] = inl (refl, none_left)
promote_heads-outcome ((stamp, s) ∷ heads) = elim (Option-cases (promote stamp s)) [
  | inl fails ↦ rw (fails, untouched-stores heads) (inr (refl, at_once fails))
  | inr ((name, t), e) ↦ elim (promote_heads-outcome heads) [
    | inl (done, all) ↦ rw e (inl (done, then_next e all))
    | inr (stops, some_of_them) ↦ rw e (inr (stops, after_next e some_of_them))
  ]
]

-- A deployment ends in one of three ways. It is deployed with every head promoted; or every head was
-- promoted, the build or the deployment failed, and the directories of every head are as they were
-- before; or a head was refused, and then the heads before it stay promoted, while that head and
-- those after it are as they were.
pub deploy_main-outcome :
    (deploys : Bool) (heads : Heads)
    → ((deploys ≡ true)
        × ((deploy_main deploys heads).0 ≡ deployed)
        × Promoted heads (deploy_main deploys heads).1)
      ⊎ (((deploys ≡ false)
            × ((deploy_main deploys heads).0 ≡ rolled_back)
            × ((deploy_main deploys heads).1 ≡ stores heads)
            × (after : List Store) × Promoted heads after)
          ⊎ (((deploy_main deploys heads).0 ≡ refused)
              × Stopped heads (deploy_main deploys heads).1))
unfolding deploy_main
deploy_main-outcome deploys heads = elim (promote_heads-outcome heads) [
  | inl (done, all) ↦ elim (Bool-cases deploys) [
    | inl works ↦ rw (done, works) (inl (refl, refl, all))
    | inr fails ↦ rw (done, fails) (inr (inl (refl, refl, promote_heads-undone heads done, _, all)))
  ]
  | inr (stops, some_of_them) ↦ rw stops (inr (inr (refl, some_of_them)))
]

-- What is served, if anything, has a gate result that passes it.
pub record IsServed (s : Store) : Type 0 where
  pub gated : (m : Model) → s.champion ≡ some m → is_gated m ≡ true

abbrev pub AllServed : List Store → Type 0
AllServed [] = Unit
AllServed (s ∷ ss) = IsServed s × AllServed ss

promote-IsServed :
    (stamp : ℕ) (s t : Store) (name : Option ℕ) → promote stamp s ≡ some (name, t) → IsServed t
unfolding promote replace_champion
promote-IsServed stamp s t name e = elim (Bool-cases (is_gated s.candidate)) [
  | inl gated ↦ elim (Option-cases s.champion) [
    | inl first ↦
        let done = rw (gated, first) at e in
        let same : some s.candidate ≡ t.champion = cc done in
        record { gated = λ m h. cc (same, h, gated) }
    | inr (old, was) ↦
        let done = rw (gated, was) at e in
        let same : some s.candidate ≡ t.champion = cc done in
        record { gated = λ m h. cc (same, h, gated) }
  ]
  | inr not_gated ↦ absurd (no_value (rw not_gated at e))
]

untouched-AllServed :
    (heads : Heads) → AllServed (stores heads) → AllServed (map (λ (name, t). t) (untouched heads))
unfolding untouched
untouched-AllServed [] a = tt
untouched-AllServed ((stamp, s) ∷ heads) (h, a) = (h, untouched-AllServed heads a)

promote_heads-AllServed :
    (heads : Heads)
    → AllServed (stores heads)
    → AllServed (map (λ (name, t). t) (promote_heads heads).1)
unfolding promote_heads then_heads
promote_heads-AllServed [] a = tt
promote_heads-AllServed ((stamp, s) ∷ heads) (h, a) = elim (Option-cases (promote stamp s)) [
  | inl fails ↦ rw fails (h, untouched-AllServed heads a)
  | inr ((name, t), e) ↦ rw e (promote-IsServed stamp s t name e, promote_heads-AllServed heads a)
]

-- Every champion has a gate result that passes its own version, before a deployment and after it,
-- however it ends.
pub deploy_main-AllServed :
    (deploys : Bool) (heads : Heads)
    → AllServed (stores heads)
    → AllServed (deploy_main deploys heads).1
unfolding deploy_main
deploy_main-AllServed true heads a = elim (Bool-cases (promote_heads heads).0) [
  | inl done ↦ rw done (promote_heads-AllServed heads a)
  | inr stopped ↦ rw stopped (promote_heads-AllServed heads a)
]
deploy_main-AllServed false heads a = elim (Bool-cases (promote_heads heads).0) [
  | inl done ↦ rw done (rw (promote_heads-undone heads done) a)
  | inr stopped ↦ rw stopped (promote_heads-AllServed heads a)
]
