-- ===== src/Mdm/Matching/Laws.antt =====
-- `cluster_customers` as a partition, and the rules that it records.
use mathlib.Core.Path.{subst}
use insurance_claim_approval.Prelude.{
  ◌≡◌, refl, sym, ap, ◌∙◌, ◌⊎◌, inl, inr, ◌↔◌, some, List, [], ◌∷◌, Bool-cases, Option-cases, arith,
}
use insurance_claim_approval.Prelude.Text.{Text, text_eq}
use insurance_claim_approval.Prelude.Order.{text_eq_refl, text_eq→eq}
use insurance_claim_approval.Mdm.Clusters.{Rule, Parents, get, set_default, halve, climb, find}
use insurance_claim_approval.Mdm.Clusters.Roots.{
  get-set_self, get-set_ne, IsForest, Root, Root-unique, find-FoundBy, set_default-Root,
}
use insurance_claim_approval.Mdm.Matching.{
  Person, Pair, matches, refs_of, enter_all, roots_of, cluster_customers,
}
use insurance_claim_approval.Mdm.Matching.Connected.{
  Among, first, later, Connected, IsPartition, onto, merge_all-IsPartition, IsPartition-Together,
}
use insurance_claim_approval.Mdm.Matching.Refs.{matches-Within}

-- Every key is its own parent.
record IsFlat (p : Parents) : Type 0 where
  own : (w v : Text) → get p w ≡ some v → v ≡ w

IsFlat-IsForest : (p : Parents) → IsFlat p → IsForest p
IsFlat-IsForest p flat = record {
  down = λ x y h. inr (flat.own x y h);
  closed = λ x y h. (y, subst (λ w. get p w ≡ some y) (sym (flat.own x y h)) h);
}

set_default-IsFlat : (p : Parents) (x : Text) → IsFlat p → IsFlat (set_default p x)
unfolding set_default
set_default-IsFlat p x flat = elim (Option-cases (get p x)) [
  | inl new ↦
      rw (new, set_default)
        (record {
          own = λ w v h. elim (Bool-cases (text_eq x w)) [
            | inl same ↦ let e = text_eq→eq x w same in let k = get-set_self p x x in cc (e, h, k)
            | inr other ↦ flat.own w v (sym (get-set_ne p x x w other) ∙ h)
          ];
        })
  | inr (y, h) ↦ rw (h, set_default) flat
]

set_default_own : (p : Parents) (x : Text) → IsFlat p → get (set_default p x) x ≡ some x
unfolding set_default
set_default_own p x flat = elim (Option-cases (get p x)) [
  | inl new ↦ rw (new, set_default) (get-set_self p x x)
  | inr (y, h) ↦ rw (h, set_default) (h ∙ ap some (flat.own x y h))
]

find-flat : (p : Parents) (x : Text) → IsFlat p → find p x ≡ some (x, set_default p x)
unfolding find climb halve
find-flat p x flat = let own = set_default_own p x flat in rw (own, own, text_eq_refl x)

Root-set_default : (p : Parents) (x s : Text) → Root p s s → Root (set_default p x) s s
Root-set_default p x s d = set_default-Root p x s s d

no_entry : (w v : Text) → get {A = Text} [] w ≡ some v → v ≡ w
unfolding get
no_entry w v h = ground arith

-- All the keys are entered, each alone.
abbrev Entered : List Text → Parents → Type 0
Entered [] p = Unit
Entered (x ∷ xs) p = Root p x x × Entered xs p

enter_all-IsFlat :
    (p : Parents) (xs : List Text)
    → IsFlat p
    → (q : Parents) × (enter_all p xs ≡ some q)
      × IsFlat q
      × ((s : Text) → Root p s s → Root q s s)
      × Entered xs q
unfolding enter_all
enter_all-IsFlat p [] flat = (p, refl, flat, (λ s d. d), tt)
enter_all-IsFlat p (x ∷ xs) flat =
    let (q, e, flat_q, kept, entered) =
      enter_all-IsFlat (set_default p x) xs (set_default-IsFlat p x flat) in
    rw (find-flat p x flat) (
      q,
      e,
      flat_q,
      (λ s d. kept s (Root-set_default p x s d)),
      (kept x (Root.here (set_default_own p x flat)), entered),
    )

Entered-Root : (xs : List Text) (p : Parents) (x : Text) → Entered xs p → Among x xs → Root p x x
Entered-Root [] p x e h = elim h [ ]
Entered-Root (y ∷ xs) p _ (d, e) first = d
Entered-Root (y ∷ xs) p x (d, e) (later h) = Entered-Root xs p x e h

no_pair : {e : Pair} {A : Type 0} → Among e [] → A
no_pair h = elim h [ ]

flat-IsPartition : (xs : List Text) (p : Parents) → IsFlat p → Entered xs p → IsPartition xs [] p
flat-IsPartition xs p flat entered = record {
  forest = IsFlat-IsForest p flat;
  keyed = λ x h. (x, Entered-Root xs p x entered h, Connected.alike);
  merged = λ a b by h. no_pair h;
}

-- The list pairs each key with its root.
abbrev RootsIn : Parents → List Text → List (Text × Text) → Type 0
RootsIn p [] [] = Unit
RootsIn p [] (e ∷ es) = ⊥
RootsIn p (x ∷ xs) [] = ⊥
RootsIn p (x ∷ xs) ((y, r) ∷ es) = (y ≡ x) × Root p r x × RootsIn p xs es

-- The roots that are read while paths are halved are those of the parents at the start.
roots_of-RootsIn :
    (p0 p : Parents) (xs : List Text)
    → IsForest p
    → ((s w : Text) → Root p0 s w → Root p s w)
    → ((x : Text) → Among x xs → (r : Text) × Root p0 r x)
    → (out : List (Text × Text)) × (roots_of p xs ≡ some out) × RootsIn p0 xs out
unfolding roots_of
roots_of-RootsIn p0 p [] forest keeps keyed = ([], refl, tt)
roots_of-RootsIn p0 p (x ∷ xs) forest keeps keyed =
    let (r, q, e, found) = find-FoundBy p x forest in
    let (s, d) = keyed x first in
    let before = set_default-Root p x s x (keeps s x d) in
    let agree : s ≡ r = Root-unique before found.root in
    let (out, f, rest) =
      roots_of-RootsIn p0 q xs found.forest
        (λ t w b. found.keeps t w (set_default-Root p x t w (keeps t w b)))
        (λ y h. keyed y (later h)) in
    rw (e, f) ((x, r) ∷ out, refl, (refl, subst (λ v. Root p0 v x) agree d, rest))

RootsIn-get :
    (p : Parents) (xs : List Text) (out : List (Text × Text)) (x : Text)
    → RootsIn p xs out
    → Among x xs
    → (r : Text) × (get out x ≡ some r) × Root p r x
unfolding get
RootsIn-get p [] out x k h = elim h [ ]
RootsIn-get p (y ∷ xs) [] x k h = absurd k
RootsIn-get p (y ∷ xs) ((z, r) ∷ out) _ (e, d, k) first = (r, rw (e, text_eq_refl y), d)
RootsIn-get p (y ∷ xs) ((z, r) ∷ out) x (e, d, k) (later h) = elim (Bool-cases (text_eq z x)) [
  | inl same ↦ (r, rw same, subst (λ v. Root p r v) (sym e ∙ text_eq→eq z x same) d)
  | inr other ↦ let (s, f, b) = RootsIn-get p xs out x k h in (s, rw other f, b)
]

split_first : {e f : Pair} {xs : List Pair} → Among e (f ∷ xs) → (f ≡ e) ⊎ Among e xs
split_first first = inl refl
split_first (later h) = inr h

onto-Among :
    (e : Pair) (es done : List Pair)
    → (Among e (onto es done) → Among e es ⊎ Among e done)
      × (Among e es ⊎ Among e done → Among e (onto es done))
onto-Among e [] done = ((λ h. inr h), λ h. elim h [ inl k ↦ no_pair k | inr k ↦ k ])
onto-Among e (f ∷ es) done =
    let (there, back) = onto-Among e es (f ∷ done) in
    let at_first =
      (λ (xs : List Pair) (same : f ≡ e). subst (λ g. Among e (g ∷ xs)) (sym same) first) in
    (
      (λ h. elim (there h) [
        | inl k ↦ inl (later k)
        | inr k ↦ elim (split_first k) [ inl same ↦ inl (at_first es same) | inr m ↦ inr m ]
      ]),
      λ h. elim h [
        | inl k ↦ elim (split_first k) [
          | inl same ↦ back (inr (at_first done same))
          | inr m ↦ back (inl m)
        ]
        | inr k ↦ back (inr (later k))
      ],
    )

Connected-map :
    {es fs : List Pair} {x y : Text}
    → ((e : Pair) → Among e es → Among e fs)
    → Connected es x y
    → Connected fs x y
Connected-map f Connected.alike = Connected.alike
Connected-map f (Connected.matched {x} {y} {by} h) = Connected.matched (f (x, y, by) h)
Connected-map f (Connected.back c) = Connected.back (Connected-map f c)
Connected-map f (Connected.on c d) = Connected.on (Connected-map f c) (Connected-map f d)

-- `cluster_customers` always succeeds, and two customer references have the same root in its answer
-- exactly when the pairs of equal e-mail address, of equal date of birth and mobile, and of equal
-- date of birth and matching names connect them.
pub cluster_customers-Connected :
    (rs : List Person)
    → (roots : List (Text × Text)) × (rules : List (Text × Rule)) × (cluster_customers rs
        ≡ some (roots, rules))
      × ((x y : Text)
          → Among x (refs_of rs)
          → Among y (refs_of rs)
          → (get roots x ≡ get roots y) ↔ Connected (matches rs) x y)
unfolding cluster_customers
cluster_customers-Connected rs =
    let xs = refs_of rs in
    let empty : IsFlat [] = record { own = λ w v h. no_entry w v h } in
    let (p, e, flat, kept, entered) = enter_all-IsFlat [] xs empty in
    let (v, f, part) =
      merge_all-IsPartition xs (matches rs) [] (record { parent = p; rule = [] })
        (matches-Within rs) (flat-IsPartition xs p flat entered) in
    let (out, g, all) =
      roots_of-RootsIn v.parent v.parent xs part.forest (λ s w d. d)
        (λ x h. let (r, d, c) = part.keyed x h in (r, d)) in
    rw (e, f, g)
      (
        out,
        _,
        refl,
        λ x y hx hy.
            let (r, er, dr) = RootsIn-get v.parent xs out x all hx in
            let (s, es, ds) = RootsIn-get v.parent xs out y all hy in
            let (forth, back) = IsPartition-Together part hx hy in
            (
              (λ same.
                  let e : r ≡ s = cc (same, er, es) in
                  Connected-map
                    (λ pair h. elim ((onto-Among pair (matches rs) []).0 h) [
                      | inl k ↦ k
                      | inr k ↦ no_pair k
                    ])
                    (forth (r, dr, subst (λ w. Root v.parent w y) (sym e) ds))),
              λ c.
                  let (t, dx, dy) =
                    back
                      (Connected-map (λ pair h. (onto-Among pair (matches rs) []).1 (inl h)) c) in
                  let e = Root-unique dr dx in let f = Root-unique ds dy in cc (e, f, er, es),
            ),
      )
