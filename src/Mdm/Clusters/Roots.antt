-- ===== src/Mdm/Clusters/Roots.antt =====
-- The forest of the parents: every key has a root, and the loop of `find` reaches it.
use mathlib.Core.Path.{subst}
use insurance_claim_approval.Prelude.{
  ℕ, zero, suc, ◌≤◌, ◌<◌, ◌≡◌, refl, sym, ◌∙◌, ◌⊎◌, inl, inr, true, false, Option, none, some, List,
  [], ◌∷◌, arith, length, count_if, Bool-cases, Option-cases,
}
use insurance_claim_approval.Prelude.Text.{Text, text_eq, text_lt}
use insurance_claim_approval.Prelude.Order.{
  text_eq_refl, text_eq_comm, text_eq→eq, text_lt_irrefl, text_lt_trans,
}
use insurance_claim_approval.Mdm.Clusters.{get, set, Parents, set_default, halve, climb, find}

module _ {ℓ} {A : Type ℓ} where
  pub get-set_self : (d : List (Text × A)) (k : Text) (v : A) → get (set d k v) k ≡ some v
  unfolding get set
  get-set_self [] k v = rw (text_eq_refl k)
  get-set_self ((j, u) ∷ d) k v = elim (Bool-cases (text_eq j k)) [
    | inl same ↦ rw (same, same)
    | inr other ↦ rw (other, other) (get-set_self d k v)
  ]

  pub get-set_ne :
      (d : List (Text × A)) (k : Text) (v : A) (w : Text)
      → text_eq k w ≡ false
      → get (set d k v) w ≡ get d w
  unfolding get set
  get-set_ne [] k v w h = rw h
  get-set_ne ((j, u) ∷ d) k v w h = elim (Bool-cases (text_eq j k)) [
    | inl same ↦
        let differs = subst (λ i. text_eq i w ≡ false) (sym (text_eq→eq j k same)) h in
        rw (same, differs)
    | inr other ↦ elim (Bool-cases (text_eq j w)) [
      | inl here ↦ rw (other, here)
      | inr there ↦ rw (other, there) (get-set_ne d k v w h)
    ]
  ]

abbrev pub HasKey : Parents → Text → Type 0
HasKey p x = (y : Text) × (get p x ≡ some y)

pub record IsForest (p : Parents) : Type 0 where
  pub down : (x y : Text) → get p x ≡ some y → (text_lt y x ≡ true) ⊎ (y ≡ x)
  pub closed : (x y : Text) → get p x ≡ some y → HasKey p y

-- `r` is the root that the parents of a key lead to.
pub data Root (p : Parents) (r : Text) : Text → Type 0 where
  here : get p r ≡ some r → Root p r r
  above : {x y : Text} → get p x ≡ some y → Root p r y → Root p r x

same_value : {A : Type 0} {o : Option A} {a b : A} → o ≡ some a → o ≡ some b → a ≡ b
same_value h k = cc (h, k)

pub Root-own : {p : Parents} {r x : Text} → Root p r x → get p r ≡ some r
Root-own (Root.here h) = h
Root-own (Root.above h d) = Root-own d

-- What the parent of a root leads to is the root.
Root-parent : {p : Parents} {r x y : Text} → get p x ≡ some y → Root p r x → Root p r y
Root-parent {p} {r} e (Root.here h) = subst (λ w. Root p r w) (same_value h e) (Root.here h)
Root-parent {p} {r} e (Root.above h d) = subst (λ w. Root p r w) (same_value h e) d

Root-at-Root : {p : Parents} {s x : Text} → Root p s x → get p x ≡ some x → x ≡ s
Root-at-Root (Root.here h) k = refl
Root-at-Root {p} (Root.above {x} {y} h d) k =
    let same : x ≡ y = same_value k h in
    same ∙ Root-at-Root d (subst (λ w. get p w ≡ some w) same k)

pub Root-unique : {p : Parents} {r s x : Text} → Root p r x → Root p s x → r ≡ s
Root-unique (Root.here h) e = Root-at-Root e h
Root-unique (Root.above h d) e = Root-unique d (Root-parent h e)

pub Root-mono :
    {p q : Parents} {r x : Text}
    → ((w y : Text) → get p w ≡ some y → get q w ≡ some y)
    → Root p r x
    → Root q r x
Root-mono {r} f (Root.here h) = Root.here (f r r h)
Root-mono f (Root.above {x} {y} h d) = Root.above (f x y h) (Root-mono f d)

pub set-HasKey : (p : Parents) (x z w : Text) → HasKey p w → HasKey (set p x z) w
set-HasKey p x z w (y, h) = elim (Bool-cases (text_eq x w)) [
  | inl same ↦
      (z, subst (λ v. get (set p x z) v ≡ some z) (text_eq→eq x w same) (get-set_self p x z))
  | inr other ↦ (y, get-set_ne p x z w other ∙ h)
]

-- The parent of `x` becomes the parent of its parent.
module _ (p : Parents) (x y z : Text) (forest : IsForest p) (hx : get p x ≡ some y)
    (hy : get p y ≡ some z) (climbs : text_eq y x ≡ false) where
  below_self : text_lt y x ≡ true
  below_self = elim (forest.down x y hx) [
    | inl h ↦ h
    | inr same ↦ let e = text_eq_refl x in cc (climbs, same, e)
  ]

  pub grandparent_below : text_lt z x ≡ true
  grandparent_below = elim (forest.down y z hy) [
    | inl h ↦ text_lt_trans z y x h below_self
    | inr same ↦ rw same below_self
  ]

  abbrev halved : Parents
  halved = set p x z

  at_x : (w : Text) → text_eq x w ≡ true → get halved w ≡ some z
  at_x w h = subst (λ v. get (set p x z) v ≡ some z) (text_eq→eq x w h) (get-set_self p x z)

  halved-Root : {r w : Text} → Root p r w → Root halved r w
  halved-Root {r} (Root.here h) = elim (Bool-cases (text_eq x r)) [
    | inl same ↦ let e = text_eq→eq x r same in cc (e, h, hx, climbs)
    | inr other ↦ Root.here (get-set_ne p x z r other ∙ h)
  ]
  halved-Root {r} (Root.above {x = w} {y = v} h d) = elim (Bool-cases (text_eq x w)) [
    | inl same ↦
        let e = text_eq→eq x w same in
        let to_y : v ≡ y = cc (e, h, hx) in
        let apart : text_eq x y ≡ false = text_eq_comm x y ∙ climbs in
        let on = subst (λ u. Root (set p x z) r u) to_y (halved-Root d) in
        Root.above (at_x w same) (Root-parent (get-set_ne p x z y apart ∙ hy) on)
    | inr other ↦ Root.above (get-set_ne p x z w other ∙ h) (halved-Root d)
  ]

  halved-IsForest : IsForest halved
  halved-IsForest = record {
    down = λ w v h. elim (Bool-cases (text_eq x w)) [
      | inl same ↦
          let e = text_eq→eq x w same in
          let lower = grandparent_below in
          let to_z = at_x w same in let v_z : v ≡ z = same_value h to_z in inl (cc (e, v_z, lower))
      | inr other ↦ forest.down w v (sym (get-set_ne p x z w other) ∙ h)
    ];
    closed = λ w v h. set-HasKey p x z v (elim (Bool-cases (text_eq x w)) [
      | inl same ↦ subst (λ u. HasKey p u) (same_value (at_x w same) h) (forest.closed y z hy)
      | inr other ↦ forest.closed w v (sym (get-set_ne p x z w other) ∙ h)
    ]);
  }

-- The keys smaller than `x`.
abbrev before : Parents → Text → ℕ
before p x = count_if (λ (k, v). text_lt k x) p

before-le : (p : Parents) (x : Text) → before p x ≤ length p
before-le [] x = omega arith
before-le ((k, v) ∷ p) x = let rest = before-le p x in ground arith

before_mono : (p : Parents) (z x : Text) → text_lt z x ≡ true → before p z ≤ before p x
before_mono [] z x h = omega arith
before_mono ((k, v) ∷ p) z x h =
    let rest = before_mono p z x h in let between = text_lt_trans k z x in ground arith

-- A smaller key has fewer keys before it.
before-lt : (p : Parents) (z x : Text) → text_lt z x ≡ true → HasKey p z → before p z < before p x
unfolding get
before-lt [] z x h (y, k) = ground arith
before-lt ((j, v) ∷ p) z x h (y, k) = elim (Bool-cases (text_eq j z)) [
  | inl same ↦
      let e = text_eq→eq j z same in
      let loose = text_lt_irrefl z in
      let rest = before_mono p z x h in rw (e, loose, h) (ground arith)
  | inr other ↦
      let rest = before-lt p z x h (y, rw other at k) in
      let between = text_lt_trans j z x in ground arith
]

before-set : (p : Parents) (x z w : Text) → HasKey p x → before (set p x z) w ≡ before p w
unfolding get set
before-set [] x z w (y, k) = ground arith
before-set ((j, v) ∷ p) x z w (y, k) = elim (Bool-cases (text_eq j x)) [
  | inl same ↦ rw same
  | inr other ↦ let rest = before-set p x z w (y, rw other at k) in rw (other, rest)
]

-- What a search for `x` has found.
pub record IsFound (p : Parents) (x r : Text) (q : Parents) : Type 0 where
  pub root : Root p r x
  pub forest : IsForest q
  pub keeps : (s w : Text) → Root p s w → Root q s w

abbrev pub FoundBy : Option (Text × Parents) → Parents → Text → Type 0
FoundBy o p x = (r : Text) × (q : Parents) × (o ≡ some (r, q)) × IsFound p x r q

Root-exists :
    (n : ℕ) (p : Parents) (x : Text)
    → IsForest p
    → HasKey p x
    → before p x < n
    → (r : Text) × Root p r x
Root-exists zero p x forest key h = absurd (omega arith)
Root-exists (suc n) p x forest (y, hx) h = elim (forest.down x y hx) [
  | inl less ↦
      let key = forest.closed x y hx in
      let lower = before-lt p y x less key in
      let (r, d) = Root-exists n p y forest key (omega arith) in (r, Root.above hx d)
  | inr same ↦ (x, Root.here (subst (λ w. get p x ≡ some w) same hx))
]

climb-FoundBy :
    (n : ℕ) (p : Parents) (x : Text)
    → IsForest p
    → HasKey p x
    → before p x < n
    → FoundBy (climb n p x) p x
unfolding climb halve
climb-FoundBy zero p x forest key h = absurd (omega arith)
climb-FoundBy (suc n) p x forest (y, hx) h =
    let (z, hy) = forest.closed x y hx in
    elim (Bool-cases (text_eq y x)) [
      | inl same ↦
          let e = text_eq→eq y x same in
          rw (hx, hy, same)
            (
              x,
              p,
              refl,
              record {
                root = Root.here (subst (λ w. get p x ≡ some w) e hx);
                forest = forest;
                keeps = λ s w d. d;
              },
            )
      | inr climbs ↦
          let key = forest.closed y z hy in
          let less = grandparent_below p x y z forest hx hy climbs in
          let lower = before-lt p z x less key in
          let same_count = before-set p x z z (y, hx) in
          let after = halved-IsForest p x y z forest hx hy climbs in
          let keeps =
            (λ (s w : Text) (b : Root p s w). halved-Root p x y z forest hx hy climbs b) in
          let (r, q, e, found) =
            climb-FoundBy n (set p x z) z after (set-HasKey p x z z key) (omega arith) in
          let (s, d) = Root-exists (suc n) p x forest (y, hx) h in
          let agree = Root-unique (keeps s x d) (Root.above (get-set_self p x z) found.root) in
          rw (hx, hy, climbs)
            (
              r,
              q,
              e,
              record {
                root = subst (λ w. Root p w x) agree d;
                forest = found.forest;
                keeps = λ t w b. found.keeps t w (keeps t w b);
              },
            )
    ]

-- A new key is its own root.
pub new-IsForest : (p : Parents) (x : Text) → get p x ≡ none → IsForest p → IsForest (set p x x)
new-IsForest p x new forest = record {
  down = λ w v h. elim (Bool-cases (text_eq x w)) [
    | inl same ↦ let e = text_eq→eq x w same in inr (cc (e, h, get-set_self p x x))
    | inr other ↦ forest.down w v (sym (get-set_ne p x x w other) ∙ h)
  ];
  closed = λ w v h. elim (Bool-cases (text_eq x w)) [
    | inl same ↦
        let e = text_eq→eq x w same in
        let to_x : x ≡ v = cc (e, h, get-set_self p x x) in
        (x, subst (λ u. get (set p x x) u ≡ some x) to_x (get-set_self p x x))
    | inr other ↦ set-HasKey p x x v (forest.closed w v (sym (get-set_ne p x x w other) ∙ h))
  ];
}

set_default-IsForest : (p : Parents) (x : Text) → IsForest p → IsForest (set_default p x)
unfolding set_default
set_default-IsForest p x forest = elim (Option-cases (get p x)) [
  | inl new ↦ rw (new, set_default) (new-IsForest p x new forest)
  | inr (y, h) ↦ rw (h, set_default) forest
]

pub set_default-Root : (p : Parents) (x s w : Text) → Root p s w → Root (set_default p x) s w
unfolding set_default
set_default-Root p x s w d = elim (Option-cases (get p x)) [
  | inl new ↦
      rw (new, set_default)
        (Root-mono
          (λ v y h. elim (Bool-cases (text_eq x v)) [
            | inl same ↦ let e = text_eq→eq x v same in cc (e, h, new)
            | inr other ↦ get-set_ne p x x v other ∙ h
          ])
          d)
  | inr (y, h) ↦ rw (h, set_default) d
]

set_default-HasKey : (p : Parents) (x : Text) → HasKey (set_default p x) x
unfolding set_default
set_default-HasKey p x = elim (Option-cases (get p x)) [
  | inl new ↦ rw (new, set_default) (x, get-set_self p x x)
  | inr (y, h) ↦ rw (h, set_default) (y, h)
]

-- In a forest, `find` ends within its fuel, at the root of the key that it is given (a new key is
-- its own root); the parents are still a forest, and every key keeps its root although the paths
-- were halved.
pub find-FoundBy : (p : Parents) (x : Text) → IsForest p → FoundBy (find p x) (set_default p x) x
unfolding find
find-FoundBy p x forest =
    let q = set_default p x in
    let few = before-le q x in
    climb-FoundBy (suc (length q)) q x (set_default-IsForest p x forest) (set_default-HasKey p x)
      (omega arith)
