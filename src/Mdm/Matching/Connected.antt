-- ===== src/Mdm/Matching/Connected.antt =====
-- The merged classes are the classes of the equivalence that the pairs generate.
use mathlib.Core.Path.{subst}
use insurance_claim_approval.Prelude.{
  ◌≡◌, refl, sym, ◌∙◌, ◌⊎◌, inl, inr, ◌↔◌, some, List, [], ◌∷◌, Bool-cases,
}
use insurance_claim_approval.Prelude.Text.{Text, text_eq}
use insurance_claim_approval.Prelude.Order.{
  text_eq_refl, text_eq→eq, text_lt_irrefl, text_lt_total, text_lt_asymm, text_lt→ne,
}
use insurance_claim_approval.Mdm.Clusters.{Parents, Rule, Partition}
use insurance_claim_approval.Mdm.Clusters.Roots.{IsForest, Root, Root-unique}
use insurance_claim_approval.Mdm.Clusters.Merge.{joined, IsMerged, union-MergedBy}
use insurance_claim_approval.Mdm.Matching.{Pair, merge_all}

pub data Among {A : Type 0} (a : A) : List A → Type 0 where
  first : {xs : List A} → Among a (a ∷ xs)
  later : {x : A} {xs : List A} → Among a xs → Among a (x ∷ xs)

-- The least equivalence that holds of every pair.
pub data Connected (es : List Pair) : Text → Text → Type 0 where
  alike : {x : Text} → Connected es x x
  matched : {x y : Text} {by : Rule} → Among (x, y, by) es → Connected es x y
  back : {x y : Text} → Connected es x y → Connected es y x
  on : {x y z : Text} → Connected es x y → Connected es y z → Connected es x z

Connected-more :
    {es : List Pair} {e : Pair} {x y : Text} → Connected es x y → Connected (e ∷ es) x y
Connected-more Connected.alike = Connected.alike
Connected-more (Connected.matched h) = Connected.matched (Among.later h)
Connected-more (Connected.back c) = Connected.back (Connected-more c)
Connected-more (Connected.on c d) = Connected.on (Connected-more c) (Connected-more d)

-- The two keys have one root.
abbrev pub Together : Parents → Text → Text → Type 0
Together p x y = (r : Text) × Root p r x × Root p r y

-- The classes of the keys `xs` are those that `es` generate.
pub record IsPartition (xs : List Text) (es : List Pair) (p : Parents) : Type 0 where
  pub forest : IsForest p
  pub keyed : (x : Text) → Among x xs → (r : Text) × Root p r x × Connected es x r
  pub merged : (a b : Text) (by : Rule) → Among (a, b, by) es → Together p a b

joined-Connected :
    {es : List Pair} (ra rb r : Text) → Connected es ra rb → Connected es r (joined ra rb r)
unfolding joined
joined-Connected {es} ra rb r c = elim (text_lt_total ra rb) [
  | inl less ↦
      rw (less, text_lt_asymm ra rb less)
        (elim (Bool-cases (text_eq r rb)) [
          | inl same ↦ rw (same, text_eq→eq r rb same) (Connected.back c)
          | inr other ↦ rw other Connected.alike
        ])
  | inr (inl more) ↦
      rw (more, text_lt_asymm rb ra more)
        (elim (Bool-cases (text_eq r ra)) [
          | inl same ↦ rw (same, text_eq→eq r ra same) c
          | inr other ↦ rw other Connected.alike
        ])
  | inr (inr same) ↦
      rw (same, text_lt_irrefl rb)
        (elim (Bool-cases (text_eq r rb)) [
          | inl e ↦ rw (e, text_eq→eq r rb e) Connected.alike
          | inr e ↦ rw e Connected.alike
        ])
]

joined_both : (ra rb : Text) → joined ra rb ra ≡ joined ra rb rb
unfolding joined
joined_both ra rb = elim (text_lt_total ra rb) [
  | inl less ↦ rw (less, text_lt_asymm ra rb less, text_lt→ne ra rb less, text_eq_refl rb)
  | inr (inl more) ↦ rw (more, text_lt_asymm rb ra more, text_lt→ne rb ra more, text_eq_refl ra)
  | inr (inr same) ↦ rw same
]

merged_pairs :
    (xs : List Text) (es : List Pair) (a b ra rb : Text) (by : Rule) (p q : Parents)
    → IsPartition xs es p
    → Root p ra a
    → Root p rb b
    → IsMerged p ra rb q
    → (c d : Text) (rule : Rule) → Among (c, d, rule) ((a, b, by) ∷ es)
    → Together q c d
merged_pairs xs es a b ra rb by p q part da db m c d rule Among.first = (
  joined ra rb ra,
  m.roots ra a da,
  subst (λ v. Root q v b) (sym (joined_both ra rb)) (m.roots rb b db),
)
merged_pairs xs es a b ra rb by p q part da db m c d rule (Among.later h) =
    let (r, dc, dd) = part.merged c d rule h in (joined ra rb r, m.roots r c dc, m.roots r d dd)

IsMerged-IsPartition :
    (xs : List Text) (es : List Pair) (a b ra rb : Text) (by : Rule) (p q : Parents)
    → IsPartition xs es p
    → Root p ra a
    → Root p rb b
    → Connected es a ra
    → Connected es b rb
    → IsMerged p ra rb q
    → IsPartition xs ((a, b, by) ∷ es) q
IsMerged-IsPartition xs es a b ra rb by p q part da db ca cb m = record {
  forest = m.forest;
  keyed = λ x h.
      let (r, d, c) = part.keyed x h in
      let bridge =
        Connected.on (Connected.back (Connected-more ca))
          (Connected.on (Connected.matched Among.first) (Connected-more cb)) in
      (
        joined ra rb r,
        m.roots r x d,
        Connected.on (Connected-more c) (joined-Connected ra rb r bridge),
      );
  merged = merged_pairs xs es a b ra rb by p q part da db m;
}

-- Every pair is of two of the keys.
abbrev pub Within : List Text → List Pair → Type 0
Within xs [] = Unit
Within xs ((a, b, by) ∷ es) = Among a xs × Among b xs × Within xs es

-- The pairs in the order in which they have been merged, the last first.
abbrev pub onto : List Pair → List Pair → List Pair
onto [] done = done
onto (e ∷ es) done = onto es (e ∷ done)

pub merge_all-IsPartition :
    (xs : List Text) (es done : List Pair) (u : Partition)
    → Within xs es
    → IsPartition xs done u.parent
    → (v : Partition) × (merge_all u es ≡ some v) × IsPartition xs (onto es done) v.parent
unfolding merge_all
merge_all-IsPartition xs [] done u w part = (u, refl, part)
merge_all-IsPartition xs ((a, b, by) ∷ es) done u (wa, wb, w) part =
    let (ra, da, ca) = part.keyed a wa in
    let (rb, db, cb) = part.keyed b wb in
    let (v, e, m) = union-MergedBy u a b ra rb by part.forest da db in
    let next = IsMerged-IsPartition xs done a b ra rb by u.parent v.parent part da db ca cb m in
    rw e (merge_all-IsPartition xs es ((a, b, by) ∷ done) v w next)

-- Two connected keys are together, unless they are the same text.
Connected-Together :
    {xs : List Text} {es : List Pair} {p : Parents} {x y : Text}
    → IsPartition xs es p
    → Connected es x y
    → (x ≡ y) ⊎ Together p x y
Connected-Together part Connected.alike = inl refl
Connected-Together part (Connected.matched {x} {y} {by} h) = inr (part.merged x y by h)
Connected-Together part (Connected.back c) = elim (Connected-Together part c) [
  | inl e ↦ inl (sym e)
  | inr (r, d, e) ↦ inr (r, e, d)
]
Connected-Together {p} part (Connected.on {x} {y} {z} c d) = elim (Connected-Together part c) [
  | inl e ↦ subst (λ v. (v ≡ z) ⊎ Together p v z) (sym e) (Connected-Together part d)
  | inr (r, dx, dy) ↦ elim (Connected-Together part d) [
    | inl e ↦ inr (r, dx, subst (λ v. Root p r v) e dy)
    | inr (s, ey, ez) ↦ inr (r, dx, subst (λ v. Root p v z) (Root-unique ey dy) ez)
  ]
]

-- Two keys have the same root exactly when the pairs connect them.
pub IsPartition-Together :
    {xs : List Text} {es : List Pair} {p : Parents} {x y : Text}
    → IsPartition xs es p
    → Among x xs
    → Among y xs
    → Together p x y ↔ Connected es x y
IsPartition-Together {es} {p} {x} {y} part hx hy =
    let (r, dx, cx) = part.keyed x hx in
    let (s, dy, cy) = part.keyed y hy in
    (
      (λ (t, ex, ey).
          let same : r ≡ s = Root-unique dx ex ∙ Root-unique ey dy in
          Connected.on cx (Connected.back (subst (λ v. Connected es y v) (sym same) cy))),
      λ c. elim (Connected-Together part c) [
        | inl e ↦ (r, dx, subst (λ v. Root p r v) e dx)
        | inr t ↦ t
      ],
    )
