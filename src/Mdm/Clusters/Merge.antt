-- ===== src/Mdm/Clusters/Merge.antt =====
-- `union` merges two classes, and leaves the others as they are.
use mathlib.Core.Path.{subst}
use insurance_claim_approval.Prelude.{
  ◌≡◌, refl, sym, ◌∙◌, inl, inr, true, false, Option, some, if◌then◌else◌, Bool-cases,
}
use insurance_claim_approval.Prelude.Text.{Text, text_eq, text_lt}
use insurance_claim_approval.Prelude.Order.{
  text_eq_refl, text_eq_comm, text_eq→eq, text_lt_irrefl, text_lt_total, text_lt_asymm, text_lt→ne,
}
use insurance_claim_approval.Mdm.Clusters.{get, set, Parents, Rule, Partition, union}
use insurance_claim_approval.Mdm.Clusters.Roots.{
  get-set_self, get-set_ne, HasKey, IsForest, Root, Root-own, Root-unique, set_default-Root,
  set-HasKey, find-FoundBy,
}

abbrev pub smaller : Text → Text → Text
smaller a b = if text_lt b a then b else a

abbrev pub larger : Text → Text → Text
larger a b = if text_lt a b then b else a

-- The root of a key of root `s`, once the classes of the roots `ra` and `rb` are one.
unfoldable pub joined : Text → Text → Text → Text
joined ra rb s = if text_eq s (larger ra rb) then smaller ra rb else s

-- The root `large` becomes a child of the root `small`.
module _ (p : Parents) (small large : Text) (forest : IsForest p) (hs : get p small ≡ some small)
    (hl : get p large ≡ some large) (less : text_lt small large ≡ true) where
  abbrev hung : Parents
  hung = set p large small

  apart : text_eq large small ≡ false
  apart = elim (Bool-cases (text_eq large small)) [
    | inl same ↦ let e = text_eq→eq large small same in cc (e, less, text_lt_irrefl small)
    | inr other ↦ other
  ]

  small-Root : Root hung small small
  small-Root = Root.here (get-set_ne p large small small apart ∙ hs)

  large-Root : Root hung small large
  large-Root = Root.above (get-set_self p large small) small-Root

  hung-Root : {s w : Text} → Root p s w → Root hung (if text_eq s large then small else s) w
  hung-Root {s} (Root.here h) = elim (Bool-cases (text_eq s large)) [
    | inl same ↦ rw (same, text_eq→eq s large same) large-Root
    | inr other ↦
        rw other (Root.here (get-set_ne p large small s (text_eq_comm large s ∙ other) ∙ h))
  ]
  hung-Root {s} (Root.above {x = w} {y = v} h d) = elim (Bool-cases (text_eq large w)) [
    | inl same ↦
        let e = text_eq→eq large w same in
        let to_w : v ≡ w = cc (e, h, hl) in
        subst (λ u. Root (set p large small) (if text_eq s large then small else s) u) to_w
          (hung-Root d)
    | inr other ↦ Root.above (get-set_ne p large small w other ∙ h) (hung-Root d)
  ]

  hung-IsForest : IsForest hung
  hung-IsForest = record {
    down = λ w v h. elim (Bool-cases (text_eq large w)) [
      | inl same ↦
          let e = text_eq→eq large w same in
          let to_small : v ≡ small = cc (e, h, get-set_self p large small) in
          inl (cc (e, to_small, less))
      | inr other ↦ forest.down w v (sym (get-set_ne p large small w other) ∙ h)
    ];
    closed = λ w v h. elim (Bool-cases (text_eq large w)) [
      | inl same ↦
          let e = text_eq→eq large w same in
          let to_small : small ≡ v = cc (e, h, get-set_self p large small) in
          subst (λ u. HasKey (set p large small) u) to_small
            (set-HasKey p large small small (small, hs))
      | inr other ↦
          set-HasKey p large small v
            (forest.closed w v (sym (get-set_ne p large small w other) ∙ h))
    ];
  }

-- The parents after `union`.
pub record IsMerged (p : Parents) (ra rb : Text) (q : Parents) : Type 0 where
  pub forest : IsForest q
  pub roots : (s w : Text) → Root p s w → Root q (joined ra rb s) w

abbrev pub MergedBy : Option Partition → Parents → Text → Text → Type 0
MergedBy o p ra rb = (v : Partition) × (o ≡ some v) × IsMerged p ra rb v.parent

link : Parents → Text → Text → Parents
link p ra rb = if text_eq ra rb then p else set p (larger ra rb) (smaller ra rb)

link-IsMerged :
    (p : Parents) (ra rb : Text)
    → IsForest p
    → get p ra ≡ some ra
    → get p rb ≡ some rb
    → IsMerged p ra rb (link p ra rb)
unfolding link joined
link-IsMerged p ra rb forest ha hb = elim (text_lt_total ra rb) [
  | inl less ↦
      rw (less, text_lt_asymm ra rb less, text_lt→ne ra rb less)
        (record {
          forest = hung-IsForest p ra rb forest ha hb less;
          roots = λ s w d.
              rw (less, text_lt_asymm ra rb less, joined) (hung-Root p ra rb forest ha hb less d);
        })
  | inr (inl more) ↦
      let differ = text_eq_comm ra rb ∙ text_lt→ne rb ra more in
      rw (more, text_lt_asymm rb ra more, differ)
        (record {
          forest = hung-IsForest p rb ra forest hb ha more;
          roots = λ s w d.
              rw (more, text_lt_asymm rb ra more, joined) (hung-Root p rb ra forest hb ha more d);
        })
  | inr (inr same) ↦
      rw (same, text_lt_irrefl rb, text_eq_refl rb)
        (record {
          forest = forest;
          roots = λ s w d. elim (Bool-cases (text_eq s rb)) [
            | inl e ↦
                rw (text_lt_irrefl rb, joined, e) (subst (λ v. Root p v w) (text_eq→eq s rb e) d)
            | inr e ↦ rw (text_lt_irrefl rb, joined, e) d
          ];
        })
]

-- Merging two keys of a forest, whose roots are `ra` and `rb`, succeeds: there is a forest again in
-- which the keys of the two classes have the smaller of the two roots, and the others keep theirs.
pub union-MergedBy :
    (u : Partition) (a b ra rb : Text) (by : Rule)
    → IsForest u.parent
    → Root u.parent ra a
    → Root u.parent rb b
    → MergedBy (union u a b by) u.parent ra rb
unfolding union link
union-MergedBy u a b ra rb by forest da db =
    let (r, p, e, found) = find-FoundBy u.parent a forest in
    let (t, q, f, found_b) = find-FoundBy p b found.forest in
    let first = Root-unique found.root (set_default-Root u.parent a ra a da) in
    let kept = (λ (s w : Text) (d : Root u.parent s w).
      found.keeps s w (set_default-Root u.parent a s w d)) in
    let second = Root-unique found_b.root (set_default-Root p b rb b (kept rb b db)) in
    let keeps = (λ (s w : Text) (d : Root u.parent s w).
      found_b.keeps s w (set_default-Root p b s w (kept s w d))) in
    let ha = subst (λ v. get q v ≡ some v) (sym first) (Root-own (keeps ra a da)) in
    let hb = subst (λ v. get q v ≡ some v) (sym second) (Root-own (keeps rb b db)) in
    let linked = link-IsMerged q r t found_b.forest ha hb in
    let merged : IsMerged u.parent r t (link q r t) = record {
      forest = linked.forest;
      roots = λ s w d. linked.roots s w (keeps s w d);
    } in
    rw (e, f, ← first, ← second)
      (elim (Bool-cases (text_eq r t)) [
        | inl same ↦ rw same (_, refl, rw (same, link) at merged)
        | inr other ↦ rw other (_, refl, rw (other, link) at merged)
      ])
