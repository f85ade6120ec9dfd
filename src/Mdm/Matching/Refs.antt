-- ===== src/Mdm/Matching/Refs.antt =====
-- Every pair that `cluster_customers` merges is of two of its customer references.
use insurance_claim_approval.Prelude.{
  inl, inr, Bool, Option, List, [], ◌∷◌, ◌++◌, map, Bool-cases, Option-cases, ◌==◌,
}
use insurance_claim_approval.Prelude.Text.{Text, text_eq}
use insurance_claim_approval.Mdm.Names.{names_match}
use insurance_claim_approval.Mdm.Clusters.{Rule}
use insurance_claim_approval.Mdm.Matching.{
  Person, Pair, append_to, group_by, star, named_with, named_alike, in_groups, matches, refs_of,
  same_dob_mobile, email_key, dob_mobile_key,
}
use insurance_claim_approval.Mdm.Matching.Connected.{Among, Within}

Within-append :
    (xs : List Text) (es fs : List Pair) → Within xs es → Within xs fs → Within xs (es ++ fs)
Within-append xs [] fs w v = v
Within-append xs ((a, b, by) ∷ es) fs (ha, hb, w) v = (ha, hb, Within-append xs es fs w v)

-- The references of the records are among `xs`.
abbrev Known : List Text → List Person → Type 0
Known xs [] = Unit
Known xs (r ∷ rs) = Among r.customer_ref xs × Known xs rs

abbrev KnownGroups : {K : Type 0} → List Text → List (K × List Person) → Type 0
KnownGroups xs [] = Unit
KnownGroups xs ((k, rs) ∷ groups) = Known xs rs × KnownGroups xs groups

Known-append :
    (xs : List Text) (rs : List Person) (r : Person)
    → Known xs rs
    → Among r.customer_ref xs
    → Known xs (rs ++ (r ∷ []))
Known-append xs [] r k h = (h, tt)
Known-append xs (s ∷ rs) r (hs, k) h = (hs, Known-append xs rs r k h)

append_to-Known :
    {K : Type 0} (same : K → K → Bool) (xs : List Text) (groups : List (K × List Person)) (key : K)
    (r : Person)
    → KnownGroups xs groups
    → Among r.customer_ref xs
    → KnownGroups xs (append_to same groups key r)
unfolding append_to
append_to-Known same xs [] key r g h = ((h, tt), tt)
append_to-Known same xs ((k, rs) ∷ groups) key r (kr, g) h = elim (Bool-cases (same k key)) [
  | inl e ↦ rw e (Known-append xs rs r kr h, g)
  | inr e ↦ rw e (kr, append_to-Known same xs groups key r g h)
]

group_by-Known :
    {K : Type 0} (same : K → K → Bool) (key : Person → Option K) (xs : List Text)
    (groups : List (K × List Person)) (rs : List Person)
    → KnownGroups xs groups
    → Known xs rs
    → KnownGroups xs (group_by same key groups rs)
unfolding group_by
group_by-Known same key xs groups [] g k = g
group_by-Known same key xs groups (r ∷ rs) g (h, k) = elim (Option-cases (key r)) [
  | inl e ↦ rw e (group_by-Known same key xs groups rs g k)
  | inr (v, e) ↦ rw e (
      group_by-Known same key xs (append_to same groups v r) rs
        (append_to-Known same xs groups v r g h) k)
]

star-Within : (xs : List Text) (by : Rule) (rs : List Person) → Known xs rs → Within xs (star by rs)
unfolding star
star-Within xs by [] k = tt
star-Within xs by (r ∷ rs) (h, k) = others rs k
  where
    others :
        (os : List Person)
        → Known xs os
        → Within xs (map (λ o. (r.customer_ref, o.customer_ref, by)) os)
    others [] l = tt
    others (o ∷ os) (ho, l) = (h, ho, others os l)

named_with-Within :
    (xs : List Text) (a : Person) (rs : List Person)
    → Among a.customer_ref xs
    → Known xs rs
    → Within xs (named_with a rs)
unfolding named_with
named_with-Within xs a [] h k = tt
named_with-Within xs a (b ∷ rs) h (hb, k) =
    elim (Bool-cases (names_match a.name_norm b.name_norm)) [
      | inl e ↦ rw e (h, hb, named_with-Within xs a rs h k)
      | inr e ↦ rw e (named_with-Within xs a rs h k)
    ]

named_alike-Within : (xs : List Text) (rs : List Person) → Known xs rs → Within xs (named_alike rs)
unfolding named_alike
named_alike-Within xs [] k = tt
named_alike-Within xs (a ∷ rs) (h, k) =
    Within-append xs (named_with a rs) (named_alike rs) (named_with-Within xs a rs h k)
      (named_alike-Within xs rs k)

in_groups-Within :
    {K : Type 0} (xs : List Text) (pairs : List Person → List Pair)
    → ((rs : List Person) → Known xs rs → Within xs (pairs rs))
    → (groups : List (K × List Person)) → KnownGroups xs groups
    → Within xs (in_groups pairs groups)
unfolding in_groups
in_groups-Within xs pairs f [] g = tt
in_groups-Within xs pairs f ((k, rs) ∷ groups) (kr, g) =
    Within-append xs (pairs rs) (in_groups pairs groups) (f rs kr)
      (in_groups-Within xs pairs f groups g)

Known-later : (x : Text) (xs : List Text) (rs : List Person) → Known xs rs → Known (x ∷ xs) rs
Known-later x xs [] k = tt
Known-later x xs (r ∷ rs) (h, k) = (Among.later h, Known-later x xs rs k)

refs_of-Known : (rs : List Person) → Known (refs_of rs) rs
refs_of-Known [] = tt
refs_of-Known (r ∷ rs) =
    (Among.first, Known-later r.customer_ref (refs_of rs) rs (refs_of-Known rs))

pub matches-Within : (rs : List Person) → Within (refs_of rs) (matches rs)
unfolding matches
matches-Within rs =
    let xs = refs_of rs in
    let k = refs_of-Known rs in
    let emails =
      in_groups-Within xs (star Rule.email) (star-Within xs Rule.email)
        (group_by text_eq email_key [] rs) (group_by-Known text_eq email_key xs [] rs tt k) in
    let mobiles =
      in_groups-Within xs (star Rule.dob_mobile) (star-Within xs Rule.dob_mobile)
        (group_by same_dob_mobile dob_mobile_key [] rs)
        (group_by-Known same_dob_mobile dob_mobile_key xs [] rs tt k) in
    let names =
      in_groups-Within xs named_alike (named_alike-Within xs) (group_by ◌==◌ (λ r. r.dob) [] rs)
        (group_by-Known ◌==◌ (λ r. r.dob) xs [] rs tt k) in
    Within-append xs _ _ emails (Within-append xs _ _ mobiles names)
