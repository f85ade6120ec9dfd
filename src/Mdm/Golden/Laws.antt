-- ===== src/Mdm/Golden/Laws.antt =====
-- What the surviving values of a cluster are.
use insurance_claim_approval.Prelude.{
  ℕ, ◌≤◌, ◌≡◌, refl, inl, inr, Bool, true, false, Option, some, List, [], ◌∷◌, arith, length,
  or_else, Bool-cases, if◌then◌else◌,
}
use insurance_claim_approval.Prelude.Text.{Text}
use insurance_claim_approval.Mdm.Matching.Connected.{Among, first, later}
use insurance_claim_approval.Mdm.Golden.Kept.{
  IsEarliest, NumbersOf, earliest-IsEarliest, held-NumbersOf,
}
use insurance_claim_approval.Mdm.Golden.{
  HolderPolicy, Survivor, max_by, changed_at, is_later, is_full, full_names, count, is_commoner,
  common_name, survive,
}

-- Whatever the order of two elements says, the measure agrees with it.
module _ {A : Type 0} (higher : A → A → Bool) (f : A → ℕ)
    (up : (a b : A) → higher b a ≡ true → f a ≤ f b)
    (down : (a b : A) → higher b a ≡ false → f b ≤ f a) where
  max_by-ge : (a : A) (bs : List A) → f a ≤ f (max_by higher a bs)
  unfolding max_by
  max_by-ge a [] = omega arith
  max_by-ge a (b ∷ bs) = elim (Bool-cases (higher b a)) [
    | inl e ↦ rw e (omega (arith, up a b e, max_by-ge b bs))
    | inr e ↦ rw e (max_by-ge a bs)
  ]

  max_by-later : (b : A) (bs : List A) → Among b bs → (a : A) → f b ≤ f (max_by higher a bs)
  unfolding max_by
  max_by-later b [] m a = elim m [ ]
  max_by-later b (_ ∷ bs) first a = elim (Bool-cases (higher b a)) [
    | inl e ↦ rw e (max_by-ge b bs)
    | inr e ↦ rw e (omega (arith, down a b e, max_by-ge a bs))
  ]
  max_by-later b (c ∷ bs) (later m) a = max_by-later b bs m (if higher c a then c else a)

  max_by-all : (b a : A) (bs : List A) → Among b (a ∷ bs) → f b ≤ f (max_by higher a bs)
  max_by-all _ a bs first = max_by-ge a bs
  max_by-all b a bs (later m) = max_by-later b bs m a

skip : {A : Type 0} {x a b : A} {bs : List A} → Among x (a ∷ bs) → Among x (a ∷ b ∷ bs)
skip first = first
skip (later m) = later (later m)

max_by-Among :
    {A : Type 0} (higher : A → A → Bool) (a : A) (bs : List A) → Among (max_by higher a bs) (a ∷ bs)
unfolding max_by
max_by-Among higher a [] = first
max_by-Among higher a (b ∷ bs) = elim (Bool-cases (higher b a)) [
  | inl e ↦ rw e (later (max_by-Among higher b bs))
  | inr e ↦ rw e (skip (max_by-Among higher a bs))
]

latest-changed :
    (p q : HolderPolicy) (ps : List HolderPolicy)
    → Among q (p ∷ ps)
    → changed_at q ≤ changed_at (max_by is_later p ps)
unfolding is_later
latest-changed p q ps =
    max_by-all is_later changed_at (λ a b h. ground arith) (λ a b h. ground arith) q p ps

commonest-count :
    (all : List Text) (n m : Text) (ns : List Text)
    → Among m (n ∷ ns)
    → count m all ≤ count (max_by (is_commoner all) n ns) all
unfolding is_commoner
commonest-count all n m ns =
    max_by-all (is_commoner all) (λ x. count x all) (λ a b h. ground arith) (λ a b h. ground arith)
      m n ns

full-Among :
    (p : HolderPolicy) (ps : List HolderPolicy)
    → Among p ps
    → is_full p ≡ true
    → Among (or_else p.holder_name []) (full_names ps)
unfolding full_names
full-Among p [] m h = elim m [ ]
full-Among p (q ∷ ps) first h = rw h first
full-Among p (q ∷ ps) (later m) h = elim (Bool-cases (is_full q)) [
  | inl e ↦ rw e (later (full-Among p ps m h))
  | inr e ↦ rw e (full-Among p ps m h)
]

common_name-count :
    (own : Option Text) (m : Text) (ns : List Text)
    → Among m ns
    → (n : Text) × (common_name own ns ≡ some n) × Among n ns × (count m ns ≤ count n ns)
unfolding common_name
common_name-count own m [] k = elim k [ ]
common_name-count own m (n ∷ ns) k = (
  max_by (is_commoner (n ∷ ns)) n ns,
  refl,
  max_by-Among (is_commoner (n ∷ ns)) n ns,
  commonest-count (n ∷ ns) n m ns k,
)

-- What a survivor is to the policies of its cluster.
pub record SurvivesOf (ps : List HolderPolicy) (s : Survivor) : Type 0 where
  pub latest :
      (p : HolderPolicy) × Among p ps
      × (s.dob ≡ p.holder_dob)
      × (s.mobile ≡ p.holder_mobile_norm)
      × (s.city ≡ p.address_city)
      × ((q : HolderPolicy) → Among q ps → changed_at q ≤ changed_at p)
  pub named :
      (p : HolderPolicy)
      → Among p ps
      → is_full p ≡ true
      → (n : Text) × (s.full_name ≡ some n)
        × Among n (full_names ps)
        × (count (or_else p.holder_name []) (full_names ps) ≤ count n (full_names ps))
  pub earliest_since : IsEarliest ps s.customer_since
  pub held_once : (numbers : List Text) × NumbersOf ps numbers × (s.policies_held ≡ length numbers)

-- A cluster with a policy always has surviving values. The date of birth, the mobile number and the
-- city are those of one policy, and none of the cluster was changed later. When a policy names the
-- holder in full, then the name is in full, and no full name is more frequent. The date from which
-- the customer counts is the earliest that a policy gives, and is missing exactly when none gives
-- one. The number of policies is that of the different policy numbers.
pub survive-SurvivesOf :
    (p : HolderPolicy) (ps : List HolderPolicy)
    → (s : Survivor) × (survive (p ∷ ps) ≡ some s) × SurvivesOf (p ∷ ps) s
unfolding survive
survive-SurvivesOf p ps = (
  _,
  refl,
  record {
    latest = (
      max_by is_later p ps,
      max_by-Among is_later p ps,
      refl,
      refl,
      refl,
      λ q m. latest-changed p q ps m,
    );
    named = λ q m h.
        common_name-count p.holder_name (or_else q.holder_name []) (full_names (p ∷ ps))
          (full-Among q (p ∷ ps) m h);
    earliest_since = earliest-IsEarliest (p ∷ ps);
    held_once = held-NumbersOf (p ∷ ps);
  },
)
