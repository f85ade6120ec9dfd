-- ===== src/Mdm/Matching.antt =====
-- The matching of customers of cde/jobs/build_mdm.py: `cluster_customers`.
pub mod Connected
pub mod Refs
pub mod Laws
pub mod Recorded
use insurance_claim_approval.Prelude.{
  ℕ, Bool, true, false, ◌&&◌, Option, none, some, List, [], ◌∷◌, ◌++◌, map, ◌==◌, if◌then◌else◌,
  or_else, ◌>>=◌,
}
use insurance_claim_approval.Prelude.Text.{Text, text_eq, truthy}
use insurance_claim_approval.Mdm.Names.{names_match}
use insurance_claim_approval.Mdm.Clusters.{Rule, Parents, Partition, get, find, union}

-- A row of `by_ref`: the latest policy of a customer reference. A date is a day number.
pub record Person : Type 0 where
  pub customer_ref : Text
  pub name_norm : Option Text
  pub dob : Option ℕ
  pub mobile_norm : Option Text
  pub email : Option Text

-- `groups[k].append(value)` of a `defaultdict(list)`
unfoldable pub append_to :
    {K V : Type 0} → (K → K → Bool) → List (K × List V) → K → V → List (K × List V)
append_to same [] key value = (key, value ∷ []) ∷ []
append_to same ((k, vs) ∷ groups) key value =
    if same k key
    then (k, vs ++ (value ∷ [])) ∷ groups
    else (k, vs) ∷ append_to same groups key value

-- The records by key, in the order of their first key; a record without a key is left out.
unfoldable pub group_by :
    {K : Type 0}
    → (K → K → Bool)
    → (Person → Option K)
    → List (K × List Person)
    → List Person
    → List (K × List Person)
unfolding append_to
group_by same key groups [] = groups
group_by same key groups (r ∷ rs) =
    group_by same key (elim (key r) [ none ↦ groups | some k ↦ append_to same groups k r ]) rs

unfoldable pub email_key : Person → Option Text
email_key r = if truthy r.email then r.email else none

unfoldable pub dob_mobile_key : Person → Option (ℕ × Text)
dob_mobile_key r = do
  dob ← r.dob
  mobile ← if truthy r.mobile_norm then r.mobile_norm else none
  some (dob, mobile)

abbrev pub same_dob_mobile : ℕ × Text → ℕ × Text → Bool
same_dob_mobile (d, m) (e, n) = d == e && text_eq m n

-- A call of `uf.union`.
abbrev pub Pair : Type 0
Pair = Text × Text × Rule

-- `for other in refs[1:]: uf.union(refs[0], other, rule)`
unfoldable pub star : Rule → List Person → List Pair
star by [] = []
star by (r ∷ rs) = map (λ o. (r.customer_ref, o.customer_ref, by)) rs

unfoldable pub named_with : Person → List Person → List Pair
named_with a [] = []
named_with a (b ∷ rs) =
    if names_match a.name_norm b.name_norm
    then (a.customer_ref, b.customer_ref, Rule.dob_name) ∷ named_with a rs
    else named_with a rs

-- The pairs of a group by date of birth whose names match.
unfoldable pub named_alike : List Person → List Pair
unfolding named_with
named_alike [] = []
named_alike (a ∷ rs) = named_with a rs ++ named_alike rs

unfoldable pub in_groups :
    {K : Type 0} → (List Person → List Pair) → List (K × List Person) → List Pair
in_groups pairs [] = []
in_groups pairs ((k, rs) ∷ groups) = pairs rs ++ in_groups pairs groups

-- The calls of `uf.union` in `cluster_customers`, in their order.
unfoldable pub matches : List Person → List Pair
unfolding group_by email_key dob_mobile_key star named_alike in_groups
matches rs =
    in_groups (star Rule.email) (group_by text_eq email_key [] rs)
    ++ (in_groups (star Rule.dob_mobile) (group_by same_dob_mobile dob_mobile_key [] rs)
        ++ in_groups named_alike (group_by ◌==◌ (λ r. r.dob) [] rs))

-- `for r in records: uf.find(r["customer_ref"])`
unfoldable pub enter_all : Parents → List Text → Option Parents
enter_all p [] = some p
enter_all p (x ∷ xs) = find p x >>= λ (r, q). enter_all q xs

unfoldable pub merge_all : Partition → List Pair → Option Partition
merge_all u [] = some u
merge_all u ((a, b, by) ∷ es) = union u a b by >>= λ v. merge_all v es

-- `{r["customer_ref"]: uf.find(r["customer_ref"]) for r in records}`
unfoldable pub roots_of : Parents → List Text → Option (List (Text × Text))
roots_of p [] = some []
roots_of p (x ∷ xs) = do (r, q) ← find p x; rest ← roots_of q xs; some ((x, r) ∷ rest)

abbrev pub refs_of : List Person → List Text
refs_of rs = map (λ r. r.customer_ref) rs

-- `cluster_customers`: the root and the rule of every customer reference.
unfoldable pub cluster_customers : List Person → Option (List (Text × Text) × List (Text × Rule))
cluster_customers rs = do
  entered ← enter_all [] (refs_of rs)
  let start : Partition = record { parent = entered; rule = [] }
  merged ← merge_all start (matches rs)
  roots ← roots_of merged.parent (refs_of rs)
  some (roots, map (λ x. (x, or_else (get merged.rule x) Rule.itself)) (refs_of rs))
