-- ===== src/Mdm/Clusters.antt =====
-- The union-find of cde/jobs/build_mdm.py. `self.parent` is an association list in the order of
-- insertion; reading a missing key, which raises `KeyError` in the source, gives `none`.
pub mod Roots
pub mod Merge
use insurance_claim_approval.Prelude.{
  ℕ, zero, suc, Bool, true, false, Option, none, some, List, [], ◌∷◌, ltb, if◌then◌else◌, length,
  ◌>>=◌,
}
use insurance_claim_approval.Prelude.Text.{Text, text_eq, text_lt}

pub data Rule : Type 0 where
  email dob_mobile dob_name itself bureau_dob_mobile bureau_dob_name : Rule

-- `RULE_SCORE`, in hundredths
unfoldable pub rule_score : Rule → ℕ
rule_score email = 100
rule_score dob_mobile = 95
rule_score dob_name = 85
rule_score itself = 100
rule_score bureau_dob_mobile = 95
rule_score bureau_dob_name = 85

-- `d.get(key)`
unfoldable pub get {ℓ} : {A : Type ℓ} → List (Text × A) → Text → Option A
get [] key = none
get ((k, v) ∷ d) key = if text_eq k key then some v else get d key

-- `d[key] = value`
unfoldable pub set {ℓ} : {A : Type ℓ} → List (Text × A) → Text → A → List (Text × A)
set [] key value = (key, value) ∷ []
set ((k, v) ∷ d) key value = if text_eq k key then (k, value) ∷ d else (k, v) ∷ set d key value

abbrev pub Parents : Type 0
Parents = List (Text × Text)

-- `self.parent.setdefault(x, x)`
unfoldable pub set_default : Parents → Text → Parents
set_default p x = elim (get p x) [ none ↦ set p x x | some y ↦ p ]

-- One test and round of the loop of `find`: the loop ends at `x`, or goes on at another key.
unfoldable pub halve : Parents → Text → Option (Bool × Text × Parents)
halve p x = do
  y ← get p x
  z ← get p y
  if text_eq y x then some (true, x, p) else some (false, z, set p x z)

-- The loop, of at most as many rounds as the fuel.
unfoldable pub climb : ℕ → Parents → Text → Option (Text × Parents)
climb zero p x = none
climb (suc n) p x = do
  (is_root, y, q) ← halve p x
  let more = climb n q y
  if is_root then some (y, q) else more

-- `UnionFind.find`: a round goes on at a smaller key, so there are no more rounds than keys.
unfoldable pub find : Parents → Text → Option (Text × Parents)
find p x = let q = set_default p x in climb (suc (length q)) q x

pub record Partition : Type 0 where
  pub parent : Parents
  pub rule : List (Text × Rule)

-- The rule of `k` after a merge by `rule`.
unfoldable pub lower_rule : List (Text × Rule) → Text → Rule → List (Text × Rule)
lower_rule rules k by =
    if ltb (rule_score by) (elim (get rules k) [ none ↦ rule_score itself | some r ↦ rule_score r ])
    then set rules k by
    else rules

-- `UnionFind.union`
unfoldable pub union : Partition → Text → Text → Rule → Option Partition
union u a b by = do
  (ra, p) ← find u.parent a
  (rb, q) ← find p b
  let small = if text_lt rb ra then rb else ra
  let large = if text_lt ra rb then rb else ra
  some (
      if text_eq ra rb
      then record { parent = q; rule = u.rule }
      else record { parent = set q large small; rule = lower_rule (lower_rule u.rule a by) b by })
