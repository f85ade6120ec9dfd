-- ===== src/Mdm/Bureau.antt =====
-- The link of a cluster to the credit bureau: `link_bureau` of cde/jobs/build_mdm.py. The dates of
-- birth of a cluster, a set in the source, stand in the order of the records.
pub mod Laws
use insurance_claim_approval.Prelude.{
  ℕ, max, Bool, true, false, not, ◌&&◌, Option, none, some, List, [], ◌∷◌, ◌++◌, map, ◌==◌,
  if◌then◌else◌, or_else, any_of, keep,
}
use insurance_claim_approval.Prelude.Text.{Text, text_eq, truthy}
use insurance_claim_approval.Mdm.Names.{names_match}
use insurance_claim_approval.Mdm.Clusters.{Rule, bureau_dob_mobile, bureau_dob_name, rule_score}
use insurance_claim_approval.Mdm.Matching.{Person}

-- A profile of the bureau, by what is matched.
pub record Profile : Type 0 where
  pub bureau_ref : Text
  pub name_norm : Option Text
  pub dob : Option ℕ
  pub mobile_norm : Option Text

unfoldable pub born_on : ℕ → Option ℕ → Bool
born_on d none = false
born_on d (some e) = e == d

-- `dobs`
unfoldable pub add_dob : Option ℕ → List ℕ → List ℕ
add_dob none ds = ds
add_dob (some d) ds = if any_of (λ e. e == d) ds then ds else d ∷ ds

unfoldable pub dobs_of : List Person → List ℕ
unfolding add_dob
dobs_of [] = []
dobs_of (r ∷ rs) = add_dob r.dob (dobs_of rs)

-- `b["mobile_norm"] and b["mobile_norm"] in mobiles`
unfoldable pub shares_mobile : List Person → Option Text → Bool
shares_mobile cluster mobile =
    truthy mobile
    && any_of (λ r. truthy r.mobile_norm && text_eq (or_else r.mobile_norm []) (or_else mobile []))
        cluster

-- The rule by which a profile of the right date of birth is a candidate.
unfoldable pub candidate_rule : List Person → Profile → Option Rule
unfolding shares_mobile
candidate_rule cluster b =
    if shares_mobile cluster b.mobile_norm
    then some bureau_dob_mobile
    else if any_of (λ r. names_match r.name_norm b.name_norm) cluster
    then some bureau_dob_name
    else none

abbrev pub Candidate : Type 0
Candidate = Rule × Profile

unfoldable pub score_one : Option Rule → Profile → List Candidate
score_one none b = []
score_one (some by) b = (by, b) ∷ []

unfoldable pub score_all : List Person → List Profile → List Candidate
unfolding score_one candidate_rule
score_all cluster [] = []
score_all cluster (b ∷ bs) = score_one (candidate_rule cluster b) b ++ score_all cluster bs

-- `scored`: `bureau_by_dob.get(dob, [])` are the profiles of that date of birth.
unfoldable pub scored : List Person → List Profile → List ℕ → List Candidate
unfolding score_all
scored cluster bureau [] = []
scored cluster bureau (d ∷ ds) =
    score_all cluster (keep (λ b. born_on d b.dob) bureau) ++ scored cluster bureau ds

abbrev pub score_of : Candidate → ℕ
score_of (by, b) = rule_score by

-- The score that comes first in descending order.
unfoldable pub top_score : List Candidate → ℕ
top_score [] = 0
top_score (x ∷ xs) = max (score_of x) (top_score xs)

unfoldable pub best_of : List Candidate → List Candidate
unfolding top_score
best_of xs = keep (λ x. score_of x == top_score xs) xs

pub data Link : Type 0 where
  no_match : Link
  ambiguous : List Text → Link
  linked : Profile → Rule → Link

-- One best profile is linked; two different ones are ambiguous.
unfoldable pub choose : List Candidate → Link
choose [] = no_match
choose ((by, b) ∷ xs) =
    if any_of (λ x. not (text_eq x.1.bureau_ref b.bureau_ref)) xs
    then ambiguous (b.bureau_ref ∷ map (λ x. x.1.bureau_ref) xs)
    else linked b by

-- `link_bureau`
unfoldable pub link_bureau : List Person → List Profile → Link
unfolding scored choose best_of dobs_of
link_bureau cluster bureau = choose (best_of (scored cluster bureau (dobs_of cluster)))
