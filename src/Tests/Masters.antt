-- ===== src/Tests/Masters.antt =====
-- The matching of customers at a concrete household.
use insurance_claim_approval.Prelude.{
  ◌≤◌, ◌≡◌, ◌≢◌, ◌↔◌, refl, true, none, some, List, [], ◌∷◌, arith,
}
use insurance_claim_approval.Prelude.Text.{Text, codes, text_eq, text_lt, words}
use insurance_claim_approval.Mdm.Distance.{
  edit_distance, last_of, fill_rows, fill_row, range_from, differ,
}
use insurance_claim_approval.Mdm.Distance.Scripts.{Script, edits}
use insurance_claim_approval.Mdm.Names.{
  names_match, ends_match, ends_of, first_names_match, last_word, same_initial, split,
}
use insurance_claim_approval.Mdm.Names.Laws.{edit_distance-IsLeast}
use insurance_claim_approval.Mdm.Clusters.{
  Rule, Partition, get, set, set_default, halve, climb, find, lower_rule, rule_score, union,
}
use insurance_claim_approval.Mdm.Clusters.Roots.{
  IsForest, Root, FoundBy, new-IsForest, find-FoundBy,
}
use insurance_claim_approval.Mdm.Clusters.Merge.{MergedBy, union-MergedBy}
use insurance_claim_approval.Mdm.Matching.{
  Person, matches, refs_of, cluster_customers, enter_all, merge_all, roots_of, append_to,
  dob_mobile_key, email_key, group_by, in_groups, named_alike, named_with, star,
}
use insurance_claim_approval.Mdm.Matching.Connected.{Among, Connected}
use insurance_claim_approval.Mdm.Matching.Laws.{cluster_customers-Connected}
use insurance_claim_approval.Mdm.Matching.Recorded.{cluster_customers-NoEmail}
use insurance_claim_approval.Mdm.Golden.{HolderPolicy, Survivor, survive}
use insurance_claim_approval.Mdm.Golden.Laws.{SurvivesOf, survive-SurvivesOf}
use insurance_claim_approval.Mdm.Bureau.{
  Profile, linked, born_on, add_dob, dobs_of, shares_mobile, candidate_rule, score_one, score_all,
  scored, top_score, best_of, choose, link_bureau,
}
use insurance_claim_approval.Mdm.Bureau.Laws.{IsBest, link_bureau-IsBest}

abbrev asha : Person
asha = record {
  customer_ref = codes "PA-C100001";
  name_norm = some (codes "ASHA RAO");
  dob = some 7300;
  mobile_norm = some (codes "9800000001");
  email = some (codes "asha@x.in");
}

-- The same person in the branch system, with the initial of the first name.
abbrev asha_branch : Person
asha_branch = record {
  customer_ref = codes "PA-C900007";
  name_norm = some (codes "A RAO");
  dob = some 7300;
  mobile_norm = none;
  email = some (codes "asha@x.in");
}

abbrev vikram : Person
vikram = record {
  customer_ref = codes "PA-C100002";
  name_norm = some (codes "VIKRAM RAO");
  dob = some 7300;
  mobile_norm = some (codes "9800000001");
  email = none;
}

abbrev household : List Person
household = asha ∷ asha_branch ∷ []

abbrev household_roots : List (Text × Text)
household_roots =
    (codes "PA-C100001", codes "PA-C100001") ∷ (codes "PA-C900007", codes "PA-C100001") ∷ []

names_of_household : names_match asha.name_norm asha_branch.name_norm ≡ true
unfolding names_match words text_eq
names_of_household = refl

one_edit : edit_distance (codes "VIKRAM") (codes "VIKRM") 2 ≡ 1
unfolding edit_distance last_of fill_rows fill_row range_from differ
one_edit = refl

household_clusters :
    cluster_customers household
    ≡ some (
      household_roots,
      (codes "PA-C100001", Rule.itself) ∷ (codes "PA-C900007", Rule.itself) ∷ [],
    )
unfolding cluster_customers enter_all find climb halve get set_default set text_eq merge_all matches
    union names_match words text_lt roots_of lower_rule rule_score append_to dob_mobile_key
    email_key group_by in_groups named_alike named_with star ends_match ends_of first_names_match
    last_word same_initial split
household_clusters = refl

cluster_customers-Connected_example :
    (roots : List (Text × Text)) × (rules : List (Text × Rule)) × (cluster_customers household
      ≡ some (roots, rules))
    × ((x y : Text)
        → Among x (refs_of household)
        → Among y (refs_of household)
        → (get roots x ≡ get roots y) ↔ Connected (matches household) x y)
cluster_customers-Connected_example = cluster_customers-Connected household

cluster_customers-NoEmail_example :
    get
      ((codes "PA-C100001", Rule.itself) ∷ (codes "PA-C900007", Rule.itself) ∷ [])
      (codes "PA-C900007")
    ≢ some Rule.email
cluster_customers-NoEmail_example =
    cluster_customers-NoEmail household household_roots
      ((codes "PA-C100001", Rule.itself) ∷ (codes "PA-C900007", Rule.itself) ∷ [])
      (codes "PA-C900007") household_clusters

edit_distance-IsLeast_example :
    ((p : Script (codes "VIKRAM") (codes "VIKRM"))
      → edits p ≤ 2
      → edit_distance (codes "VIKRAM") (codes "VIKRM") 2 ≤ edits p)
    × (edit_distance (codes "VIKRAM") (codes "VIKRM") 2 ≤ 2
        → (p : Script (codes "VIKRAM") (codes "VIKRM")) × (edits p
            ≡ edit_distance (codes "VIKRAM") (codes "VIKRM") 2))
edit_distance-IsLeast_example = edit_distance-IsLeast (codes "VIKRAM") (codes "VIKRM") 2

abbrev a_key : Text
a_key = codes "A"

abbrev b_key : Text
b_key = codes "B"

two_keys-IsForest : IsForest (set (set [] a_key a_key) b_key b_key)
unfolding get set text_eq
two_keys-IsForest = new-IsForest (set [] a_key a_key) b_key refl (
    new-IsForest [] a_key refl
      (record { down = λ x y h. ground arith; closed = λ x y h. ground arith }))

abbrev two_keys : Partition
two_keys = record { parent = set (set [] a_key a_key) b_key b_key; rule = [] }

find-FoundBy_example :
    FoundBy (find two_keys.parent b_key) (set_default two_keys.parent b_key) b_key
find-FoundBy_example = find-FoundBy two_keys.parent b_key two_keys-IsForest

union-MergedBy_example :
    MergedBy (union two_keys b_key a_key Rule.dob_name) two_keys.parent b_key a_key
unfolding get set text_eq
union-MergedBy_example =
    union-MergedBy two_keys b_key a_key b_key a_key Rule.dob_name two_keys-IsForest (Root.here refl)
      (Root.here refl)

abbrev asha_profile : Profile
asha_profile = record {
  bureau_ref = codes "BR-1";
  name_norm = asha.name_norm;
  dob = asha.dob;
  mobile_norm = none;
}

-- A profile of the same day and another name.
abbrev stranger : Profile
stranger = record {
  bureau_ref = codes "BR-2";
  name_norm = some (codes "RAVI");
  dob = asha.dob;
  mobile_norm = none;
}

abbrev bureau : List Profile
bureau = stranger ∷ asha_profile ∷ []

household_linked : link_bureau household bureau ≡ linked asha_profile Rule.bureau_dob_name
unfolding link_bureau choose best_of top_score scored score_all score_one candidate_rule
    shares_mobile dobs_of add_dob born_on names_match words text_eq ends_match ends_of
    first_names_match last_word same_initial split edit_distance last_of fill_rows fill_row
    range_from differ rule_score
household_linked = refl

link_bureau-IsBest_example : IsBest household bureau asha_profile Rule.bureau_dob_name
link_bureau-IsBest_example =
    link_bureau-IsBest household bureau asha_profile Rule.bureau_dob_name household_linked

abbrev old_policy : HolderPolicy
old_policy = record {
  policy_number = codes "PN-1";
  holder_name = some (codes "Asha Rao");
  holder_name_norm = asha.name_norm;
  holder_dob = asha.dob;
  holder_mobile_norm = none;
  holder_email = none;
  address_city = none;
  customer_since = some 7300;
  last_change_ts = none;
}

abbrev new_policy : HolderPolicy
new_policy = record old_policy {
  policy_number = codes "PN-2";
  holder_mobile_norm = some (codes "98");
  customer_since = none;
  last_change_ts = some 9000;
}

survive-SurvivesOf_example :
    (s : Survivor) × (survive (old_policy ∷ new_policy ∷ []) ≡ some s)
    × SurvivesOf (old_policy ∷ new_policy ∷ []) s
survive-SurvivesOf_example = survive-SurvivesOf old_policy (new_policy ∷ [])
