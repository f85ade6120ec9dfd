-- ===== src/Mdm/Matching/Recorded.antt =====
-- The rules that `cluster_customers` records.
use mathlib.Core.Path.{subst}
use insurance_claim_approval.Prelude.{
  ◌≡◌, refl, sym, ◌∙◌, ◌≢◌, ◌⊎◌, inl, inr, false, none, some, List, [], ◌∷◌, map, Bool-cases,
  Option-cases, or_else, arith, ltb,
}
use insurance_claim_approval.Prelude.Text.{Text, text_eq}
use insurance_claim_approval.Prelude.Order.{text_eq→eq}
use insurance_claim_approval.Mdm.Clusters.{
  Rule, email, itself, rule_score, Partition, get, set, find, lower_rule, union,
}
use insurance_claim_approval.Mdm.Clusters.Roots.{get-set_self, get-set_ne}
use insurance_claim_approval.Mdm.Matching.{
  Person, Pair, matches, refs_of, enter_all, merge_all, roots_of, cluster_customers,
}

NoEmail : List (Text × Rule) → Type 0
NoEmail rules = (k : Text) → get rules k ≢ some email

is_email : (by : Rule) → (by ≡ email) ⊎ (some by ≢ some email)
is_email Rule.email = inl refl
is_email Rule.dob_mobile = inr (λ h. ground arith)
is_email Rule.dob_name = inr (λ h. ground arith)
is_email Rule.itself = inr (λ h. ground arith)
is_email Rule.bureau_dob_mobile = inr (λ h. ground arith)
is_email Rule.bureau_dob_name = inr (λ h. ground arith)

never_below : (r : Rule) → ltb 100 (rule_score r) ≡ false
unfolding rule_score
never_below Rule.email = refl
never_below Rule.dob_mobile = refl
never_below Rule.dob_name = refl
never_below Rule.itself = refl
never_below Rule.bureau_dob_mobile = refl
never_below Rule.bureau_dob_name = refl

-- Merging by e-mail address, of the highest score, records nothing.
lower_rule-email : (rules : List (Text × Rule)) (k : Text) → lower_rule rules k email ≡ rules
unfolding lower_rule rule_score
lower_rule-email rules k = elim (Option-cases (get rules k)) [
  | inl e ↦ rw (e, lower_rule)
  | inr (r, e) ↦ rw (e, never_below r)
]

lower_rule-NoEmail :
    (rules : List (Text × Rule)) (k : Text) (by : Rule)
    → NoEmail rules
    → NoEmail (lower_rule rules k by)
unfolding lower_rule NoEmail
lower_rule-NoEmail rules k by none_yet = elim (is_email by) [
  | inl e ↦ λ w. rw (e, lower_rule-email rules k) (none_yet w)
  | inr other ↦ λ w.
      elim (Bool-cases (
        ltb (rule_score by)
          (elim (get rules k) [ none ↦ rule_score itself | some r ↦ rule_score r ]))) [
            | inl lower ↦ rw lower (elim (Bool-cases (text_eq k w)) [
              | inl same ↦ λ h.
                  let own =
                    subst (λ v. get (set rules k by) v ≡ some by) (text_eq→eq k w same)
                      (get-set_self rules k by) in
                  other (sym own ∙ h)
              | inr apart ↦ rw (get-set_ne rules k by w apart) (none_yet w)
            ])
            | inr not_lower ↦ rw not_lower (none_yet w)
          ]
]

no_value : {A : Type 0} {a : A} → none ≡ some a → ⊥
no_value h = ground arith

union-NoEmail :
    (u v : Partition) (a b : Text) (by : Rule)
    → NoEmail u.rule
    → union u a b by ≡ some v
    → NoEmail v.rule
unfolding union
union-NoEmail u v a b by n e = elim (Option-cases (find u.parent a)) [
  | inl fails ↦ absurd (no_value (rw fails at e))
  | inr ((ra, p), found) ↦ elim (Option-cases (find p b)) [
    | inl fails ↦ absurd (no_value (rw (found, fails) at e))
    | inr ((rb, q), found_b) ↦ elim (Bool-cases (text_eq ra rb)) [
      | inl same ↦
          let done = rw (found, found_b, same) at e in
          let kept : u.rule ≡ v.rule = cc done in rw (← kept) n
      | inr other ↦
          let done = rw (found, found_b, other) at e in
          let kept : lower_rule (lower_rule u.rule a by) b by ≡ v.rule = cc done in
          rw (← kept)
            (lower_rule-NoEmail (lower_rule u.rule a by) b by (lower_rule-NoEmail u.rule a by n))
    ]
  ]
]

merge_all-NoEmail :
    (es : List Pair) (u v : Partition) → NoEmail u.rule → merge_all u es ≡ some v → NoEmail v.rule
unfolding merge_all
merge_all-NoEmail [] u v n e = let same : u ≡ v = cc e in rw (← same) n
merge_all-NoEmail ((a, b, by) ∷ es) u v n e = elim (Option-cases (union u a b by)) [
  | inl fails ↦ absurd (no_value (rw fails at e))
  | inr (w, merged) ↦ merge_all-NoEmail es w v (union-NoEmail u w a b by n merged) (rw merged at e)
]

recorded-NoEmail :
    (xs : List Text) (rules : List (Text × Rule))
    → NoEmail rules
    → NoEmail (map (λ x. (x, or_else (get rules x) itself)) xs)
unfolding NoEmail get
recorded-NoEmail [] rules n w h = absurd (no_value h)
recorded-NoEmail (x ∷ xs) rules n w h = elim (Bool-cases (text_eq x w)) [
  | inl same ↦ elim (Option-cases (get rules x)) [
    | inl e ↦ let own = rw (same, e) at h in ground arith
    | inr (r, e) ↦ let own = rw (same, e) at h in absurd (n x (e ∙ own))
  ]
  | inr other ↦ recorded-NoEmail xs rules n w (rw other at h)
]

-- No customer reference is ever given the rule EMAIL, although two of equal e-mail address are
-- merged: the rule of the highest score is not below the one that stands for no rule.
pub cluster_customers-NoEmail :
    (rs : List Person) (roots : List (Text × Text)) (rules : List (Text × Rule)) (x : Text)
    → cluster_customers rs ≡ some (roots, rules)
    → get rules x ≢ some email
unfolding cluster_customers NoEmail get
cluster_customers-NoEmail rs roots rules x e = elim (Option-cases (enter_all [] (refs_of rs))) [
  | inl fails ↦ absurd (no_value (rw fails at e))
  | inr (p, entered) ↦
      elim (Option-cases (merge_all (record { parent = p; rule = [] }) (matches rs))) [
        | inl fails ↦ absurd (no_value (rw (entered, fails) at e))
        | inr (v, merged) ↦ elim (Option-cases (roots_of v.parent (refs_of rs))) [
          | inl fails ↦ absurd (no_value (rw (entered, merged, fails) at e))
          | inr (out, found) ↦
              let done = rw (entered, merged, found) at e in
              let kept : map (λ x. (x, or_else (get v.rule x) itself)) (refs_of rs) ≡ rules =
                cc done in
              rw (← kept) (
                recorded-NoEmail (refs_of rs) v.rule
                  (merge_all-NoEmail (matches rs) _ v (λ k h. absurd (no_value h)) merged) x)
        ]
      ]
]
