-- ===== src/Mdm/Bureau/Laws.antt =====
-- What a link to the bureau says.
use mathlib.Core.Path.{subst}
use insurance_claim_approval.Prelude.{
  ℕ, ◌≤◌, ◌≡◌, refl, ◌∙◌, inl, inr, ◌⊎◌, Bool, true, false, not, some, List, [], ◌∷◌, ◌++◌, ◌==◌,
  arith, any_of, keep, Bool-cases, Option-cases,
}
use insurance_claim_approval.Prelude.Text.{text_eq}
use insurance_claim_approval.Prelude.Order.{text_eq→eq}
use insurance_claim_approval.Mdm.Clusters.{Rule, rule_score}
use insurance_claim_approval.Mdm.Matching.{Person}
use insurance_claim_approval.Mdm.Matching.Connected.{Among, first, later}
use insurance_claim_approval.Mdm.Bureau.{
  Profile, Candidate, linked, born_on, dobs_of, candidate_rule, score_one, score_all, scored,
  score_of, top_score, best_of, choose, link_bureau,
}

module _ {A : Type 0} where
  pub keep-Among :
      (p : A → Bool) {x : A} (xs : List A) → Among x xs → p x ≡ true → Among x (keep p xs)
  keep-Among p [] m h = elim m [ ]
  keep-Among p (y ∷ ys) first h = rw h first
  keep-Among p (y ∷ ys) (later m) h = elim (Bool-cases (p y)) [
    | inl e ↦ rw e (later (keep-Among p ys m h))
    | inr e ↦ rw e (keep-Among p ys m h)
  ]

  pub uncons : {x y : A} {ys : List A} → Among x (y ∷ ys) → (y ≡ x) ⊎ Among x ys
  uncons first = inl refl
  uncons (later m) = inr m

  pub kept-Among :
      (p : A → Bool) {x : A} (xs : List A) → Among x (keep p xs) → Among x xs × (p x ≡ true)
  kept-Among p [] m = elim m [ ]
  kept-Among p {x} (y ∷ ys) m = elim (Bool-cases (p y)) [
    | inl e ↦ elim (uncons (rw e at m)) [
      | inl same ↦ (subst (λ z. Among z (y ∷ ys)) same first, rw (← same) e)
      | inr n ↦ let (o, h) = kept-Among p ys n in (later o, h)
    ]
    | inr e ↦ let (o, h) = kept-Among p ys (rw e at m) in (later o, h)
  ]

  Among-left : {x : A} (xs ys : List A) → Among x xs → Among x (xs ++ ys)
  Among-left [] ys m = elim m [ ]
  Among-left (x ∷ xs) ys first = first
  Among-left (x ∷ xs) ys (later m) = later (Among-left xs ys m)

  Among-right : {x : A} (xs ys : List A) → Among x ys → Among x (xs ++ ys)
  Among-right [] ys m = m
  Among-right (x ∷ xs) ys m = later (Among-right xs ys m)

  Among-split : {x : A} (xs ys : List A) → Among x (xs ++ ys) → Among x xs ⊎ Among x ys
  Among-split [] ys m = inr m
  Among-split (x ∷ xs) ys first = inl first
  Among-split (x ∷ xs) ys (later m) = elim (Among-split xs ys m) [
    | inl n ↦ inl (later n)
    | inr n ↦ inr n
  ]

-- What a candidate is.
pub record IsCandidate (cluster : List Person) (bureau : List Profile) (dobs : List ℕ)
    (x : Candidate) : Type 0 where
  pub listed : Among x.1 bureau
  pub ruled : candidate_rule cluster x.1 ≡ some x.0
  pub born : (d : ℕ) × Among d dobs × (born_on d x.1.dob ≡ true)

all_sound :
    (cluster : List Person) (x : Candidate) (bs : List Profile)
    → Among x (score_all cluster bs)
    → Among x.1 bs × (candidate_rule cluster x.1 ≡ some x.0)
unfolding score_all score_one
all_sound cluster x [] m = elim m [ ]
all_sound cluster x (b ∷ bs) m = elim (Option-cases (candidate_rule cluster b)) [
  | inl e ↦ let (n, h) = all_sound cluster x bs (rw e at m) in (later n, h)
  | inr (by, e) ↦ elim (uncons (rw e at m)) [
    | inl same ↦ rw (← same) (first, e)
    | inr n ↦ let (o, h) = all_sound cluster x bs n in (later o, h)
  ]
]

all_complete :
    (cluster : List Person) (by : Rule) (b : Profile) (bs : List Profile)
    → Among b bs
    → candidate_rule cluster b ≡ some by
    → Among (by, b) (score_all cluster bs)
unfolding score_all score_one
all_complete cluster by b [] m h = elim m [ ]
all_complete cluster by b (c ∷ bs) first h = rw h first
all_complete cluster by b (c ∷ bs) (later m) h =
    Among-right (score_one (candidate_rule cluster c) c) (score_all cluster bs)
      (all_complete cluster by b bs m h)

scored_sound :
    (cluster : List Person) (bureau : List Profile) (dobs : List ℕ) (x : Candidate)
    → Among x (scored cluster bureau dobs)
    → IsCandidate cluster bureau dobs x
unfolding scored
scored_sound cluster bureau [] x m = elim m [ ]
scored_sound cluster bureau (d ∷ ds) x m =
    let those = keep (λ b. born_on d b.dob) bureau in
    elim (Among-split (score_all cluster those) (scored cluster bureau ds) m) [
      | inl n ↦
          let (o, h) = all_sound cluster x those n in
          let (listed, on_day) = kept-Among (λ b. born_on d b.dob) bureau o in
          record { listed = listed; ruled = h; born = (d, first, on_day) }
      | inr n ↦
          let rest = scored_sound cluster bureau ds x n in
          let (e, k, on_day) = rest.born in
          record { listed = rest.listed; ruled = rest.ruled; born = (e, later k, on_day) }
    ]

scored_complete :
    (cluster : List Person) (bureau : List Profile) (dobs : List ℕ) (by : Rule) (b : Profile)
    (d : ℕ)
    → Among d dobs
    → Among b bureau
    → born_on d b.dob ≡ true
    → candidate_rule cluster b ≡ some by
    → Among (by, b) (scored cluster bureau dobs)
unfolding scored
scored_complete cluster bureau [] by b d k m on_day h = elim k [ ]
scored_complete cluster bureau (d ∷ ds) by b _ first m on_day h =
    Among-left (score_all cluster (keep (λ c. born_on d c.dob) bureau)) (scored cluster bureau ds)
      (all_complete cluster by b _ (keep-Among (λ c. born_on d c.dob) bureau m on_day) h)
scored_complete cluster bureau (e ∷ ds) by b d (later k) m on_day h =
    Among-right (score_all cluster (keep (λ c. born_on e c.dob) bureau)) (scored cluster bureau ds)
      (scored_complete cluster bureau ds by b d k m on_day h)

top_score-le : (x : Candidate) (xs : List Candidate) → Among x xs → score_of x ≤ top_score xs
unfolding top_score
top_score-le x [] m = elim m [ ]
top_score-le x (y ∷ xs) first = omega arith
top_score-le x (y ∷ xs) (later m) = omega (arith, top_score-le x xs m)

-- All candidates of a list without another reference have the first one's.
same_refs :
    (b : Profile) (x : Candidate) (xs : List Candidate)
    → any_of (λ y. not (text_eq y.1.bureau_ref b.bureau_ref)) xs ≡ false
    → Among x xs
    → x.1.bureau_ref ≡ b.bureau_ref
same_refs b x [] h m = elim m [ ]
same_refs b x (y ∷ xs) h first = text_eq→eq x.1.bureau_ref b.bureau_ref (ground arith)
same_refs b x (y ∷ xs) h (later m) = same_refs b x xs (ground arith) m

choose-linked :
    (xs : List Candidate) (b : Profile) (by : Rule)
    → choose xs ≡ linked b by
    → Among (by, b) xs × ((x : Candidate) → Among x xs → x.1.bureau_ref ≡ b.bureau_ref)
unfolding choose
choose-linked [] b by h = ground arith
choose-linked ((r, c) ∷ xs) b by h =
    elim (Bool-cases (any_of (λ x. not (text_eq x.1.bureau_ref c.bureau_ref)) xs)) [
      | inl e ↦ let never = rw e at h in ground arith
      | inr e ↦
          let done : linked c r ≡ linked b by = rw e at h in
          let same_rule : r ≡ by = cc done in
          let same : c ≡ b = cc done in
          (
            rw (← same_rule, ← same) first,
            λ x m. elim (uncons m) [
              | inl at_head ↦ rw (← at_head, same)
              | inr n ↦ rw (← same) (same_refs c x xs e n)
            ],
          )
    ]

-- What a linked profile is to a cluster.
pub record IsBest (cluster : List Person) (bureau : List Profile) (b : Profile) (by : Rule)
    : Type 0 where
  pub fits : IsCandidate cluster bureau (dobs_of cluster) (by, b)
  pub highest :
      (x : Candidate) → IsCandidate cluster bureau (dobs_of cluster) x → score_of x ≤ rule_score by
  pub alone :
      (x : Candidate)
      → IsCandidate cluster bureau (dobs_of cluster) x
      → score_of x ≡ rule_score by
      → x.1.bureau_ref ≡ b.bureau_ref

best_of-Among :
    (x : Candidate) (xs : List Candidate)
    → Among x (best_of xs)
    → Among x xs × (score_of x ≡ top_score xs)
unfolding best_of
best_of-Among x xs m =
    let (n, h) = kept-Among (λ y. score_of y == top_score xs) xs m in (n, ground arith)

among_best :
    (x : Candidate) (xs : List Candidate)
    → Among x xs
    → score_of x ≡ top_score xs
    → Among x (best_of xs)
unfolding best_of
among_best x xs m h = keep-Among (λ y. score_of y == top_score xs) xs m (ground arith)

is_scored :
    (cluster : List Person) (bureau : List Profile) (dobs : List ℕ) (x : Candidate)
    → IsCandidate cluster bureau dobs x
    → Among x (scored cluster bureau dobs)
is_scored cluster bureau dobs x c =
    let (d, k, on_day) = c.born in
    scored_complete cluster bureau dobs x.0 x.1 d k c.listed on_day c.ruled

-- When a cluster is linked to a profile of the bureau by a rule, then the profile is one of the
-- bureau's, has the date of birth of a record of the cluster, and the rule is the one by which it
-- matches the cluster. No profile of such a date that matches the cluster has a higher score, and
-- every one with the same score has the same reference.
pub link_bureau-IsBest :
    (cluster : List Person) (bureau : List Profile) (b : Profile) (by : Rule)
    → link_bureau cluster bureau ≡ linked b by
    → IsBest cluster bureau b by
unfolding link_bureau
link_bureau-IsBest cluster bureau b by h =
    let all = scored cluster bureau (dobs_of cluster) in
    let (m, same) = choose-linked (best_of all) b by h in
    let (n, top) = best_of-Among (by, b) all m in
    record {
      fits = scored_sound cluster bureau (dobs_of cluster) (by, b) n;
      highest = λ x c. rw top (top_score-le x all (is_scored cluster bureau (dobs_of cluster) x c));
      alone = λ x c e.
          same x (among_best x all (is_scored cluster bureau (dobs_of cluster) x c) (e ∙ top));
    }
