-- ===== src/Documents/Fulfilment/Laws.antt =====
-- What the flags of the requested documents say.
use mathlib.Core.Path.{subst}
use insurance_claim_approval.Prelude.{
  ℕ, ◌+◌, min, any_of, keep, none, ◌≡◌, refl, inl, inr, Bool, true, false, not, ◌&&◌, Option, some,
  List, [], ◌∷◌, arith, map, length, is_empty, find_first, count_if, Bool-cases, Option-cases, ◌==◌,
}
use insurance_claim_approval.Prelude.Text.{Text}
use insurance_claim_approval.Prelude.Time.{DateTime}
use insurance_claim_approval.Schema.Status.{other_document}
use insurance_claim_approval.Schema.Claim.{ClaimDocument}
use insurance_claim_approval.Mdm.Matching.Connected.{Among, first, later}
use insurance_claim_approval.Documents.{RequestedDocument, normalize_requested_documents}
use insurance_claim_approval.Documents.Fulfilment.{
  FulfilledItem, since, docs_of, is_custom_item, is_used, unused_other, custom_item, one_item,
  fulfil, build_requested_document_items,
}

abbrev pub is_custom_fulfilled : FulfilledItem → Bool
is_custom_fulfilled i = is_custom_item i.spec && i.fulfilled

abbrev free : List ℕ → List ClaimDocument → ℕ
free used = count_if (λ d. not (is_used d.id used))

-- No two of the documents have the same id.
abbrev pub DistinctIds : List ClaimDocument → Type 0
DistinctIds [] = Unit
DistinctIds (d ∷ docs) = (any_of (λ e. e.id == d.id) docs ≡ false) × DistinctIds docs

keep-absent :
    (j : ℕ) (p : ClaimDocument → Bool) (docs : List ClaimDocument)
    → any_of (λ e. e.id == j) docs ≡ false
    → any_of (λ e. e.id == j) (keep p docs) ≡ false
keep-absent j p [] h = refl
keep-absent j p (d ∷ docs) h =
    let rest = keep-absent j p docs (ground arith) in
    elim (Bool-cases (p d)) [ inl e ↦ rw e (ground arith) | inr e ↦ rw e rest ]

keep-DistinctIds :
    (p : ClaimDocument → Bool) (docs : List ClaimDocument)
    → DistinctIds docs
    → DistinctIds (keep p docs)
keep-DistinctIds p [] h = tt
keep-DistinctIds p (d ∷ docs) (new, h) = elim (Bool-cases (p d)) [
  | inl e ↦ rw e (keep-absent d.id p docs new, keep-DistinctIds p docs h)
  | inr e ↦ rw e (keep-DistinctIds p docs h)
]

free-absent :
    (j : ℕ) (used : List ℕ) (docs : List ClaimDocument)
    → any_of (λ e. e.id == j) docs ≡ false
    → free (j ∷ used) docs ≡ free used docs
free-absent j used [] h = refl
free-absent j used (d ∷ docs) h =
    let rest = free-absent j used docs (ground arith) in
    let other : (j == d.id) ≡ false = ground arith in rw (other, rest) refl

free-none :
    (used : List ℕ) (docs : List ClaimDocument)
    → find_first (λ x. not (is_used x.id used)) docs ≡ none
    → free used docs ≡ 0
free-none used [] h = refl
free-none used (x ∷ docs) h = elim (Bool-cases (is_used x.id used)) [
  | inl e ↦ let rest = free-none used docs (rw e at h) in rw e rest
  | inr e ↦ let never = rw e at h in ground arith
]

self_used : (j : ℕ) (used : List ℕ) → is_used j (j ∷ used) ≡ true
self_used j used = ground arith

free-head :
    (x : ClaimDocument) (used : List ℕ) (docs : List ClaimDocument)
    → is_used x.id used ≡ false
    → any_of (λ e. e.id == x.id) docs ≡ false
    → free (x.id ∷ used) (x ∷ docs) + 1 ≡ free used (x ∷ docs)
free-head x used docs h new =
    let same = free-absent x.id used docs new in rw (self_used x.id used, h) (omega (arith, same))

-- Using the first free document leaves one less.
free-next :
    (used : List ℕ) (docs : List ClaimDocument) (d : ClaimDocument)
    → DistinctIds docs
    → find_first (λ x. not (is_used x.id used)) docs ≡ some d
    → free (d.id ∷ used) docs + 1 ≡ free used docs
free-next used [] d distinct h = ground arith
free-next used (x ∷ docs) d (new, distinct) h = elim (Bool-cases (is_used x.id used)) [
  | inl e ↦ let rest = free-next used docs d distinct (rw e at h) in ground arith
  | inr e ↦
      let same : x ≡ d = cc (rw e at h) in
      subst (λ z. free (z.id ∷ used) (x ∷ docs) + 1 ≡ free used (x ∷ docs)) same
        (free-head x used docs e new)
]

free-all : (docs : List ClaimDocument) → free [] docs ≡ length docs
free-all [] = refl
free-all (d ∷ docs) = rw (free-all docs) refl

-- Custom requests are fulfilled as long as documents are left.
fulfil-custom :
    (docs : List ClaimDocument) (rs : List RequestedDocument) (used : List ℕ)
    → DistinctIds (docs_of other_document docs)
    → count_if is_custom_fulfilled (fulfil docs rs used)
      ≡ min (count_if is_custom_item rs) (free used (docs_of other_document docs))
unfolding fulfil one_item custom_item unused_other
fulfil-custom docs [] used distinct = omega arith
fulfil-custom docs (r ∷ rs) used distinct = elim (Bool-cases (is_custom_item r)) [
  | inl c ↦ elim (Option-cases (unused_other used docs)) [
    | inl e ↦
        let rest = fulfil-custom docs rs used distinct in
        let left = free-none used (docs_of other_document docs) e in
        rw (c, e, c) (omega (arith, rest, left))
    | inr (d, e) ↦
        let rest = fulfil-custom docs rs (d.id ∷ used) distinct in
        let fewer = free-next used (docs_of other_document docs) d distinct e in
        rw (c, e, c) (omega (arith, rest, fewer))
  ]
  | inr c ↦ let rest = fulfil-custom docs rs used distinct in rw (c, c) (omega (arith, rest))
]

since-DistinctIds :
    (moment : Option DateTime) (docs : List ClaimDocument)
    → DistinctIds docs
    → DistinctIds (since moment docs)
unfolding since
since-DistinctIds none docs h = h
since-DistinctIds (some m) docs h = keep-DistinctIds _ docs h

one_item-spec :
    (docs : List ClaimDocument) (r : RequestedDocument) (used : List ℕ)
    → (one_item docs r used).0.spec ≡ r
unfolding one_item custom_item
one_item-spec docs r used = elim (Bool-cases (is_custom_item r)) [
  | inl c ↦ elim (Option-cases (unused_other used docs)) [
    | inl e ↦ rw (c, e) refl
    | inr (d, e) ↦ rw (c, e) refl
  ]
  | inr c ↦ rw c refl
]

fulfil-specs :
    (docs : List ClaimDocument) (rs : List RequestedDocument) (used : List ℕ)
    → map (λ i. i.spec) (fulfil docs rs used) ≡ rs
unfolding fulfil
fulfil-specs docs [] used = refl
fulfil-specs docs (r ∷ rs) used =
    rw (one_item-spec docs r used, fulfil-specs docs rs (one_item docs r used).1) refl

one_item-standard :
    (docs : List ClaimDocument) (r : RequestedDocument) (used : List ℕ)
    → is_custom_item r ≡ false
    → (one_item docs r used).0.fulfilled ≡ not (is_empty (docs_of r.document_type docs))
unfolding one_item
one_item-standard docs r used c = rw c refl

fulfil-standard :
    (docs : List ClaimDocument) (rs : List RequestedDocument) (used : List ℕ) (i : FulfilledItem)
    → Among i (fulfil docs rs used)
    → is_custom_item i.spec ≡ false
    → i.fulfilled ≡ not (is_empty (docs_of i.spec.document_type docs))
unfolding fulfil
fulfil-standard docs [] used i m c = elim m [ ]
fulfil-standard docs (r ∷ rs) used _ first c =
    let spec = one_item-spec docs r used in rw spec (one_item-standard docs r used (rw spec at c))
fulfil-standard docs (r ∷ rs) used i (later m) c =
    fulfil-standard docs rs (one_item docs r used).1 i m c

-- The items are those of the normalized requests, in their order. A request that is not custom is
-- fulfilled exactly when there is a document of its type. Of the custom requests, whose ids begin
-- with `custom:`, as many are fulfilled as there are other documents for: all of them, or one for
-- each other document. Only documents from the moment of the request on count. The ids of the
-- documents are different.
pub build_requested_document_items-fulfilled :
    (raw : List Text) (documents : List ClaimDocument) (moment : Option DateTime)
    → DistinctIds documents
    → (map (λ i. i.spec) (build_requested_document_items raw documents moment)
        ≡ normalize_requested_documents raw)
      × ((i : FulfilledItem)
          → Among i (build_requested_document_items raw documents moment)
          → is_custom_item i.spec ≡ false
          → i.fulfilled ≡ not (is_empty (docs_of i.spec.document_type (since moment documents))))
      × (count_if is_custom_fulfilled (build_requested_document_items raw documents moment)
          ≡ min
              (count_if is_custom_item (normalize_requested_documents raw))
              (length (docs_of other_document (since moment documents))))
unfolding build_requested_document_items docs_of
build_requested_document_items-fulfilled raw documents moment distinct =
    let docs = since moment documents in
    let specs = normalize_requested_documents raw in
    (
      fulfil-specs docs specs [],
      fulfil-standard docs specs [],
      rw (← free-all (docs_of other_document docs)) (
          fulfil-custom docs specs []
            (keep-DistinctIds _ docs (since-DistinctIds moment documents distinct))),
    )
