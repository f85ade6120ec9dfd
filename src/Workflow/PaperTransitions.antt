-- ===== src/Workflow/PaperTransitions.antt =====
-- What replacing a document requires and leaves.
use mathlib.Core.Path.{sym, subst, ap, ◌∙◌}
use insurance_claim_approval.Prelude.{
  ℕ, ◌≤◌, leb, leb→le, if◌then◌else◌, ◌≡◌, refl, Bool, true, false, not, Option, none, some, List,
  [], ◌∷◌, ◌++◌, arith, ◌==◌, keep, Bool-cases, inl, inr, find_first,
}
use insurance_claim_approval.Prelude.Text.{Text, text_eq}
use insurance_claim_approval.Prelude.Order.{text_eq→eq, text_eq_refl}
use insurance_claim_approval.Prelude.Time.{DateTime, stamp}
use insurance_claim_approval.Schema.Status.{ClaimStatus, DocumentType}
use insurance_claim_approval.Schema.Claim.{Claim, ClaimDocument}
use insurance_claim_approval.Schema.Db.{
  Db, get_claim, put_claim, find_claim-put_row_self, get_claim-id, documents_of,
}
use insurance_claim_approval.Experts.Effect.{HasStatus}
use insurance_claim_approval.Mdm.Matching.Connected.{Among, first, later}
use insurance_claim_approval.Mdm.Bureau.Laws.{keep-Among, kept-Among, uncons}
use insurance_claim_approval.Workflow.{
  Response, committed, bad_state, document_not_found, invalid_type, reference_required,
}
use insurance_claim_approval.Workflow.Transitions.{
  reject_if-inv, need-inv, when_owned-inv, committed-inj, raised-ne,
}
use insurance_claim_approval.Workflow.Papers.{Upload, parse_type, type_value, all_types, all_types}
use insurance_claim_approval.Workflow.EvidenceService.{
  is_editable, latest, latest_of, get_document, by_type, typed_document, replacement, replaced,
  replace_document,
}

-- The document that a request names: by its id, or as the newest of a type.
pub data IsNamed (j : Option ℕ) (value : Option Text) (docs : List ClaimDocument)
    (old : ClaimDocument) : Type 0 where
  by_id : j ≡ some old.id → IsNamed j value docs old
  newest :
      value ≡ some (type_value old.doc_type)
      → ((d : ClaimDocument)
          → Among d docs
          → type_value d.doc_type ≡ type_value old.doc_type
          → stamp d.created_at ≤ stamp old.created_at)
      → IsNamed j value docs old

found_first :
    (p : ClaimDocument → Bool) (docs : List ClaimDocument) (d : ClaimDocument)
    → find_first p docs ≡ some d
    → Among d docs × (p d ≡ true)
found_first p [] d h = ground arith
found_first p (x ∷ docs) d h = elim (Bool-cases (p x)) [
  | inl e ↦
      let same : x ≡ d = cc (rw e at h) in
      subst (λ y. Among y (x ∷ docs) × (p y ≡ true)) same (first, e)
  | inr e ↦ let (m, holds) = found_first p docs d (rw e at h) in (later m, holds)
]

latest-ge :
    (d : ClaimDocument) (es : List ClaimDocument)
    → stamp d.created_at ≤ stamp (latest d es).created_at
unfolding latest
latest-ge d [] = omega arith
latest-ge d (e ∷ es) = elim (Bool-cases (leb (stamp d.created_at) (stamp e.created_at))) [
  | inl le ↦ rw (le, latest) (omega (arith, leb→le _ _ le, latest-ge e es))
  | inr gt ↦ rw (gt, latest) (latest-ge d es)
]

latest-all :
    (e : ClaimDocument) (es : List ClaimDocument)
    → Among e es
    → (d : ClaimDocument) → stamp e.created_at ≤ stamp (latest d es).created_at
unfolding latest
latest-all e [] m d = elim m [ ]
latest-all e (_ ∷ es) first d = elim (Bool-cases (leb (stamp d.created_at) (stamp e.created_at))) [
  | inl le ↦ rw (le, latest) (latest-ge e es)
  | inr gt ↦ let older = latest-ge d es in rw (gt, latest) (ground arith)
]
latest-all e (x ∷ es) (later m) d =
    latest-all e es m (if leb (stamp d.created_at) (stamp x.created_at) then x else d)

skip : {x a b : ClaimDocument} {bs : List ClaimDocument} → Among x (a ∷ bs) → Among x (a ∷ b ∷ bs)
skip first = first
skip (later m) = later (later m)

latest-Among : (d : ClaimDocument) (es : List ClaimDocument) → Among (latest d es) (d ∷ es)
unfolding latest
latest-Among d [] = first
latest-Among d (e ∷ es) = elim (Bool-cases (leb (stamp d.created_at) (stamp e.created_at))) [
  | inl le ↦ rw le (later (latest-Among e es))
  | inr gt ↦ rw gt (skip (latest-Among d es))
]

latest_of-newest :
    (docs : List ClaimDocument) (d : ClaimDocument)
    → latest_of docs ≡ some d
    → Among d docs × ((e : ClaimDocument) → Among e docs → stamp e.created_at ≤ stamp d.created_at)
unfolding latest_of
latest_of-newest [] d h = ground arith
latest_of-newest (x ∷ docs) d h =
    let same : latest x docs ≡ d = cc h in
    subst
      (λ y.
        Among y (x ∷ docs)
        × ((e : ClaimDocument) → Among e (x ∷ docs) → stamp e.created_at ≤ stamp y.created_at))
      same
      (
        latest-Among x docs,
        λ e m. elim (uncons m) [
          | inl here ↦ rw (← here) (latest-ge x docs)
          | inr there ↦ latest-all e docs there x
        ],
      )

typed :
    (value : Text) (ts : List DocumentType) (t : DocumentType)
    → find_first (λ x. text_eq (type_value x) value) ts ≡ some t
    → text_eq (type_value t) value ≡ true
typed value [] t h = ground arith
typed value (x ∷ ts) t h = elim (Bool-cases (text_eq (type_value x) value)) [
  | inl e ↦
      let same : x ≡ t = cc (rw e at h) in subst (λ y. text_eq (type_value y) value ≡ true) same e
  | inr e ↦ typed value ts t (rw e at h)
]

parse_type-some :
    (value : Text) (t : DocumentType) → parse_type value ≡ some t → value ≡ type_value t
unfolding parse_type
parse_type-some value t h = sym (text_eq→eq (type_value t) value (typed value all_types t h))

keep_same :
    (t : DocumentType) (docs : List ClaimDocument) (e : ClaimDocument)
    → Among e docs
    → type_value e.doc_type ≡ type_value t
    → Among e (keep (λ d. text_eq (type_value d.doc_type) (type_value t)) docs)
keep_same t docs e m h =
    keep-Among (λ d. text_eq (type_value d.doc_type) (type_value t)) docs m
      (rw h (text_eq_refl (type_value t)))

-- The body of a lookup that commits was given the document that the request names.
by_type-inv :
    (docs : List ClaimDocument) (j : Option ℕ) (value : Option Text)
    (body : ClaimDocument → Response) (db : Db)
    → by_type value docs body ≡ committed db
    → (d : ClaimDocument) × Among d docs × IsNamed j value docs d × (body d ≡ committed db)
unfolding by_type typed_document
by_type-inv docs j none body db h = absurd (raised-ne reference_required db h)
by_type-inv docs j (some []) body db h = absurd (raised-ne reference_required db h)
by_type-inv docs j (some (x ∷ value)) body db h =
    let (t, e, h1) = need-inv (parse_type (x ∷ value)) invalid_type _ db h in
    let those = keep (λ d. text_eq (type_value d.doc_type) (type_value t)) docs in
    let (d, f, h2) = need-inv (latest_of those) document_not_found body db h1 in
    let (m, most) = latest_of-newest those d f in
    let (listed, of_type) =
      kept-Among (λ y. text_eq (type_value y.doc_type) (type_value t)) docs m in
    let same_type = text_eq→eq (type_value d.doc_type) (type_value t) of_type in
    (
      d,
      listed,
      newest (ap some (parse_type-some (x ∷ value) t e ∙ sym same_type))
          (λ y k same. most y (keep_same t docs y k (same ∙ same_type))),
      h2,
    )

get_document-inv :
    (docs : List ClaimDocument) (j : Option ℕ) (value : Option Text)
    (body : ClaimDocument → Response) (db : Db)
    → get_document docs j value body ≡ committed db
    → (d : ClaimDocument) × Among d docs × IsNamed j value docs d × (body d ≡ committed db)
unfolding get_document
get_document-inv docs none value body db h = by_type-inv docs none value body db h
get_document-inv docs (some j) value body db h = elim (Bool-cases (j == 0)) [
  | inl e ↦ by_type-inv docs (some j) value body db (rw e at h)
  | inr e ↦
      let (d, f, h1) =
        need-inv (find_first (λ d. d.id == j) docs) document_not_found body db (rw e at h) in
      let (m, is_j) = found_first (λ d. d.id == j) docs d f in
      let named : j ≡ d.id = ground arith in (d, m, by_id (ap some named), h1)
]

replaced-HasStatus :
    (now : DateTime) (fresh : ℕ) (c : Claim) (old : ClaimDocument) (u : Upload) (db : Db)
    → get_claim c.id db ≡ some c
    → HasStatus c.id ClaimStatus.processing (replaced now fresh c old u db)
unfolding replaced get_claim put_claim
replaced-HasStatus now fresh c old u db h =
    (_, find_claim-put_row_self (record c { status = ClaimStatus.processing }) c db.claims h, refl)

-- The row that stands for an old one.
pub record IsNew (now : DateTime) (fresh : ℕ) (old : ClaimDocument) (u : Upload)
    (new : ClaimDocument) : Type 0 where
  pub numbered : new.id ≡ fresh
  pub of_claim : new.claim_id ≡ old.claim_id
  pub same_type : new.doc_type ≡ old.doc_type
  pub filed : new.original_filename ≡ u.filename
  pub summed : new.checksum ≡ u.checksum
  pub read : new.ocr_text ≡ some u.text
  pub not_acknowledged : new.acknowledged ≡ false
  pub made : new.created_at ≡ now

-- The documents after a replacement.
pub record IsReplaced (now : DateTime) (fresh k : ℕ) (u : Upload) (j : Option ℕ)
    (value : Option Text) (before after : Db) : Type 0 where
  pub old : ClaimDocument
  pub new : ClaimDocument
  pub listed : Among old before.documents
  pub of_claim : old.claim_id ≡ k
  pub named : IsNamed j value (documents_of k before) old
  pub is_new : IsNew now fresh old u new
  pub documents : after.documents ≡ keep (λ d. not (d.id == old.id)) before.documents ++ (new ∷ [])

replaced-IsReplaced :
    (now : DateTime) (fresh : ℕ) (c : Claim) (old : ClaimDocument) (u : Upload) (j : Option ℕ)
    (value : Option Text) (db : Db)
    → Among old (documents_of c.id db)
    → IsNamed j value (documents_of c.id db) old
    → IsReplaced now fresh c.id u j value db (replaced now fresh c old u db)
unfolding replaced put_claim replacement documents_of
replaced-IsReplaced now fresh c old u j value db m named =
    let (listed, own) = kept-Among (λ d. d.claim_id == c.id) db.documents m in
    record {
      old = old;
      new = replacement now fresh old u;
      listed = listed;
      of_claim = ground arith;
      named = named;
      is_new = record {
        numbered = refl;
        of_claim = refl;
        same_type = refl;
        filed = refl;
        summed = refl;
        read = refl;
        not_acknowledged = refl;
        made = refl;
      };
      documents = refl;
    }

-- The statuses in which evidence may be changed.
pub data IsEditable : ClaimStatus → Type 0 where
  in_review : IsEditable ClaimStatus.pending_review
  in_improvement : IsEditable ClaimStatus.request_more_info
  in_processing : IsEditable ClaimStatus.processing

editable : (s : ClaimStatus) → is_editable s ≡ true → IsEditable s
unfolding is_editable
editable ClaimStatus.pending_review h = in_review
editable ClaimStatus.request_more_info h = in_improvement
editable ClaimStatus.processing h = in_processing
editable _ h = ground arith

-- A document is replaced only by the owner of a claim that is PENDING_REVIEW, REQUEST_MORE_INFO or
-- PROCESSING, and the claim is then PROCESSING. The document that goes is one of the claim's: the
-- one of the id that the request names, or the newest of the type that it names. No document with
-- its id is left, and after all others stands one of the same type, with the name, the checksum and
-- the text of the upload, which is not acknowledged.
pub replace_document_outcome :
    (now : DateTime) (fresh customer k : ℕ) (u : Upload) (j : Option ℕ) (value : Option Text)
    (db db' : Db)
    → replace_document now fresh customer k u j value db ≡ committed db'
    → ((c : Claim) × (get_claim k db ≡ some c) × (c.customer_id ≡ customer) × IsEditable c.status)
      × HasStatus k ClaimStatus.processing db'
      × IsReplaced now fresh k u j value db db'
unfolding replace_document
replace_document_outcome now fresh customer k u j value db db' h =
    let (c, found, mine, h1) = when_owned-inv (get_claim k db) customer _ db' h in
    let (open_one, h2) = reject_if-inv (not (is_editable c.status)) bad_state _ db' h1 in
    let (old, listed, named, h3) = get_document-inv (documents_of c.id db) j value _ db' h2 in
    let own = get_claim-id k c db found in
    let here = subst (λ i. get_claim i db ≡ some c) (sym own) found in
    let same = committed-inj (replaced now fresh c old u db) db' h3 in
    let after =
      subst (HasStatus c.id ClaimStatus.processing) same
        (replaced-HasStatus now fresh c old u db here) in
    let is_replaced =
      subst (IsReplaced now fresh c.id u j value db) same
        (replaced-IsReplaced now fresh c old u j value db listed named) in
    (
      (c, found, mine, editable c.status (ground arith)),
      subst (λ i. HasStatus i ClaimStatus.processing db') own after,
      subst (λ i. IsReplaced now fresh i u j value db db') own is_replaced,
    )
