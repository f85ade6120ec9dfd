-- ===== src/Documents/Fulfilment.antt =====
-- Which of the requested documents are there: `build_requested_document_items` of
-- backend/services/document_request_service.py.
pub mod Laws
use insurance_claim_approval.Prelude.{
  ℕ, Bool, true, false, not, ◌&&◌, Option, none, some, List, [], ◌∷◌, ◌==◌, leb, any_of, is_empty,
  keep, find_first, if◌then◌else◌,
}
use insurance_claim_approval.Prelude.Text.{Text, codes, text_eq, first_codes}
use insurance_claim_approval.Prelude.Time.{DateTime, stamp}
use insurance_claim_approval.Schema.Status.{DocumentType, other_document}
use insurance_claim_approval.Schema.Claim.{ClaimDocument}
use insurance_claim_approval.Documents.{RequestedDocument, normalize_requested_documents}
use insurance_claim_approval.Workflow.Papers.{type_value}

pub record FulfilledItem : Type 0 where
  pub spec : RequestedDocument
  pub fulfilled : Bool

-- The documents from the moment of the request on.
unfoldable pub since : Option DateTime → List ClaimDocument → List ClaimDocument
unfolding stamp
since none docs = docs
since (some moment) docs = keep (λ d. leb (stamp moment) (stamp d.created_at)) docs

-- `docs_by_type.get(t, [])`
unfoldable pub docs_of : DocumentType → List ClaimDocument → List ClaimDocument
docs_of t docs = keep (λ d. text_eq (type_value d.doc_type) (type_value t)) docs

-- The test of the type and of the prefix of the id.
unfoldable pub is_custom_item : RequestedDocument → Bool
unfolding first_codes
is_custom_item r =
    text_eq (type_value r.document_type) (type_value other_document)
    && text_eq (first_codes 7 r.id) (codes "custom:")

abbrev pub is_used : ℕ → List ℕ → Bool
is_used j = any_of (λ i. i == j)

-- The first other document that no earlier item has used.
unfoldable pub unused_other : List ℕ → List ClaimDocument → Option ClaimDocument
unfolding docs_of
unused_other used docs = find_first (λ d. not (is_used d.id used)) (docs_of other_document docs)

-- The item of one custom request, and the ids that are used after it.
unfoldable pub custom_item :
    RequestedDocument → Option ClaimDocument → List ℕ → FulfilledItem × List ℕ
custom_item r none used = (record { spec = r; fulfilled = false }, used)
custom_item r (some d) used = (record { spec = r; fulfilled = true }, d.id ∷ used)

unfoldable pub one_item : List ClaimDocument → RequestedDocument → List ℕ → FulfilledItem × List ℕ
unfolding is_custom_item unused_other custom_item docs_of
one_item docs r used =
    if is_custom_item r
    then custom_item r (unused_other used docs) used
    else (record { spec = r; fulfilled = not (is_empty (docs_of r.document_type docs)) }, used)

-- The loop, with `used_other_ids`.
unfoldable pub fulfil : List ClaimDocument → List RequestedDocument → List ℕ → List FulfilledItem
unfolding one_item
fulfil docs [] used = []
fulfil docs (r ∷ rs) used = let (item, after) = one_item docs r used in item ∷ fulfil docs rs after

unfoldable pub build_requested_document_items :
    List Text → List ClaimDocument → Option DateTime → List FulfilledItem
unfolding since fulfil
build_requested_document_items raw documents requested_after =
    fulfil (since requested_after documents) (normalize_requested_documents raw) []
