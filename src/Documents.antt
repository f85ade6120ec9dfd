-- ===== src/Documents.antt =====
-- backend/services/document_request_service.py: the documents that an expert asks the customer for.
pub mod Laws
pub mod Fulfilment
use insurance_claim_approval.Prelude.{
  ℕ, suc, zero, Bool, true, false, Option, none, some, List, [], ◌∷◌, ◌++◌, map, ◌==◌, is_empty,
  any_of, if◌then◌else◌,
}
use insurance_claim_approval.Prelude.Text.{first_codes, Text, codes, text_eq, lower, upper, strip}
use insurance_claim_approval.Schema.Status.{
  DocumentType, damage_photo, repair_estimate, police_report, driver_license, vehicle_registration,
  towing_invoice, third_party_statement, policy_paper, other_document,
}

pub record RequestedDocument : Type 0 where
  pub id : Text
  pub label : Text
  pub document_type : DocumentType

abbrev labelled_as : Text → Text → DocumentType → RequestedDocument
labelled_as key label t = record { id = key; label = label; document_type = t }

-- `DOCUMENT_TYPE_LABELS`, with the keys of `DocumentType.__members__`.
unfoldable pub standard_documents : List RequestedDocument
standard_documents =
    labelled_as (codes "DRIVER_LICENSE") (codes "Driver's licence") driver_license
    ∷ labelled_as (codes "DAMAGE_PHOTO") (codes "Damage photo") damage_photo
    ∷ labelled_as (codes "REPAIR_ESTIMATE") (codes "Repair estimate / garage invoice")
        repair_estimate
    ∷ labelled_as (codes "POLICE_REPORT") (codes "Police / FIR report") police_report
    ∷ labelled_as (codes "VEHICLE_REGISTRATION") (codes "Vehicle registration (RC)")
        vehicle_registration
    ∷ labelled_as (codes "TOWING_INVOICE") (codes "Towing invoice") towing_invoice
    ∷ labelled_as (codes "THIRD_PARTY_STATEMENT") (codes "Third-party statement")
        third_party_statement
    ∷ labelled_as (codes "POLICY_PAPER") (codes "Policy document") policy_paper
    ∷ labelled_as (codes "OTHER") (codes "Other document") other_document
    ∷ []

find_document : Text → List RequestedDocument → Option RequestedDocument
find_document key [] = none
find_document key (d ∷ ds) = if text_eq d.id key then some d else find_document key ds

-- `text.replace(a, b)` of one character.
replace_code : ℕ → ℕ → Text → Text
replace_code a b = map (λ c. if c == a then b else c)

-- `s[n:]`
codes_after : ℕ → Text → Text
codes_after zero s = s
codes_after (suc n) [] = []
codes_after (suc n) (c ∷ s) = codes_after n s

is_custom : Text → Bool
unfolding first_codes
is_custom s = text_eq (first_codes 7 (lower s)) (codes "custom:")

custom_label : Text → Text
unfolding codes_after replace_code
custom_label s =
    let label = strip (replace_code 95 32 (codes_after 7 s)) in
    if is_empty label then codes "Additional document" else label

-- The item of one stripped entry.
unfoldable pub item_of : Text → RequestedDocument
unfolding find_document is_custom custom_label first_codes replace_code standard_documents
item_of s = elim (find_document (upper s) standard_documents) [
  | some d ↦ d
  | none ↦
      if is_custom s
      then labelled_as s (custom_label s) other_document
      else labelled_as (codes "custom:" ++ first_codes 48 (replace_code 32 95 (lower s))) s
          other_document
]

abbrev pub is_seen : Text → List Text → Bool
is_seen key = any_of (text_eq key)

-- The loop, with the ids that it has seen.
unfoldable pub normalize_from : List Text → List Text → List RequestedDocument
normalize_from seen [] = []
normalize_from seen (raw ∷ rest) =
    let item = item_of (strip raw) in
    let skipped = normalize_from seen rest in
    let taken = item ∷ normalize_from (item.id ∷ seen) rest in
    if is_empty (strip raw) then skipped else if is_seen item.id seen then skipped else taken

unfoldable pub normalize_requested_documents : List Text → List RequestedDocument
normalize_requested_documents = normalize_from []
