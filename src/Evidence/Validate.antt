-- ===== src/Evidence/Validate.antt =====
-- `_validate_document` of backend/services/evidence_analysis.py, and the scores that it gives.
use mathlib.Core.List.{reverse}
use insurance_claim_approval.Prelude.{
  ℕ, ◌-◌, ◌*◌, min, max, Bool, true, false, ◌&&◌, ◌||◌, not, Option, none, some, List, [], ◌∷◌,
  ◌++◌, ltb, ◌==◌, if◌then◌else◌, is_empty, any_of, length, count_if,
}
use insurance_claim_approval.Prelude.Text.{Text, codes, contains, lower, strip}
use insurance_claim_approval.Schema.Status.{
  DocumentType, damage_photo, repair_estimate, police_report, driver_license, vehicle_registration,
  towing_invoice, third_party_statement, policy_paper, other_document,
}
use insurance_claim_approval.Schema.Claim.{
  ClaimDocument, IssueCode, evidence_type_mismatch, extraction_failed_issue,
}
use insurance_claim_approval.Schema.Outcome.{DocumentResult}

-- The answer of the language model about a document: none, or whether it matches, and why not.
pub data TypeCheck : Type 0 where
  no_answer matching : TypeCheck
  mismatching : Option Text → TypeCheck

-- OCR, the regular expressions of a document type on a lower-case text, and the language model.
pub record Readers : Type 0 where
  pub is_text_code : ℕ → Bool  -- `c.isalnum() or c.isspace()`, by the tables of Unicode
  pub extract_text : ClaimDocument → Text
  pub pattern_hits : DocumentType → Text → ℕ
  pub check_type : DocumentType → Text → Text → TypeCheck

-- `doc.ocr_text or ocr_service.extract_text(…)`
unfoldable pub text_of : Readers → ClaimDocument → Text
text_of v d = elim d.ocr_text [
  | none ↦ v.extract_text d
  | some t ↦ if is_empty t then v.extract_text d else t
]

-- FIELD_LABELS
field_label : DocumentType → Text
field_label driver_license = codes "Driver's licence"
field_label damage_photo = codes "Damage photo"
field_label repair_estimate = codes "Repair estimate"
field_label police_report = codes "Police report / FIR"
field_label vehicle_registration = codes "Vehicle registration (RC)"
field_label towing_invoice = codes "Towing invoice"
field_label third_party_statement = codes "Third-party statement"
field_label policy_paper = codes "Policy document"
field_label other_document = codes "Supporting document"

-- The values of `DocumentType`.
type_value : DocumentType → Text
type_value driver_license = codes "DRIVER_LICENSE"
type_value damage_photo = codes "DAMAGE_PHOTO"
type_value repair_estimate = codes "REPAIR_ESTIMATE"
type_value police_report = codes "POLICE_REPORT"
type_value vehicle_registration = codes "VEHICLE_REGISTRATION"
type_value towing_invoice = codes "TOWING_INVOICE"
type_value third_party_statement = codes "THIRD_PARTY_STATEMENT"
type_value policy_paper = codes "POLICY_PAPER"
type_value other_document = codes "OTHER"

-- The file name hints of `_TYPE_MATCHERS`; `none` is a type that it does not list.
filename_hints : DocumentType → Option (List Text)
filename_hints driver_license =
    some (codes "dl" ∷ codes "driver" ∷ codes "driving" ∷ codes "licence" ∷ codes "license" ∷ [])
filename_hints vehicle_registration =
    some (codes "rc" ∷ codes "registration" ∷ codes "vehicle_rc" ∷ codes "regcert" ∷ [])
filename_hints repair_estimate = some (
    codes "estimate"
    ∷ codes "invoice"
    ∷ codes "garage"
    ∷ codes "workshop"
    ∷ codes "repair"
    ∷ codes "quote"
    ∷ codes "quotation"
    ∷ codes "bill"
    ∷ [])
filename_hints police_report =
    some (codes "fir" ∷ codes "police" ∷ codes "report" ∷ codes "incident" ∷ [])
filename_hints towing_invoice = some (codes "tow" ∷ codes "towing" ∷ codes "recovery" ∷ [])
filename_hints _ = none

diagram_hints : List Text
diagram_hints =
    codes "flowchart"
    ∷ codes "architecture"
    ∷ codes "pipeline_flow"
    ∷ codes "agent_workflow"
    ∷ codes "system_diagram"
    ∷ []

damage_hints : List Text
damage_hints =
    codes "damage"
    ∷ codes "photo"
    ∷ codes "img"
    ∷ codes "image"
    ∷ codes "picture"
    ∷ codes "front"
    ∷ codes "rear"
    ∷ codes "side"
    ∷ codes "bumper"
    ∷ codes "dent"
    ∷ codes "scratch"
    ∷ codes "accident"
    ∷ []

image_extensions : List Text
image_extensions =
    codes ".png"
    ∷ codes ".jpg"
    ∷ codes ".jpeg"
    ∷ codes ".gif"
    ∷ codes ".webp"
    ∷ codes ".bmp"
    ∷ codes ".heic"
    ∷ codes ".heif"
    ∷ []

begins : Text → Text → Bool
begins [] s = true
begins (x ∷ p) [] = false
begins (x ∷ p) (y ∷ s) = x == y && begins p s

ends_with : Text → Text → Bool
unfolding begins
ends_with suffix s = begins (reverse suffix) (reverse s)

any_hint : List Text → Text → Bool
any_hint hints name = any_of (λ h. contains h name) hints

-- `_assess_extraction_quality(…) == "good"`
is_readable : (ℕ → Bool) → Text → Bool → Bool → Bool
is_readable is_text_code text image pdf =
    let s = strip text in
    let n = length s in
    not (n == 0)
    && not (image && ltb n 20)
    && not (pdf && ltb n 40)
    && not (ltb (count_if is_text_code s * 100) (n * 45))

abbrev pub unreadable : Text
unreadable = codes "Could not extract readable content from this document"

-- What the checks of a document find: its issues, or none.
pub data Verdict : Type 0 where
  accepted no_text : Verdict
  wrong_type : Text → Verdict

abbrev pub is_extraction_code : IssueCode → Bool
is_extraction_code extraction_failed_issue = true
is_extraction_code evidence_type_mismatch = false

abbrev pub verdict_issues : Verdict → List Text
verdict_issues accepted = []
verdict_issues no_text = unreadable ∷ []
verdict_issues (wrong_type reason) = reason ∷ []

abbrev pub verdict_codes : Verdict → List IssueCode
verdict_codes accepted = []
verdict_codes no_text = extraction_failed_issue ∷ []
verdict_codes (wrong_type reason) = evidence_type_mismatch ∷ []

abbrev pub is_wrong_type : Verdict → Bool
is_wrong_type (wrong_type reason) = true
is_wrong_type _ = false

abbrev verdict_reason : Verdict → Text
verdict_reason (wrong_type reason) = reason
verdict_reason _ = []

of_check : DocumentType → TypeCheck → Verdict
unfolding type_value
of_check t (mismatching none) =
    wrong_type (codes "Document does not match expected type: " ++ type_value t)
of_check t (mismatching (some reason)) = wrong_type (
    if is_empty reason
    then codes "Document does not match expected type: " ++ type_value t
    else reason)
of_check t _ = accepted

-- The branch of `_TYPE_MATCHERS`.
check_typed : Readers → DocumentType → List Text → Text → Text → Bool → Text → Verdict
unfolding any_hint diagram_hints of_check field_label
check_typed v t hints name text readable incident =
    if any_hint diagram_hints name
    then wrong_type (field_label t ++ codes " slot does not accept technical diagrams")
    else if not readable
    then (if any_hint hints name then accepted else no_text)
    else if v.pattern_hits t (lower text) == 0 && not (any_hint hints name)
    then of_check t (v.check_type t text incident)
    else accepted

-- `_score_confidence`
unfoldable pub score_confidence : Text → Verdict → Text → DocumentType → ℕ
unfolding filename_hints any_hint
score_confidence text (wrong_type reason) name t = 2500
score_confidence text verdict name damage_photo = 7500
score_confidence text verdict name t =
    let failed = any_of is_extraction_code (verdict_codes verdict) in
    let others = count_if (λ c. not (is_extraction_code c)) (verdict_codes verdict) in
    if any_hint (elim (filename_hints t) [ none ↦ [] | some hs ↦ hs ]) name && not failed
    then 7500
    else if failed || is_empty text
    then 3000
    else max 1000 (min 10_000 (25 * length text) - 1500 * others)

result_of : ClaimDocument → Verdict → ℕ → DocumentResult
result_of d verdict confidence = record {
  doc_type = d.doc_type;
  document_id = d.id;
  filename = d.original_filename;
  confidence = confidence;
  issues = verdict_issues verdict;
  issue_codes = verdict_codes verdict;
  type_mismatch = is_wrong_type verdict;
  mismatch_reason = verdict_reason verdict;
}

judged : ClaimDocument → Text → Text → Verdict → DocumentResult
unfolding result_of
judged d text name verdict = result_of d verdict (score_confidence text verdict name d.doc_type)

is_damage_slot : DocumentType → Bool
is_damage_slot damage_photo = true
is_damage_slot _ = false

-- `_validate_document`
unfoldable pub validate_document : Readers → ClaimDocument → Text → Text → DocumentResult
unfolding any_hint image_extensions damage_hints ends_with judged result_of is_damage_slot
    filename_hints check_typed is_readable
validate_document v d text incident =
    let name = lower d.original_filename in
    let image = any_of (λ e. ends_with e name) image_extensions in
    let readable = is_readable v.is_text_code text image (ends_with (codes ".pdf") name) in
    if is_damage_slot d.doc_type
    then (if image || any_hint damage_hints name
        then result_of d accepted (if image then 7500 else 5500)
        else judged d text name
            (wrong_type (codes "Damage photo slot expects an image file (jpg/png)")))
    else elim (filename_hints d.doc_type) [
      | some hints ↦ judged d text name (check_typed v d.doc_type hints name text readable incident)
      | none ↦ judged d text name (if readable then accepted else no_text)
    ]
