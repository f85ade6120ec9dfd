-- ===== src/Workflow/Papers.antt =====
-- The handlers of backend/routers/claims.py that write drafts and documents, with
-- backend/services/claim_service.py and evidence_service.py. An uploaded file is what `save_upload`
-- and OCR make of it; the ids of new rows and the clock are arguments.
use insurance_claim_approval.Prelude.{
  ℕ, suc, max, Bool, false, not, ◌&&◌, ◌||◌, Option, none, some, List, [], ◌∷◌, ◌++◌, map, ◌==◌,
  if◌then◌else◌, is_some, or_else, is_empty, find_first,
}
use insurance_claim_approval.Prelude.Text.{Text, codes, text_eq, upper, truthy}
use insurance_claim_approval.Prelude.Time.{DateTime}
use insurance_claim_approval.Schema.Status.{ClaimStatus, DocumentType, IncidentType}
use insurance_claim_approval.Schema.Policy.{Policy}
use insurance_claim_approval.Schema.Claim.{Claim, ClaimDocument}
use insurance_claim_approval.Schema.Outcome.{draft_created}
use insurance_claim_approval.Schema.Db.{Db, get_claim, put_claim, log_audit}
use insurance_claim_approval.Kyc.{is_kyc_verified}
use insurance_claim_approval.Workflow.{
  Response, committed, reject_if, need, when_owned, policy_not_found, policy_forbidden,
  invalid_type, papers_first, licence_required, photo_required, police_report_required,
  server_error,
}

-- `motor_fields`, as far as a claim keeps them; `none` is a field that the request leaves out. The
-- type of the incident is any text.
pub record MotorFields : Type 0 where
  pub incident_type : Option Text
  pub third_party_involved : Option Bool
  pub injuries_reported : Option Bool
  pub vehicle_year : Option ℕ
  pub vin : Option Text
  pub driver_license_number : Option Text

-- `value`, or what stands there.
abbrev pub or_kept : {A : Type 0} → Option A → Option A → Option A
or_kept none kept = kept
or_kept (some v) kept = some v

-- The names of `IncidentType`, by which the column takes a text; `none` is the `LookupError` of
-- another text at the commit.
unfoldable pub parse_incident : Text → Option IncidentType
parse_incident t =
    if text_eq t (codes "COLLISION")
    then some IncidentType.collision
    else if text_eq t (codes "THEFT")
    then some IncidentType.theft
    else if text_eq t (codes "VANDALISM")
    then some IncidentType.vandalism
    else if text_eq t (codes "FIRE")
    then some IncidentType.fire
    else if text_eq t (codes "NATURAL_DISASTER")
    then some IncidentType.natural_disaster
    else if text_eq t (codes "GLASS_ONLY")
    then some IncidentType.glass_only
    else if text_eq t (codes "THIRD_PARTY_LIABILITY")
    then some IncidentType.third_party_liability
    else if text_eq t (codes "OTHER")
    then some IncidentType.other_incident
    else none

-- A commit that writes the type of the incident, or fails on it.
unfoldable pub with_incident : Option Text → (Option IncidentType → Response) → Response
unfolding need parse_incident
with_incident none body = body none
with_incident (some t) body = need (parse_incident t) server_error (λ i. body (some i))

unfoldable pub set_fields : Option IncidentType → MotorFields → Claim → Claim
set_fields incident m c = record c {
  incident_type = or_else incident c.incident_type;
  third_party_involved = or_else m.third_party_involved c.third_party_involved;
  injuries_reported = or_else m.injuries_reported c.injuries_reported;
  vehicle_year = or_kept m.vehicle_year c.vehicle_year;
  vin = or_kept m.vin c.vin;
  driver_license_number = or_kept m.driver_license_number c.driver_license_number;
}

-- `DraftClaimCreate`, with an amount that is not negative, which the schema does not check.
pub record NewDraft : Type 0 where
  pub incident_description : Text
  pub incident_datetime : DateTime
  pub claim_amount : ℕ
  pub motor : MotorFields

-- The row of a new draft, with the defaults of its columns.
unfoldable pub new_claim : DateTime → ℕ → ℕ → NewDraft → Option IncidentType → Claim
unfolding set_fields
new_claim now fresh customer body incident = set_fields incident body.motor (record {
  id = fresh;
  customer_id = customer;
  policy_id = none;
  incident_description = body.incident_description;
  incident_datetime = body.incident_datetime;
  claim_amount = body.claim_amount;
  status = ClaimStatus.draft;
  submission_step = 1;
  incident_type = IncidentType.collision;
  third_party_involved = false;
  injuries_reported = false;
  vehicle_year = none;
  vin = none;
  driver_license_number = none;
  submission_device_hash = none;
  policy_context_ready = false;
  escalation_flags = [];
  escalation_messages = [];
  assigned_agent = none;
  assigned_agent_id = none;
  assigned_at = none;
  evidence_mismatch = false;
  evidence_issues = [];
  pipeline_run_id = 0;
  customer_trust = none;
  created_at = now;
})

-- `create_draft`
unfoldable pub create_draft : DateTime → ℕ → ℕ → NewDraft → Db → Response
unfolding new_claim with_incident
create_draft now fresh customer body db = with_incident body.motor.incident_type (λ incident.
    committed (
      log_audit fresh draft_created none
        (record db { claims = db.claims ++ (new_claim now fresh customer body incident ∷ []) })))

-- `DraftClaimUpdate`, with an amount that is not negative.
pub record DraftUpdate : Type 0 where
  pub incident_description : Option Text
  pub incident_datetime : Option DateTime
  pub claim_amount : Option ℕ
  pub policy_number : Option Text
  pub motor : MotorFields

-- `claim_service.update_draft`
unfoldable pub updated : DraftUpdate → Option IncidentType → Option ℕ → Claim → Claim
unfolding set_fields
updated u incident policy c = set_fields incident u.motor (record c {
  incident_description = or_else u.incident_description c.incident_description;
  incident_datetime = or_else u.incident_datetime c.incident_datetime;
  claim_amount = or_else u.claim_amount c.claim_amount;
  policy_id = or_kept policy c.policy_id;
  submission_step = max c.submission_step 1;
})

-- The commit of an update, with the policy of its number.
unfoldable pub update_with : ℕ → DraftUpdate → Claim → Option Policy → Db → Response
unfolding reject_if need with_incident
update_with customer u c policy db = need policy policy_not_found (λ p.
    reject_if (not (p.customer_id == customer)) policy_forbidden (
      with_incident u.motor.incident_type
        (λ incident. committed (put_claim (updated u incident (some p.id) c) db))))

-- `update_draft`
unfoldable pub update_draft : ℕ → ℕ → DraftUpdate → Db → Response
unfolding update_with with_incident
update_draft customer k u db = when_owned (get_claim k db) customer (λ c.
    if truthy u.policy_number
    then update_with customer u c
        (find_first (λ p. text_eq p.policy_number (or_else u.policy_number [])) db.policies) db
    else with_incident u.motor.incident_type
        (λ incident. committed (put_claim (updated u incident none c) db)))

-- An uploaded file, with the text that OCR reads.
pub record Upload : Type 0 where
  pub filename : Text
  pub checksum : Text
  pub text : Text

-- `claim_service.add_document` for each upload, with consecutive ids.
unfoldable pub add_uploads :
    DateTime → ℕ → ℕ → List (DocumentType × Upload) → List ClaimDocument → List ClaimDocument
add_uploads now fresh k [] docs = docs
add_uploads now fresh k ((t, u) ∷ uploads) docs = add_uploads now (suc fresh) k uploads (
    docs
    ++ (record {
      id = fresh;
      claim_id = k;
      doc_type = t;
      original_filename = u.filename;
      checksum = u.checksum;
      ocr_text = none;
      acknowledged = false;
      created_at = now;
    }
        ∷ []))

-- The files of `upload_evidence`.
pub record Evidence : Type 0 where
  pub damage_photos : List Upload
  pub repair_estimate : Option Upload
  pub driver_license : Option Upload
  pub vehicle_registration : Option Upload
  pub police_report : Option Upload
  pub towing_invoice : Option Upload
  pub third_party_statement : Option Upload

abbrev of_type : DocumentType → Option Upload → List (DocumentType × Upload)
of_type t none = []
of_type t (some u) = (t, u) ∷ []

-- `uploads`, in the order of the source.
unfoldable pub uploads_of : Evidence → List (DocumentType × Upload)
uploads_of e =
    of_type DocumentType.driver_license e.driver_license
    ++ (map (λ u. (DocumentType.damage_photo, u)) e.damage_photos
        ++ (of_type DocumentType.repair_estimate e.repair_estimate
            ++ (of_type DocumentType.vehicle_registration e.vehicle_registration
                ++ (of_type DocumentType.police_report e.police_report
                    ++ (of_type DocumentType.towing_invoice e.towing_invoice
                        ++ of_type DocumentType.third_party_statement e.third_party_statement)))))

-- `upload_evidence`
unfoldable pub upload_evidence : DateTime → ℕ → ℕ → ℕ → Evidence → Db → Response
unfolding reject_if
upload_evidence now fresh customer k e db = when_owned (get_claim k db) customer (λ c.
    let verified = is_kyc_verified (find_first (λ p. p.customer_id == customer) db.profiles) in
    reject_if (not c.policy_context_ready) papers_first (
      reject_if (not verified && not (is_some e.driver_license)) licence_required (
        reject_if (is_empty e.damage_photos) photo_required (
          reject_if
            ((c.third_party_involved || c.injuries_reported) && not (is_some e.police_report))
            police_report_required
            (committed (
              put_claim (record c { submission_step = max c.submission_step 3 })
                (record db {
                  documents = add_uploads now fresh c.id (uploads_of e) db.documents;
                })))))))

-- The values of `DocumentType`.
unfoldable pub type_value : DocumentType → Text
type_value DocumentType.damage_photo = codes "DAMAGE_PHOTO"
type_value DocumentType.repair_estimate = codes "REPAIR_ESTIMATE"
type_value DocumentType.police_report = codes "POLICE_REPORT"
type_value DocumentType.driver_license = codes "DRIVER_LICENSE"
type_value DocumentType.vehicle_registration = codes "VEHICLE_REGISTRATION"
type_value DocumentType.towing_invoice = codes "TOWING_INVOICE"
type_value DocumentType.third_party_statement = codes "THIRD_PARTY_STATEMENT"
type_value DocumentType.policy_paper = codes "POLICY_PAPER"
type_value DocumentType.other_document = codes "OTHER"

abbrev pub all_types : List DocumentType
all_types =
    DocumentType.damage_photo ∷ DocumentType.repair_estimate ∷ DocumentType.police_report
    ∷ DocumentType.driver_license ∷ DocumentType.vehicle_registration ∷ DocumentType.towing_invoice
    ∷ DocumentType.third_party_statement ∷ DocumentType.policy_paper ∷ DocumentType.other_document
    ∷ []

-- `DocumentType(value)`; `none` is `ValueError`.
unfoldable pub parse_type : Text → Option DocumentType
unfolding type_value
parse_type value = find_first (λ t. text_eq (type_value t) value) all_types

abbrev same_type : DocumentType → DocumentType → Bool
same_type t u = text_eq (type_value t) (type_value u)

-- `add_documents`, up to the start of the processing.
unfoldable pub add_documents : DateTime → ℕ → ℕ → ℕ → Text → List Upload → Db → Response
unfolding need
add_documents now fresh customer k doc_type files db = when_owned (get_claim k db) customer (λ c.
    need (parse_type (upper doc_type)) invalid_type (λ t. committed (record db {
      documents = add_uploads now fresh c.id (map (λ u. (t, u)) files) db.documents;
    })))
