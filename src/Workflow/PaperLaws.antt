-- ===== src/Workflow/PaperLaws.antt =====
-- The handlers of drafts, documents and evidence approve no claim, and parse what they print.

use insurance_claim_approval.Prelude.{
  ℕ, max, ◌≡◌, refl, sym, ◌∙◌, ap, ◌⊎◌, inl, inr, true, not, Option, none, some, List, [], ◌∷◌,
  ◌++◌, arith, ◌==◌, Bool-cases, keep, map,
}
use insurance_claim_approval.Prelude.Text.{Text, text_eq, truthy}
use insurance_claim_approval.Prelude.Time.{DateTime}
use insurance_claim_approval.Schema.Status.{ClaimStatus, DocumentType, IncidentType}
use insurance_claim_approval.Schema.Policy.{Policy}
use insurance_claim_approval.Schema.Claim.{Claim, ClaimDocument}
use insurance_claim_approval.Schema.Outcome.{
  draft_created, evidence_replaced, evidence_acknowledged,
}
use insurance_claim_approval.Schema.Db.{
  Db, get_claim, put_claim, find_claim, documents_of, log_audit,
}
use insurance_claim_approval.Schema.Approvals.{
  Signed, signed_off, put_claim-Signed, log_audit-Signed,
}
use insurance_claim_approval.Evidence.{Readers, EvidenceAnalysisResult, analyze_evidence}
use insurance_claim_approval.Workflow.{
  Response, bad_state, invalid_type, document_not_found, reference_required, policy_not_found,
  papers_first, licence_required, photo_required, police_report_required, policy_forbidden,
  server_error, committed,
}
use insurance_claim_approval.Workflow.Lawful.{Lawful, lawful, refused, guarded, needed, owned}
use insurance_claim_approval.Workflow.Papers.{
  NewDraft, DraftUpdate, Upload, Evidence, new_claim, set_fields, create_draft, updated,
  update_with, update_draft, add_uploads, uploads_of, upload_evidence, add_documents, type_value,
  parse_type, parse_incident, with_incident,
}
use insurance_claim_approval.Workflow.EvidenceService.{
  get_document, by_type, typed_document, replaced, replace_document, acknowledged, reanalyzed,
  replacement, mark, acknowledge_document,
}

-- Every document type is read back from its value.
pub parse_type-value : (t : DocumentType) → parse_type (type_value t) ≡ some t
unfolding parse_type type_value text_eq
parse_type-value DocumentType.damage_photo = refl
parse_type-value DocumentType.repair_estimate = refl
parse_type-value DocumentType.police_report = refl
parse_type-value DocumentType.driver_license = refl
parse_type-value DocumentType.vehicle_registration = refl
parse_type-value DocumentType.towing_invoice = refl
parse_type-value DocumentType.third_party_statement = refl
parse_type-value DocumentType.policy_paper = refl
parse_type-value DocumentType.other_document = refl

find_claim-last :
    (k : ℕ) (c d : Claim) (cs : List Claim)
    → find_claim k (cs ++ (c ∷ [])) ≡ some d
    → (find_claim k cs ≡ some d) ⊎ (d ≡ c)
unfolding find_claim
find_claim-last k c d [] h = elim (Bool-cases (c.id == k)) [
  | inl e ↦ let same = rw e at h in inr (cc same)
  | inr e ↦ let never = rw e at h in ground arith
]
find_claim-last k c d (x ∷ cs) h = elim (Bool-cases (x.id == k)) [
  | inl e ↦ let same = rw e at h in inl (rw e same)
  | inr e ↦ let rest = rw e at h in rw e (find_claim-last k c d cs rest)
]

incident-Lawful :
    (incident : Option Text) (body : Option IncidentType → Response)
    → ((i : Option IncidentType) → Lawful (body i))
    → Lawful (with_incident incident body)
unfolding with_incident
incident-Lawful none body h = h none
incident-Lawful (some t) body h = needed (parse_incident t) server_error _ (λ i. h (some i))

drafted-Lawful :
    (now : DateTime) (fresh customer : ℕ) (body : NewDraft) (incident : Option IncidentType)
    (db : Db)
    → Signed db
    → Lawful (
        committed (
          log_audit fresh draft_created none (record db {
            claims = db.claims ++ (new_claim now fresh customer body incident ∷ []);
          })))
unfolding new_claim set_fields get_claim
drafted-Lawful now fresh customer body incident db s =
    let c = new_claim now fresh customer body incident in
    let added : Db = record db { claims = db.claims ++ (c ∷ []) } in
    lawful _ (
      log_audit-Signed fresh draft_created none added (λ k d found approved.
        elim (find_claim-last k c d db.claims found) [
          | inl old ↦ s k d old approved
          | inr new ↦
              let same : c.status ≡ ClaimStatus.approved =
                ap (λ (x : Claim). x.status) (sym new) ∙ approved in
              ground arith
        ]))

pub draft-Signed :
    (now : DateTime) (fresh customer : ℕ) (body : NewDraft) (db : Db)
    → Signed db
    → Lawful (create_draft now fresh customer body db)
unfolding create_draft
draft-Signed now fresh customer body db s =
    incident-Lawful body.motor.incident_type _ (λ i. drafted-Lawful now fresh customer body i db s)

updated-Signed :
    (u : DraftUpdate) (incident : Option IncidentType) (policy : Option ℕ) (c : Claim) (db : Db)
    → get_claim c.id db ≡ some c
    → Signed db
    → Signed (put_claim (updated u incident policy c) db)
unfolding updated set_fields
updated-Signed u incident policy c db h s = put_claim-Signed _ db s (s c.id c h)

updated-Lawful :
    (u : DraftUpdate) (policy : Option ℕ) (c : Claim) (db : Db)
    → get_claim c.id db ≡ some c
    → Signed db
    → Lawful (
        with_incident u.motor.incident_type
          (λ incident. committed (put_claim (updated u incident policy c) db)))
updated-Lawful u policy c db h s =
    incident-Lawful u.motor.incident_type _ (λ i. lawful _ (updated-Signed u i policy c db h s))

update_with-Lawful :
    (customer : ℕ) (u : DraftUpdate) (c : Claim) (policy : Option Policy) (db : Db)
    → get_claim c.id db ≡ some c
    → Signed db
    → Lawful (update_with customer u c policy db)
unfolding update_with
update_with-Lawful customer u c policy db h s = needed policy policy_not_found _ (λ (p : Policy).
    guarded (not (p.customer_id == customer)) policy_forbidden _
      (updated-Lawful u (some p.id) c db h s))

pub update-Signed :
    (customer k : ℕ) (u : DraftUpdate) (db : Db) → Signed db → Lawful (update_draft customer k u db)
unfolding update_draft
update-Signed customer k u db s = owned k customer db _ (λ c h.
    elim (Bool-cases (truthy u.policy_number)) [
      | inl e ↦ rw e (update_with-Lawful customer u c _ db h s)
      | inr e ↦ rw e (updated-Lawful u none c db h s)
    ])

-- A changed row, and changed documents.
stored-Signed :
    (docs : List ClaimDocument) (c : Claim) (db : Db)
    → Signed db
    → (c.status ≡ ClaimStatus.approved → signed_off c.id db.audit ≡ true)
    → Signed (put_claim c (record db { documents = docs }))
unfolding get_claim
stored-Signed docs c db s h = put_claim-Signed c (record db { documents = docs }) s h

pub upload-Signed :
    (now : DateTime) (fresh customer k : ℕ) (e : Evidence) (db : Db)
    → Signed db
    → Lawful (upload_evidence now fresh customer k e db)
unfolding upload_evidence get_claim
upload-Signed now fresh customer k e db s = owned k customer db _ (λ c h.
    let stored : Db = record db {
      documents = add_uploads now fresh c.id (uploads_of e) db.documents;
    } in
    let d : Claim = record c { submission_step = max c.submission_step 3 } in
    guarded _ papers_first _ (
      guarded _ licence_required _ (
        guarded _ photo_required _ (
          guarded _ police_report_required _
            (lawful (put_claim d stored) (put_claim-Signed d stored s (s c.id c h)))))))

pub add-Signed :
    (now : DateTime) (fresh customer k : ℕ) (t : Text) (files : List Upload) (db : Db)
    → Signed db
    → Lawful (add_documents now fresh customer k t files db)
unfolding add_documents get_claim
add-Signed now fresh customer k t files db s =
    owned k customer db _ (λ c h. needed _ invalid_type _ (λ dt. lawful _ s))

typed-Lawful :
    (value : Text) (docs : List ClaimDocument) (body : ClaimDocument → Response)
    → ((d : ClaimDocument) → Lawful (body d))
    → Lawful (typed_document value docs body)
unfolding typed_document
typed-Lawful value docs body h =
    needed (parse_type value) invalid_type _ (λ t. needed _ document_not_found body h)

by_type-Lawful :
    (value : Option Text) (docs : List ClaimDocument) (body : ClaimDocument → Response)
    → ((d : ClaimDocument) → Lawful (body d))
    → Lawful (by_type value docs body)
unfolding by_type
by_type-Lawful none docs body h = refused reference_required
by_type-Lawful (some []) docs body h = refused reference_required
by_type-Lawful (some (x ∷ value)) docs body h = typed-Lawful (x ∷ value) docs body h

get_document-Lawful :
    (docs : List ClaimDocument) (j : Option ℕ) (value : Option Text)
    (body : ClaimDocument → Response)
    → ((d : ClaimDocument) → Lawful (body d))
    → Lawful (get_document docs j value body)
unfolding get_document
get_document-Lawful docs none value body h = by_type-Lawful value docs body h
get_document-Lawful docs (some j) value body h = elim (Bool-cases (j == 0)) [
  | inl e ↦ rw e (by_type-Lawful value docs body h)
  | inr e ↦ rw e (needed _ document_not_found body h)
]

replaced-Signed :
    (now : DateTime) (fresh : ℕ) (c : Claim) (old : ClaimDocument) (u : Upload) (db : Db)
    → Signed db
    → Signed (replaced now fresh c old u db)
unfolding replaced get_claim
replaced-Signed now fresh c old u db s =
    let d : Claim = record c { status = ClaimStatus.processing } in
    let docs =
      keep (λ x. not (x.id == old.id)) db.documents ++ (replacement now fresh old u ∷ []) in
    log_audit-Signed c.id evidence_replaced none (put_claim d (record db { documents = docs }))
      (stored-Signed docs d db s (λ e. ground arith))

pub replace-Signed :
    (now : DateTime) (fresh customer k : ℕ) (u : Upload) (j : Option ℕ) (value : Option Text)
    (db : Db)
    → Signed db
    → Lawful (replace_document now fresh customer k u j value db)
unfolding replace_document
replace-Signed now fresh customer k u j value db s = owned k customer db _ (λ c h.
    guarded _ bad_state _ (
      get_document-Lawful (documents_of c.id db) j value _
        (λ old. lawful _ (replaced-Signed now fresh c old u db s))))

-- The analysis of an acknowledged claim leaves its status, or sends it to processing.
reanalyzed-approved :
    (c : Claim) (r : EvidenceAnalysisResult)
    → (reanalyzed c r).status ≡ ClaimStatus.approved
    → c.status ≡ ClaimStatus.approved
unfolding reanalyzed
reanalyzed-approved c r h = elim (Bool-cases r.evidence_mismatch) [
  | inl e ↦ rw e at h
  | inr e ↦ let never = rw e at h in ground arith
]

reanalyzed-id : (c : Claim) (r : EvidenceAnalysisResult) → (reanalyzed c r).id ≡ c.id
unfolding reanalyzed
reanalyzed-id c r = elim (Bool-cases r.evidence_mismatch) [ inl e ↦ rw e | inr e ↦ rw e ]

acknowledged-Signed :
    (v : Readers) (c : Claim) (doc : ClaimDocument) (db : Db)
    → get_claim c.id db ≡ some c
    → Signed db
    → Signed (acknowledged v c doc db)
unfolding acknowledged get_claim analyze_evidence
acknowledged-Signed v c doc db h s =
    let marked : Db = record db { documents = map (mark doc.id) db.documents } in
    let (r, read) = analyze_evidence v marked c in
    log_audit-Signed c.id evidence_acknowledged none (put_claim (reanalyzed c r) read) (
      stored-Signed read.documents (reanalyzed c r) db s
        (λ a. rw (reanalyzed-id c r) (s c.id c h (reanalyzed-approved c r a))))

pub acknowledge-Signed :
    (v : Readers) (customer k j : ℕ) (db : Db)
    → Signed db
    → Lawful (acknowledge_document v customer k j db)
unfolding acknowledge_document
acknowledge-Signed v customer k j db s = owned k customer db _ (λ c h. guarded _ bad_state _ (
    get_document-Lawful (documents_of c.id db) (some j) none _
      (λ doc. lawful _ (acknowledged-Signed v c doc db h s))))
