-- ===== src/Workflow/EvidenceService.antt =====
-- backend/services/evidence_service.py: a document is replaced, or acknowledged as it is.
use insurance_claim_approval.Prelude.{
  ℕ, ◌+◌, Bool, true, false, not, Option, none, some, List, [], ◌∷◌, ◌++◌, map, ◌==◌, leb,
  if◌then◌else◌, find_first, keep,
}
use insurance_claim_approval.Prelude.Text.{Text, text_eq}
use insurance_claim_approval.Prelude.Time.{DateTime, stamp}
use insurance_claim_approval.Schema.Status.{ClaimStatus}
use insurance_claim_approval.Schema.Claim.{Claim, ClaimDocument}
use insurance_claim_approval.Schema.Outcome.{evidence_replaced, evidence_acknowledged}
use insurance_claim_approval.Schema.Db.{Db, get_claim, put_claim, log_audit, documents_of}
use insurance_claim_approval.Evidence.{Readers, EvidenceAnalysisResult, analyze_evidence}
use insurance_claim_approval.Workflow.{
  Response, raised, committed, reject_if, need, when_owned, bad_state, document_not_found,
  invalid_type, reference_required,
}
use insurance_claim_approval.Workflow.Papers.{Upload, parse_type, type_value}

-- `ALLOWED_STATUSES`
unfoldable pub is_editable : ClaimStatus → Bool
is_editable ClaimStatus.pending_review = true
is_editable ClaimStatus.request_more_info = true
is_editable ClaimStatus.processing = true
is_editable _ = false

-- `sorted(matches, key=created_at)[-1]`: the sort is stable.
unfoldable pub latest : ClaimDocument → List ClaimDocument → ClaimDocument
latest d [] = d
latest d (e ∷ es) = latest (if leb (stamp d.created_at) (stamp e.created_at) then e else d) es

unfoldable pub latest_of : List ClaimDocument → Option ClaimDocument
unfolding latest
latest_of [] = none
latest_of (d ∷ ds) = some (latest d ds)

unfoldable pub typed_document : Text → List ClaimDocument → (ClaimDocument → Response) → Response
unfolding need latest_of
typed_document value docs body = need (parse_type value) invalid_type (λ t.
    need (latest_of (keep (λ d. text_eq (type_value d.doc_type) (type_value t)) docs))
      document_not_found body)

-- `if doc_type: …`
unfoldable pub by_type : Option Text → List ClaimDocument → (ClaimDocument → Response) → Response
unfolding typed_document
by_type none docs body = raised reference_required
by_type (some []) docs body = raised reference_required
by_type (some (x ∷ value)) docs body = typed_document (x ∷ value) docs body

-- `_get_document`: an id of 0 is none.
unfoldable pub get_document :
    List ClaimDocument → Option ℕ → Option Text → (ClaimDocument → Response) → Response
unfolding by_type need
get_document docs none doc_type body = by_type doc_type docs body
get_document docs (some j) doc_type body =
    if j == 0
    then by_type doc_type docs body
    else need (find_first (λ d. d.id == j) docs) document_not_found body

unfoldable pub replacement : DateTime → ℕ → ClaimDocument → Upload → ClaimDocument
replacement now fresh old u = record old {
  id = fresh;
  original_filename = u.filename;
  checksum = u.checksum;
  ocr_text = some u.text;
  acknowledged = false;
  created_at = now;
}

-- The commit of `replace_document`.
unfoldable pub replaced : DateTime → ℕ → Claim → ClaimDocument → Upload → Db → Db
unfolding replacement
replaced now fresh c old u db = log_audit c.id evidence_replaced none (
    put_claim (record c { status = ClaimStatus.processing })
      (record db {
        documents =
            keep (λ d. not (d.id == old.id)) db.documents ++ (replacement now fresh old u ∷ []);
      }))

-- `replace_document`, up to the start of the run from the evidence step.
unfoldable pub replace_document :
    DateTime → ℕ → ℕ → ℕ → Upload → Option ℕ → Option Text → Db → Response
unfolding reject_if get_document
replace_document now fresh customer k u document_id doc_type db =
    when_owned (get_claim k db) customer (λ c. reject_if (not (is_editable c.status)) bad_state (
      get_document (documents_of c.id db) document_id doc_type
        (λ old. committed (replaced now fresh c old u db))))

unfoldable pub mark : ℕ → ClaimDocument → ClaimDocument
mark j d = if d.id == j then record d { acknowledged = true } else d

-- The claim's row after the second analysis.
unfoldable pub reanalyzed : Claim → EvidenceAnalysisResult → Claim
reanalyzed c r =
    let seen : Claim = record c {
      evidence_mismatch = r.evidence_mismatch;
      evidence_issues = r.evidence_issues;
    } in
    if r.evidence_mismatch
    then seen
    else record seen { status = ClaimStatus.processing; pipeline_run_id = c.pipeline_run_id + 1 }

-- The commit of `acknowledge_document`.
unfoldable pub acknowledged : Readers → Claim → ClaimDocument → Db → Db
unfolding mark reanalyzed
acknowledged v c doc db =
    let marked : Db = record db { documents = map (mark doc.id) db.documents } in
    let (r, read) = analyze_evidence v marked c in
    log_audit c.id evidence_acknowledged none (put_claim (reanalyzed c r) read)

-- `acknowledge_document`, up to the start of the run from the evidence step.
unfoldable pub acknowledge_document : Readers → ℕ → ℕ → ℕ → Db → Response
unfolding reject_if get_document
acknowledge_document v customer k j db = when_owned (get_claim k db) customer (λ c.
    reject_if (not (is_editable c.status)) bad_state (
      get_document (documents_of c.id db) (some j) none
        (λ doc. committed (acknowledged v c doc db))))
