-- ===== src/Tests/Forms.antt =====
-- The handlers of drafts and documents on a small database.
use insurance_claim_approval.Prelude.{
  min, ◌≡◌, map, length, count_if, refl, Bool, true, false, not, ◌&&◌, none, some, List, [], ◌∷◌,
  if◌then◌else◌, is_empty,
}
use insurance_claim_approval.Prelude.Text.{Text, codes}
use insurance_claim_approval.Schema.Status.{ClaimStatus, DocumentType, other_document}
use insurance_claim_approval.Schema.Claim.{Claim, ClaimDocument}
use insurance_claim_approval.Schema.Db.{
  Db, Event, evidence_analysis, running, completed, get_claim, find_claim, documents_of,
}
use insurance_claim_approval.Experts.Effect.{HasStatus}
use insurance_claim_approval.Workflow.{Response, committed, raised, reject_if, need}
use insurance_claim_approval.Workflow.Papers.{Upload}
use insurance_claim_approval.Workflow.EvidenceService.{is_editable, get_document, replace_document}
use insurance_claim_approval.Workflow.PaperTransitions.{
  IsEditable, IsReplaced, replace_document_outcome,
}
use insurance_claim_approval.Progress.{limit, get_history}
use insurance_claim_approval.Progress.Laws.{
  latest, of_claim, publish_all, published, stored, get_history-published,
}
use insurance_claim_approval.Mdm.Matching.Connected.{Among}
use insurance_claim_approval.Documents.{normalize_requested_documents}
use insurance_claim_approval.Documents.Fulfilment.{
  FulfilledItem, since, docs_of, is_custom_item, build_requested_document_items,
}
use insurance_claim_approval.Documents.Fulfilment.Laws.{
  is_custom_fulfilled, build_requested_document_items-fulfilled,
}
use insurance_claim_approval.Tests.Data.{claim, db, on_day}

abbrev claim_in : ClaimStatus → Db
claim_in s = record db { claims = record claim { status = s } ∷ [] }

abbrev photo : ClaimDocument
photo = record {
  id = 31;
  claim_id = 7;
  doc_type = DocumentType.damage_photo;
  original_filename = codes "a.jpg";
  checksum = codes "c1";
  ocr_text = none;
  acknowledged = false;
  created_at = on_day 2026 3 1;
}

abbrev pictured : Db
pictured = record (claim_in ClaimStatus.pending_review) { documents = photo ∷ [] }

abbrev sharper : Upload
sharper = record { filename = codes "b.jpg"; checksum = codes "c2"; text = codes "bumper" }

abbrev outcome_of : Response → Db
outcome_of (committed d) = d
outcome_of (raised e) = db

abbrev replaced_db : Db
replaced_db =
    outcome_of
      (replace_document (on_day 2026 3 3) 32 claim.customer_id 7 sharper (some 31) none pictured)

replaces_it :
    replace_document (on_day 2026 3 3) 32 claim.customer_id 7 sharper (some 31) none pictured
    ≡ committed replaced_db
unfolding replace_document get_claim find_claim get_document documents_of need reject_if is_editable
replaces_it = refl

replace_document_outcome_example :
    ((c : Claim) × (get_claim 7 pictured ≡ some c)
      × (c.customer_id ≡ claim.customer_id)
      × IsEditable c.status)
    × HasStatus 7 ClaimStatus.processing replaced_db
    × IsReplaced (on_day 2026 3 3) 32 7 sharper (some 31) none pictured replaced_db
replace_document_outcome_example =
    replace_document_outcome (on_day 2026 3 3) 32 claim.customer_id 7 sharper (some 31) none
      pictured replaced_db replaces_it

abbrev started : Event
started = record { claim_id = 7; step = evidence_analysis; phase = running }

abbrev ended : Event
ended = record { claim_id = 7; step = evidence_analysis; phase = completed }

-- The second event does not reach the database.
abbrev broken_log : List (Bool × Event)
broken_log = (false, ended) ∷ (true, started) ∷ []

get_history-published_example : get_history [] true 7 (publish_all broken_log) ≡ (
    if true && not (is_empty (of_claim 7 (stored broken_log)))
    then limit 100 (of_claim 7 (stored broken_log))
    else latest 100 (of_claim 7 (published broken_log)))
get_history-published_example = get_history-published broken_log true 7

abbrev wishes : List Text
wishes = codes "police_report" ∷ codes " " ∷ codes "POLICE_REPORT" ∷ codes "Garage photo" ∷ []

build_requested_document_items-fulfilled_example :
    (map (λ i. i.spec) (build_requested_document_items wishes pictured.documents none)
      ≡ normalize_requested_documents wishes)
    × ((i : FulfilledItem)
        → Among i (build_requested_document_items wishes pictured.documents none)
        → is_custom_item i.spec ≡ false
        → i.fulfilled
          ≡ not (is_empty (docs_of i.spec.document_type (since none pictured.documents))))
    × (count_if is_custom_fulfilled (build_requested_document_items wishes pictured.documents none)
        ≡ min
            (count_if is_custom_item (normalize_requested_documents wishes))
            (length (docs_of other_document (since none pictured.documents))))
build_requested_document_items-fulfilled_example =
    build_requested_document_items-fulfilled wishes pictured.documents none (refl, tt)
