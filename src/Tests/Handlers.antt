-- ===== src/Tests/Handlers.antt =====
-- The handlers on a small database.
use insurance_claim_approval.Prelude.{◌≡◌, refl, ◌⊎◌, false, none, some, [], ◌∷◌}
use insurance_claim_approval.Prelude.Text.{codes, text_eq, upper, strip}
use insurance_claim_approval.Schema.Status.{ClaimStatus, DocumentType}
use insurance_claim_approval.Schema.Claim.{Claim}
use insurance_claim_approval.Schema.Db.{Db, get_claim, find_claim, documents_of}
use insurance_claim_approval.Kyc.{is_kyc_verified}
use insurance_claim_approval.Experts.Effect.{HasStatus}
use insurance_claim_approval.Documents.{
  normalize_requested_documents, normalize_from, item_of, standard_documents,
}
use insurance_claim_approval.Workflow.{
  Response, committed, raised, Consultation, advice_of, agent_submit_consultation, InsurerDecision,
  verdict_of, insurer_submit_decision, submit_draft_claim, validate_submit_gates, reject_if, need,
}
use insurance_claim_approval.Workflow.Transitions.{
  IsComplete, IsOpen, IsAdvised, insurer_verdict, consultation_outcome, submission_gates,
}
use insurance_claim_approval.Tests.Data.{claim, expert, db, on_day}

abbrev outcome : Response → Db
outcome (committed d) = d
outcome (raised e) = db

abbrev with_claim : Claim → Db
with_claim c = record db { claims = c ∷ [] }

abbrev handed : Db
handed = with_claim (record claim { status = ClaimStatus.submitted_to_insurer })

abbrev approval : InsurerDecision
approval = record { action = codes "approved"; payable_amount = none; notes = [] }

abbrev concluded : Db
concluded = outcome (insurer_submit_decision (codes "Eve") 7 approval handed)

concludes_it : insurer_submit_decision (codes "Eve") 7 approval handed ≡ committed concluded
unfolding insurer_submit_decision get_claim find_claim verdict_of text_eq upper need reject_if
concludes_it = refl

insurer_verdict_example :
    HasStatus 7 ClaimStatus.submitted_to_insurer handed
    × (((upper (codes "approved") ≡ codes "APPROVED") × HasStatus 7 ClaimStatus.approved concluded)
        ⊎ ((upper (codes "approved") ≡ codes "REJECTED")
            × HasStatus 7 ClaimStatus.rejected concluded))
insurer_verdict_example = insurer_verdict (codes "Eve") 7 approval handed concluded concludes_it

abbrev reviewed : Db
reviewed =
    with_claim (record claim { status = ClaimStatus.pending_review; assigned_agent_id = some 2 })

abbrev wish : Consultation
wish = record {
  action = codes "needs_improvement";
  reviewer_notes = codes "A clearer photo";
  requested_documents = codes "damage_photo" ∷ [];
}

abbrev advised : Db
advised = outcome (agent_submit_consultation expert 7 wish reviewed)

advises_it : agent_submit_consultation expert 7 wish reviewed ≡ committed advised
unfolding agent_submit_consultation get_claim find_claim advice_of text_eq upper need reject_if
    normalize_requested_documents normalize_from item_of standard_documents strip
advises_it = refl

consultation_outcome_example :
    ((c : Claim) × (get_claim 7 reviewed ≡ some c)
      × (c.assigned_agent_id ≡ some expert.id)
      × IsOpen c.status)
    × IsAdvised 7 wish.action (normalize_requested_documents wish.requested_documents) advised
consultation_outcome_example = consultation_outcome expert 7 wish reviewed advised advises_it

abbrev drafted : Db
drafted = record (with_claim (record claim { status = ClaimStatus.draft })) {
  documents =
      record {
        id = 1;
        claim_id = 7;
        doc_type = DocumentType.driver_license;
        original_filename = codes "dl.pdf";
        checksum = codes "a";
        ocr_text = none;
        acknowledged = false;
        created_at = on_day 2026 3 2;
      }
      ∷ record {
        id = 2;
        claim_id = 7;
        doc_type = DocumentType.damage_photo;
        original_filename = codes "car.jpg";
        checksum = codes "b";
        ocr_text = none;
        acknowledged = false;
        created_at = on_day 2026 3 2;
      }
      ∷ [];
}

abbrev submitted : Db
submitted = outcome (submit_draft_claim 1 7 drafted)

submits_it : submit_draft_claim 1 7 drafted ≡ committed submitted
unfolding submit_draft_claim get_claim find_claim validate_submit_gates documents_of is_kyc_verified
    need reject_if
submits_it = refl

submission_gates_example :
    ((c : Claim) × (get_claim 7 drafted ≡ some c) × (c.customer_id ≡ 1) × IsComplete c drafted)
    × HasStatus 7 ClaimStatus.pending submitted
submission_gates_example = submission_gates 1 7 drafted submitted submits_it
