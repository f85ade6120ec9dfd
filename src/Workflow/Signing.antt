-- ===== src/Workflow/Signing.antt =====
-- The handlers that move a claim approve none but by the insurer's decision.

use insurance_claim_approval.Prelude.{
  is_empty, not, ℕ, ◌≡◌, Bool, true, false, ◌&&◌, Option, none, some, List, arith,
}
use insurance_claim_approval.Prelude.Text.{Text}
use insurance_claim_approval.Prelude.Time.{DateTime}
use insurance_claim_approval.Schema.Status.{ClaimStatus}
use insurance_claim_approval.Schema.Customer.{PolicyAgent}
use insurance_claim_approval.Schema.Claim.{Claim}
use insurance_claim_approval.Schema.Outcome.{
  insurer_approved, insurer_rejected, sent_to_insurer, expert_consultation, claim_assigned,
  claim_submitted,
}
use insurance_claim_approval.Schema.Approvals.{
  Signed, put_claim-Signed, log_audit-Signed, signed_off-new,
}
use insurance_claim_approval.Schema.Db.{Db, log_audit, get_claim, put_claim}
use insurance_claim_approval.Documents.{RequestedDocument, normalize_requested_documents}
use insurance_claim_approval.Workflow.Lawful.{Lawful, lawful, guarded, needed, owned, taken}
use insurance_claim_approval.Workflow.{
  Consultation, InsurerDecision, consult, decide_claim, assigned, finalize_submit, advised_status,
  Advice, submit_draft_claim, retry_claim_processing, assign_claim_agent, agent_submit_consultation,
  agent_submit_to_insurer, insurer_submit_decision, bad_state, bad_action, documents_required,
  no_agent, agent_not_found, claim_not_found, advice_of, verdict_of, is_consultable, is_improvement,
  is_with_insurer,
}

finalize_submit-Signed : (c : Claim) (db : Db) → Signed db → Signed (finalize_submit c db)
unfolding get_claim put_claim
finalize_submit-Signed c db s =
    let d = record c { status = ClaimStatus.pending; submission_step = 4 } in
    log_audit-Signed c.id claim_submitted none (put_claim d db)
      (put_claim-Signed d db s (λ e. ground arith))

assigned-Signed :
    (now : DateTime) (c : Claim) (a : Text × Option ℕ) (db : Db)
    → get_claim c.id db ≡ some c
    → Signed db
    → Signed (assigned now c a db)
unfolding assigned get_claim put_claim
assigned-Signed now c (label, j) db h s =
    let d = record c {
      assigned_agent = some label;
      assigned_agent_id = j;
      assigned_at = some now;
    } in
    log_audit-Signed c.id claim_assigned none (put_claim d db)
      (put_claim-Signed d db s (s c.id c h))

consult-Signed :
    (agent : PolicyAgent) (c : Claim) (body : Consultation) (a : Advice)
    (docs : List RequestedDocument) (db : Db)
    → Signed db
    → Signed (consult agent c body a docs db)
unfolding consult get_claim put_claim
consult-Signed agent c body a docs db s =
    let d = record c { status = advised_status a } in
    log_audit-Signed c.id expert_consultation none (put_claim d db)
      (put_claim-Signed d db s (λ e. ground arith))

sent-Signed :
    (c : Claim) (db : Db)
    → Signed db
    → Signed (
        log_audit c.id sent_to_insurer none
          (put_claim (record c { status = ClaimStatus.submitted_to_insurer }) db))
sent-Signed c db s =
    let d = record c { status = ClaimStatus.submitted_to_insurer } in
    log_audit-Signed c.id sent_to_insurer none (put_claim d db)
      (put_claim-Signed d db s (λ e. ground arith))

decide_claim-Signed :
    (insurer : Text) (approve : Bool) (body : InsurerDecision) (c : Claim) (db : Db)
    → Signed db
    → Signed (decide_claim insurer approve body c db)
unfolding decide_claim get_claim put_claim
decide_claim-Signed insurer true body c db s =
    let d = record c { status = ClaimStatus.approved } in
    let logged = log_audit c.id insurer_approved none db in
    put_claim-Signed d logged (log_audit-Signed c.id insurer_approved none db s)
      (λ _. signed_off-new c.id none db.audit)
decide_claim-Signed insurer false body c db s =
    let d = record c { status = ClaimStatus.rejected } in
    log_audit-Signed c.id insurer_rejected none (put_claim d db)
      (put_claim-Signed d db s (λ e. ground arith))

pub submit-Signed :
    (customer k : ℕ) (db : Db) → Signed db → Lawful (submit_draft_claim customer k db)
unfolding submit_draft_claim
submit-Signed customer k db s =
    owned k customer db _ (λ c h. guarded _ _ _ (lawful _ (finalize_submit-Signed c db s)))

pub retry-Signed :
    (customer k : ℕ) (db : Db) → Signed db → Lawful (retry_claim_processing customer k db)
unfolding retry_claim_processing
retry-Signed customer k db s = owned k customer db _ (λ c h. guarded _ bad_state _ (
    lawful _
      (put_claim-Signed (record c { status = ClaimStatus.processing }) db s (λ e. ground arith))))

pub assign-Signed :
    (now : DateTime) (customer k : ℕ) (j : Option ℕ) (name : Text) (db : Db)
    → Signed db
    → Lawful (assign_claim_agent now customer k j name db)
unfolding assign_claim_agent
assign-Signed now customer k j name db s = guarded _ no_agent _ (
    owned k customer db _ (λ c h.
      guarded _ bad_state _
        (needed _ agent_not_found _ (λ a. lawful _ (assigned-Signed now c a db h s)))))

pub consultation-Signed :
    (agent : PolicyAgent) (k : ℕ) (body : Consultation) (db : Db)
    → Signed db
    → Lawful (agent_submit_consultation agent k body db)
unfolding agent_submit_consultation
consultation-Signed agent k body db s =
    let docs = normalize_requested_documents body.requested_documents in
    taken k agent.id db _ (λ c. guarded (not (is_consultable c.status)) bad_state _ (
      needed (advice_of body.action) bad_action _ (λ a.
        guarded (is_improvement a && is_empty docs) documents_required _
          (lawful _ (consult-Signed agent c body a docs db s)))))

pub to_insurer-Signed :
    (agent : PolicyAgent) (k : ℕ) (db : Db)
    → Signed db
    → Lawful (agent_submit_to_insurer agent k db)
unfolding agent_submit_to_insurer
to_insurer-Signed agent k db s =
    taken k agent.id db _ (λ c. guarded _ bad_state _ (lawful _ (sent-Signed c db s)))

pub insurer-Signed :
    (insurer : Text) (k : ℕ) (body : InsurerDecision) (db : Db)
    → Signed db
    → Lawful (insurer_submit_decision insurer k body db)
unfolding insurer_submit_decision
insurer-Signed insurer k body db s = needed (get_claim k db) claim_not_found _ (λ c.
    guarded (not (is_with_insurer c.status)) bad_state _ (
      needed (verdict_of body.action) bad_action _
        (λ approve. lawful _ (decide_claim-Signed insurer approve body c db s))))
