-- ===== src/Pipeline/Finalize/Approvals.antt =====
-- The pipeline approves no claim.
use mathlib.Core.Path.{subst, sym}
use insurance_claim_approval.Prelude.{
  ℕ, ◌≡◌, ◌≢◌, inl, inr, Bool, true, false, Option, none, some, List, Bool-cases, Option-cases,
  if◌then◌else◌,
}
use insurance_claim_approval.Schema.Status.{ClaimStatus}
use insurance_claim_approval.Schema.Claim.{Claim}
use insurance_claim_approval.Schema.Outcome.{
  Merged, PayoutResult, ReviewReason, parallel_analysis_complete, decision_generated,
}
use insurance_claim_approval.Schema.Db.{
  Db, get_claim, get_claim-id, log_audit, publish, decision_engine, running,
}
use insurance_claim_approval.Schema.Approvals.{Signed, put_claim-Signed, log_audit-Signed}
use insurance_claim_approval.Experts.Effect.{assign-Signed}
use insurance_claim_approval.Decision.{DecisionInput, DecisionResult, decide}
use insurance_claim_approval.Decision.Routes.{decide-ne-approved}
use insurance_claim_approval.Escalation.{EscalationResult}
use insurance_claim_approval.Pipeline.Merge.{merge}
use insurance_claim_approval.Pipeline.Persist.{ExplainabilityResult, persist_decision}
use insurance_claim_approval.Pipeline.Finalize.{
  Services, finalize_claim, record_decision, assessed, settle, close, escalation_of, annotated,
  to_queue, publish_payout, add_review, notify, is_notified, review_reason, trust_note,
}

persist_decision-Signed :
    (db : Db) (c : Claim) (s : ClaimStatus) (r : ExplainabilityResult) (payable : ℕ) (review : Bool)
    (breakdown : Option PayoutResult)
    → s ≢ ClaimStatus.approved
    → Signed db
    → Signed (persist_decision db c s r payable review breakdown)
unfolding persist_decision get_claim
persist_decision-Signed db c s r payable review breakdown ne h =
    put_claim-Signed (record c { status = s }) _ h (λ e. absurd (ne e))

publish_payout-Signed :
    (k : ℕ) (s : ClaimStatus) (db : Db) → Signed db → Signed (publish_payout k s db)
unfolding publish_payout get_claim
publish_payout-Signed k ClaimStatus.approved db h = h
publish_payout-Signed k ClaimStatus.pending_review db h = h
publish_payout-Signed k _ db h = h

to_queue-Signed : (v : Services) (k : ℕ) (db : Db) → Signed db → Signed (to_queue v k db)
unfolding to_queue
to_queue-Signed v k db s = elim (Option-cases (get_claim k db)) [
  | inl e ↦ rw (e, to_queue) s
  | inr (c, e) ↦
      let own = get_claim-id k c db e in
      rw (e, to_queue)
        (assign-Signed v.now c db (subst (λ j. get_claim j db ≡ some c) (sym own) e) s)
]

notify-Signed : (k : ℕ) (s : ClaimStatus) (db : Db) → Signed db → Signed (notify k s db)
unfolding notify get_claim
notify-Signed k s db h = elim (Bool-cases (is_notified s)) [
  | inl e ↦ rw (e, notify) h
  | inr e ↦ rw (e, notify) h
]

add_review-Signed :
    (k : ℕ) (r : ReviewReason) (b : Bool) (db : Db)
    → Signed db
    → Signed (if b then add_review k r db else db)
unfolding add_review get_claim
add_review-Signed k r true db h = h
add_review-Signed k r false db h = h

settle-Signed :
    (v : Services) (c : Claim) (i : DecisionInput) (m : Merged) (db : Db)
    → get_claim c.id db ≡ some c
    → Signed db
    → Signed (settle v (annotated c (escalation_of i) m) (decide i) m db)
unfolding settle annotated
settle-Signed v c i m db h s =
    let c' = annotated c (escalation_of i) m in
    persist_decision-Signed _ _ _ _ _ _ _ (decide-ne-approved i)
      (publish_payout-Signed c.id (decide i).status _ (put_claim-Signed c' db s (s c.id c h)))

close-Signed :
    (v : Services) (k : ℕ) (d : DecisionResult) (e : EscalationResult) (m : Merged) (db : Db)
    → Signed db
    → Signed (close v k d e m db)
unfolding close get_claim
close-Signed v k d e m db s =
    let queued = to_queue v k db in
    let reason = review_reason d e (trust_note v.settings m.customer_trust) in
    let db1 = if d.human_review_required then add_review k reason queued else queued in
    let reviewed = add_review-Signed k reason d.human_review_required queued in
    notify-Signed k d.status _
      (log_audit-Signed k decision_generated none db1 (reviewed (to_queue-Signed v k db s)))

record_decision-Signed :
    (v : Services) (c : Claim) (i : DecisionInput) (m : Merged) (db : Db)
    → get_claim c.id db ≡ some c
    → Signed db
    → Signed (record_decision v c i m db)
unfolding record_decision
record_decision-Signed v c i m db h s =
    close-Signed v c.id (decide i) (escalation_of i) m _ (settle-Signed v c i m db h s)

-- Finishing a claim, whatever its stages found, approves no claim: what is approved afterwards was
-- signed off by the insurer.
pub finalize_claim-Signed :
    (v : Services) (k : ℕ) (results : List Merged) (db : Db)
    → Signed db
    → Signed (finalize_claim v k results db).1
unfolding finalize_claim get_claim
finalize_claim-Signed v k results db s = elim (Option-cases (get_claim k db)) [
  | inl e ↦ rw (e, finalize_claim) s
  | inr (c, e) ↦
      let own = get_claim-id k c db e in
      let db1 =
        log_audit k parallel_analysis_complete (some (merge results))
          (publish k decision_engine running db) in
      let audited =
        log_audit-Signed k parallel_analysis_complete (some (merge results))
          (publish k decision_engine running db) s in
      let found = subst (λ j. get_claim j db ≡ some c) (sym own) e in
      let (i, m) = assessed v c db1 (merge results) in
      rw (e, finalize_claim) (record_decision-Signed v c i m db1 found audited)
]
