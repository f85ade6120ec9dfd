-- ===== src/Pipeline/Finalize/Laws.antt =====
-- What a finished pipeline leaves in the database.
use mathlib.Core.Path.{ap, subst, ◌∙◌}
use insurance_claim_approval.Prelude.{
  ℕ, ◌≤◌, ◌≡◌, refl, ◌≢◌, sym, ◌↔◌, inl, inr, Bool, true, false, Option, none, some, List, arith,
  or_else, is_empty, Bool-cases, Option-cases, if◌then◌else◌,
}
use insurance_claim_approval.Schema.Status.{ClaimStatus}
use insurance_claim_approval.Schema.Claim.{Claim}
use insurance_claim_approval.Schema.Policy.{Policy}
use insurance_claim_approval.Schema.Outcome.{
  Merged, ClaimDecision, PayoutResult, ReviewReason, parallel_analysis_complete,
}
use insurance_claim_approval.Schema.Db.{
  Db, get_claim, put_claim, find_decision, find_claim-put_row_self, get_claim-id, put_claim-get,
  find_decision-id, find_decision-put_at, policy_of, documents_of, log_audit, publish,
  decision_engine, running,
}
use insurance_claim_approval.Decision.{DecisionInput, DecisionResult, decide}
use insurance_claim_approval.Decision.Routes.{decide-complete_iff, decide-ne-approved}
use insurance_claim_approval.Escalation.{EscalationResult}
use insurance_claim_approval.Escalation.Laws.{IsUnflagged, evaluate-IsUnflagged}
use insurance_claim_approval.Experts.{assign_least_loaded_expert}
use insurance_claim_approval.Experts.Effect.{HasStatus, assign-HasStatus, assign-decisions}
use insurance_claim_approval.Pipeline.Merge.{merge, decision_input}
use insurance_claim_approval.Pipeline.Persist.{
  ExplainabilityResult, persist_decision, compute_analysis_fields, filled, new_decision,
}
use insurance_claim_approval.Pipeline.Finalize.{
  settle, close, escalation_of, Services, Final, finished, not_found, finalize_claim,
  record_decision, assessed, amount_limit, to_queue, publish_payout, payout_of, annotated,
  add_review, notify, is_notified,
}

-- The decision on claim `k` has the status `s` and pays nothing.
abbrev pub HasDecision : ℕ → ClaimStatus → Db → Type 0
HasDecision k s db =
    (d : ClaimDecision) × (find_decision k db.decisions ≡ some d)
    × (d.status ≡ s)
    × (d.payable_amount ≡ 0)

old_decision-id :
    (k : ℕ) (ds : List ClaimDecision) → (or_else (find_decision k ds) (new_decision k)).claim_id ≡ k
old_decision-id k ds = elim (Option-cases (find_decision k ds)) [
  | inl e ↦ rw e
  | inr (d, e) ↦ rw e (find_decision-id k d ds e)
]

persist_decision-HasStatus :
    (db : Db) (c e : Claim) (s : ClaimStatus) (r : ExplainabilityResult) (review : Bool)
    (breakdown : Option PayoutResult)
    → get_claim c.id db ≡ some e
    → get_claim c.id (persist_decision db c s r 0 review breakdown) ≡ some (record c { status = s })
unfolding persist_decision get_claim put_claim
persist_decision-HasStatus db c e s r review breakdown h =
    find_claim-put_row_self (record c { status = s }) e db.claims h

persist_decision-HasDecision :
    (db : Db) (c : Claim) (s : ClaimStatus) (r : ExplainabilityResult) (review : Bool)
    (breakdown : Option PayoutResult)
    → HasDecision c.id s (persist_decision db c s r 0 review breakdown)
unfolding persist_decision put_claim compute_analysis_fields filled
persist_decision-HasDecision db c s r review breakdown =
    let own = old_decision-id c.id db.decisions in
    (_, find_decision-put_at c.id _ db.decisions own, refl, refl)

to_queue-HasStatus :
    (v : Services) (k : ℕ) (c : Claim) (db : Db)
    → get_claim k db ≡ some c
    → HasStatus k c.status (to_queue v k db)
unfolding to_queue
to_queue-HasStatus v k c db h =
    let own = get_claim-id k c db h in
    let found = subst (λ j. get_claim j db ≡ some c) (sym own) h in
    rw (h, to_queue)
      (subst (λ j. HasStatus j c.status (assign_least_loaded_expert v.now c db).1) own
        (assign-HasStatus v.now c db found))

to_queue-decisions : (v : Services) (k : ℕ) (db : Db) → (to_queue v k db).decisions ≡ db.decisions
unfolding to_queue
to_queue-decisions v k db = elim (Option-cases (get_claim k db)) [
  | inl e ↦ rw (e, to_queue)
  | inr (c, e) ↦ rw (e, to_queue) (assign-decisions v.now c db)
]

-- The claim and its decision, which finishing leaves behind.
abbrev pub Settled : ℕ → ClaimStatus → Db → Type 0
Settled k s db = HasStatus k s db × HasDecision k s db

payout-zero :
    (v : Services) (c : Claim) (i : DecisionInput) (m : Merged) (p : Option Policy)
    → payout_of v c p m (decide i).status ≡ (0, none)
unfolding payout_of decide
payout-zero v c i m p = ground arith

notify-Settled :
    (j k : ℕ) (s t : ClaimStatus) (db : Db) → Settled k s db → Settled k s (notify j t db)
unfolding notify get_claim
notify-Settled j k s t db h = elim (Bool-cases (is_notified t)) [
  | inl e ↦ rw (e, notify) h
  | inr e ↦ rw (e, notify) h
]

add_review-Settled :
    (j k : ℕ) (s : ClaimStatus) (r : ReviewReason) (b : Bool) (db : Db)
    → Settled k s db
    → Settled k s (if b then add_review j r db else db)
unfolding add_review get_claim
add_review-Settled j k s r true db h = h
add_review-Settled j k s r false db h = h

publish_payout-claim :
    (k : ℕ) (s : ClaimStatus) (db : Db) → get_claim k (publish_payout k s db) ≡ get_claim k db
unfolding publish_payout get_claim
publish_payout-claim k s db = ground arith

-- The persisted state: the claim with its new status, and its decision.
abbrev Written : Claim → ClaimStatus → Db → Type 0
Written c s db = (get_claim c.id db ≡ some (record c { status = s })) × HasDecision c.id s db

settle-Written :
    (v : Services) (c e : Claim) (i : DecisionInput) (m : Merged) (db : Db)
    → get_claim c.id db ≡ some e
    → Written c (decide i).status (settle v c (decide i) m db)
unfolding settle
settle-Written v c e i m db h =
    let s = (decide i).status in
    let found = put_claim-get c e db h in
    rw (payout-zero v c i m (policy_of c db), settle)
      (
        persist_decision-HasStatus _ c c s _ _ _
            (publish_payout-claim c.id s (put_claim c db) ∙ found),
        persist_decision-HasDecision _ c s _ _ _,
      )

close-Settled :
    (v : Services) (c : Claim) (d : DecisionResult) (e : EscalationResult) (m : Merged) (db : Db)
    → get_claim c.id db ≡ some c
    → HasDecision c.id c.status db
    → Settled c.id c.status (close v c.id d e m db)
unfolding close get_claim
close-Settled v c d e m db h r =
    let queued : Settled c.id c.status (to_queue v c.id db) =
      (to_queue-HasStatus v c.id c db h, rw (to_queue-decisions v c.id db) r) in
    notify-Settled c.id c.id c.status d.status _
      (add_review-Settled c.id c.id c.status _ d.human_review_required _ queued)

record_decision-Settled :
    (v : Services) (c : Claim) (i : DecisionInput) (m : Merged) (db : Db)
    → get_claim c.id db ≡ some c
    → Settled c.id (decide i).status (record_decision v c i m db)
unfolding record_decision annotated
record_decision-Settled v c i m db h =
    let w = settle-Written v (annotated c (escalation_of i) m) c i m db h in
    close-Settled v _ (decide i) (escalation_of i) m _ w.0 w.1

-- The database when `finalize_claim` asks the decision engine.
abbrev pub audited : ℕ → List Merged → Db → Db
audited k results db =
    log_audit k parallel_analysis_complete (some (merge results))
      (publish k decision_engine running db)

-- The outcome for a claim that is found.
abbrev pub Concluded : Services → Claim → List Merged → Db → Final → Db → Type 0
Concluded v c results db f db' =
    let db1 = audited c.id results db in
    let (i, m) = assessed v c db1 (merge results) in
    (f.status ≡ (decide i).status)
    × (f.payable_amount ≡ 0)
    × (f.human_review_required ≡ (decide i).human_review_required)
    × (db' ≡ record_decision v c i m db1)

pub finalize_claim-Concluded :
    (v : Services) (c : Claim) (results : List Merged) (db : Db) (f : Final)
    → get_claim c.id db ≡ some c
    → (finalize_claim v c.id results db).0 ≡ finished f
    → Concluded v c results db f (finalize_claim v c.id results db).1
unfolding finalize_claim get_claim
finalize_claim-Concluded v c results db f h e =
    let e' = rw (h, finalize_claim) at e in
    let (i, m) = assessed v c (audited c.id results db) (merge results) in
    let paid = payout-zero v c i m (policy_of c (audited c.id results db)) in
    let e2 = rw paid at e' in (cc, cc, cc, rw (h, finalize_claim))

-- Whatever the stages found, a finished claim and its decision have the status that is returned,
-- which is not APPROVED, and nothing is paid.
pub finalize_claim-Settled :
    (v : Services) (c : Claim) (results : List Merged) (db : Db) (f : Final)
    → get_claim c.id db ≡ some c
    → (finalize_claim v c.id results db).0 ≡ finished f
    → (f.status ≢ ClaimStatus.approved)
      × (f.payable_amount ≡ 0)
      × Settled c.id f.status (finalize_claim v c.id results db).1
unfolding get_claim
finalize_claim-Settled v c results db f h e =
    let db1 = audited c.id results db in
    let (i, m) = assessed v c db1 (merge results) in
    let (same, none_paid, _, after) = finalize_claim-Concluded v c results db f h e in
    (
      λ approved. decide-ne-approved i (sym same ∙ approved),
      none_paid,
      rw (after, same) (record_decision-Settled v c i m db1 h),
    )

some-ne-none : (c : Claim) → some c ≢ none
some-ne-none c h = cc

-- A claim is reported as not found exactly when it is not in the database, and then no row but a
-- progress event is written.
finalize_claim-not_found_iff :
    (v : Services) (k : ℕ) (results : List Merged) (db : Db)
    → (((finalize_claim v k results db).0 ≡ not_found) ↔ (get_claim k db ≡ none))
      × (get_claim k db ≡ none
          → (finalize_claim v k results db).1 ≡ publish k decision_engine running db)
unfolding finalize_claim get_claim
finalize_claim-not_found_iff v k results db = elim (Option-cases (get_claim k db)) [
  | inl e ↦ ((λ _. e, λ _. rw (e, finalize_claim)), λ _. rw (e, finalize_claim))
  | inr (c, e) ↦ (
    (λ h. let h' = rw (e, finalize_claim) at h in cc, λ n. absurd (some-ne-none c (sym e ∙ n))),
    λ n. absurd (some-ne-none c (sym e ∙ n)),
  )
]

-- What is known of a claim whose analysis is completed without a person.
pub record FastPath (v : Services) (c : Claim) (db : Db) (m : Merged) : Type 0 where
  pub unflagged : IsUnflagged v.settings c (policy_of c db) (documents_of c.id db) m
  pub within_limit : c.claim_amount ≤ amount_limit v.settings m.customer_trust
  pub in_force : or_else m.policy_expired false ≡ false
  pub premium_paid : or_else m.premium_unpaid false ≡ false
  pub covered : or_else m.incident_excluded false ≡ false
  pub documented : or_else m.evidence_missing false ≡ false

-- A claim whose analysis is completed without a person raises no escalation flag, is within the
-- amount limit of its customer's trust tier, and has a policy in force, a paid premium, a covered
-- incident and its evidence, as far as the stages report them.
pub assessed-FastPath :
    (v : Services) (c : Claim) (db : Db) (m : Merged)
    → (decide (assessed v c db m).0).status ≡ ClaimStatus.analysis_complete
    → FastPath v c db (assessed v c db m).1
unfolding assessed decision_input
assessed-FastPath v c db m h =
    let clear = (decide-complete_iff (assessed v c db m).0).0 h in
    record {
      unflagged =
          evaluate-IsUnflagged v.settings c (policy_of c db) (documents_of c.id db)
            (v.aligned c (assessed v c db m).1) _ (ap is_empty clear.unflagged);
      within_limit = clear.within_limit;
      in_force = clear.in_force;
      premium_paid = clear.premium_paid;
      covered = clear.covered;
      documented = clear.documented;
    }

-- What `finalize_claim` returns for a claim that is found.
abbrev final_of : Services → Claim → List Merged → Db → Final
final_of v c results db =
    let db1 = audited c.id results db in
    let (i, m) = assessed v c db1 (merge results) in
    record {
      status = (decide i).status;
      payable_amount = (payout_of v c (policy_of c db1) m (decide i).status).0;
      confidence_score = i.confidence_score;
      human_review_required = (decide i).human_review_required;
    }

pub finalize_claim-total :
    (v : Services) (c : Claim) (results : List Merged) (db : Db)
    → get_claim c.id db ≡ some c
    → (f : Final) × ((finalize_claim v c.id results db).0 ≡ finished f)
      × (f.status ≡ (decide (assessed v c (audited c.id results db) (merge results)).0).status)
unfolding finalize_claim get_claim
finalize_claim-total v c results db h = (final_of v c results db, rw (h, finalize_claim), refl)
