-- ===== src/Workflow/Transitions.antt =====
-- What a handler requires of the claim that it commits, and the status that it leaves.
use mathlib.Core.Path.{sym, subst}
use insurance_claim_approval.Prelude.{
  ℕ, ◌≡◌, ◌≢◌, refl, ◌⊎◌, inl, inr, Bool, true, false, ◌&&◌, ◌||◌, not, Option, none, some, List,
  arith, ◌==◌, is_some, is_empty, any_of, find_first, Bool-cases, Option-cases,
}
use insurance_claim_approval.Prelude.Text.{Text, codes, text_eq, upper}
use insurance_claim_approval.Prelude.Order.{text_eq→eq}
use insurance_claim_approval.Schema.Status.{ClaimStatus}
use insurance_claim_approval.Schema.Customer.{PolicyAgent}
use insurance_claim_approval.Schema.Claim.{Claim}
use insurance_claim_approval.Schema.Db.{
  Db, get_claim, put_claim, get_claim-id, documents_of, find_claim-put_row_self,
}
use insurance_claim_approval.Experts.Effect.{HasStatus}
use insurance_claim_approval.Kyc.{is_kyc_verified}
use insurance_claim_approval.Documents.{normalize_requested_documents, RequestedDocument}
use insurance_claim_approval.Workflow.{
  Response, HttpError, raised, committed, reject_if, need, when_assigned, Consultation, Advice,
  make_ready, needs_improvement, continue_review, consult, advice_of, advised_status,
  is_consultable, is_improvement, is_with_insurer, agent_submit_consultation, InsurerDecision,
  verdict_of, verdict_status, decide_claim, insurer_submit_decision, claim_not_found, bad_state,
  bad_action, documents_required, when_owned, validate_submit_gates, finalize_submit,
  submit_draft_claim, is_licence, is_damage_photo, gates_failed,
}

pub reject_if-inv :
    (b : Bool) (e : HttpError) (r : Response) (db : Db)
    → reject_if b e r ≡ committed db
    → (b ≡ false) × (r ≡ committed db)
unfolding reject_if
reject_if-inv true e r db h = cc
reject_if-inv false e r db h = (refl, h)

pub need-inv :
    {A : Type 0} (a : Option A) (e : HttpError) (body : A → Response) (db : Db)
    → need a e body ≡ committed db
    → (x : A) × (a ≡ some x) × (body x ≡ committed db)
unfolding need
need-inv none e body db h = cc
need-inv (some x) e body db h = (x, refl, h)

pub raised-ne : (e : HttpError) (db : Db) → raised e ≢ committed db
raised-ne e db h = cc

when_assigned-inv :
    (c : Option Claim) (agent : ℕ) (body : Claim → Response) (db : Db)
    → when_assigned c agent body ≡ committed db
    → (x : Claim) × (c ≡ some x) × (x.assigned_agent_id ≡ some agent) × (body x ≡ committed db)
when_assigned-inv none agent body db h = cc
when_assigned-inv (some c) agent body db h = elim (Option-cases c.assigned_agent_id) [
  | inl e ↦ absurd (raised-ne claim_not_found db (rw e at h))
  | inr (j, e) ↦ elim (Bool-cases (j == agent)) [
    | inl f ↦ (c, refl, ground arith, rw (e, f) at h)
    | inr f ↦ absurd (raised-ne claim_not_found db (rw (e, f) at h))
  ]
]

pub decide_claim-HasStatus :
    (insurer : Text) (approve : Bool) (body : InsurerDecision) (c : Claim) (db : Db)
    → get_claim c.id db ≡ some c
    → HasStatus c.id (verdict_status approve) (decide_claim insurer approve body c db)
unfolding decide_claim get_claim put_claim
decide_claim-HasStatus insurer approve body c db h =
    (_, find_claim-put_row_self (record c { status = verdict_status approve }) c db.claims h, refl)

pub committed-inj : (db db' : Db) → committed db ≡ committed db' → db ≡ db'
committed-inj db db' h = cc

with_insurer :
    (s : ClaimStatus) → not (is_with_insurer s) ≡ false → s ≡ ClaimStatus.submitted_to_insurer
with_insurer s h = ground arith

verdict_of-some :
    (action : Text) (approve : Bool)
    → verdict_of action ≡ some approve
    → ((upper action ≡ codes "APPROVED") × (approve ≡ true))
      ⊎ ((upper action ≡ codes "REJECTED") × (approve ≡ false))
unfolding verdict_of
verdict_of-some action approve h = elim (Bool-cases (text_eq (upper action) (codes "APPROVED"))) [
  | inl e ↦
      let same = rw e at h in inl (text_eq→eq (upper action) (codes "APPROVED") e, ground arith)
  | inr e ↦ elim (Bool-cases (text_eq (upper action) (codes "REJECTED"))) [
    | inl f ↦
        let same = rw (e, f) at h in
        inr (text_eq→eq (upper action) (codes "REJECTED") f, ground arith)
    | inr f ↦ let never = rw (e, f) at h in ground arith
  ]
]

verdict-HasStatus :
    (k : ℕ) (action : Text) (approve : Bool) (db : Db)
    → verdict_of action ≡ some approve
    → HasStatus k (verdict_status approve) db
    → ((upper action ≡ codes "APPROVED") × HasStatus k ClaimStatus.approved db)
      ⊎ ((upper action ≡ codes "REJECTED") × HasStatus k ClaimStatus.rejected db)
verdict-HasStatus k action true db h now = elim (verdict_of-some action true h) [
  | inl (word, e) ↦ inl (word, now)
  | inr (word, e) ↦ ground arith
]
verdict-HasStatus k action false db h now = elim (verdict_of-some action false h) [
  | inl (word, e) ↦ ground arith
  | inr (word, e) ↦ inr (word, now)
]

-- The insurer's decision is committed only for a claim that was SUBMITTED_TO_INSURER. Either the
-- action is the word APPROVED, in letters of any case, and the claim is then APPROVED, or it is the
-- word REJECTED, and the claim is then REJECTED.
pub insurer_verdict :
    (insurer : Text) (k : ℕ) (body : InsurerDecision) (db db' : Db)
    → insurer_submit_decision insurer k body db ≡ committed db'
    → HasStatus k ClaimStatus.submitted_to_insurer db
      × (((upper body.action ≡ codes "APPROVED") × HasStatus k ClaimStatus.approved db')
          ⊎ ((upper body.action ≡ codes "REJECTED") × HasStatus k ClaimStatus.rejected db'))
unfolding insurer_submit_decision
insurer_verdict insurer k body db db' h =
    let (c, found, h1) = need-inv (get_claim k db) claim_not_found _ db' h in
    let (with, h2) = reject_if-inv (not (is_with_insurer c.status)) bad_state _ db' h1 in
    let (approve, e, h3) = need-inv (verdict_of body.action) bad_action _ db' h2 in
    let own = get_claim-id k c db found in
    let here = subst (λ j. get_claim j db ≡ some c) (sym own) found in
    let after =
      subst (HasStatus c.id (verdict_status approve)) (committed-inj _ db' h3)
        (decide_claim-HasStatus insurer approve body c db here) in
    (
      (c, found, with_insurer c.status with),
      verdict-HasStatus k body.action approve db' e
          (subst (λ j. HasStatus j (verdict_status approve) db') own after),
    )

consult-HasStatus :
    (agent : PolicyAgent) (c : Claim) (body : Consultation) (a : Advice)
    (docs : List RequestedDocument) (db : Db)
    → get_claim c.id db ≡ some c
    → HasStatus c.id (advised_status a) (consult agent c body a docs db)
unfolding consult get_claim put_claim
consult-HasStatus agent c body a docs db h =
    (_, find_claim-put_row_self (record c { status = advised_status a }) c db.claims h, refl)

advice_of-some :
    (action : Text) (a : Advice)
    → advice_of action ≡ some a
    → ((upper action ≡ codes "SUBMISSION_READY") × (a ≡ make_ready))
      ⊎ (((upper action ≡ codes "NEEDS_IMPROVEMENT") × (a ≡ needs_improvement))
          ⊎ ((upper action ≡ codes "CONTINUE_REVIEW") × (a ≡ continue_review)))
unfolding advice_of
advice_of-some action a h = elim (Bool-cases (text_eq (upper action) (codes "SUBMISSION_READY"))) [
  | inl e ↦
      let same = rw e at h in
      inl (text_eq→eq (upper action) (codes "SUBMISSION_READY") e, ground arith)
  | inr e ↦ elim (Bool-cases (text_eq (upper action) (codes "NEEDS_IMPROVEMENT"))) [
    | inl f ↦
        let same = rw (e, f) at h in
        inr (inl (text_eq→eq (upper action) (codes "NEEDS_IMPROVEMENT") f, ground arith))
    | inr f ↦ elim (Bool-cases (text_eq (upper action) (codes "CONTINUE_REVIEW"))) [
      | inl g ↦
          let same = rw (e, f, g) at h in
          inr (inr (text_eq→eq (upper action) (codes "CONTINUE_REVIEW") g, ground arith))
      | inr g ↦ let never = rw (e, f, g) at h in ground arith
    ]
  ]
]

-- How a consultation ends: by the word of the action, in letters of any case.
pub data IsAdvised (k : ℕ) (action : Text) (docs : List RequestedDocument) (db : Db) : Type 0 where
  ready :
      upper action ≡ codes "SUBMISSION_READY"
      → HasStatus k ClaimStatus.submission_ready db
      → IsAdvised k action docs db
  improve :
      upper action ≡ codes "NEEDS_IMPROVEMENT"
      → is_empty docs ≡ false
      → HasStatus k ClaimStatus.request_more_info db
      → IsAdvised k action docs db
  go_on :
      upper action ≡ codes "CONTINUE_REVIEW"
      → HasStatus k ClaimStatus.pending_review db
      → IsAdvised k action docs db

advice-IsAdvised :
    (k : ℕ) (action : Text) (a : Advice) (docs : List RequestedDocument) (db : Db)
    → advice_of action ≡ some a
    → (is_improvement a && is_empty docs) ≡ false
    → HasStatus k (advised_status a) db
    → IsAdvised k action docs db
advice-IsAdvised k action make_ready docs db h asked now =
    elim (advice_of-some action make_ready h) [
      | inl (word, e) ↦ ready word now
      | inr (inl (word, e)) ↦ ground arith
      | inr (inr (word, e)) ↦ ground arith
    ]
advice-IsAdvised k action needs_improvement docs db h asked now =
    elim (advice_of-some action needs_improvement h) [
      | inl (word, e) ↦ ground arith
      | inr (inl (word, e)) ↦ improve word (ground arith) now
      | inr (inr (word, e)) ↦ ground arith
    ]
advice-IsAdvised k action continue_review docs db h asked now =
    elim (advice_of-some action continue_review h) [
      | inl (word, e) ↦ ground arith
      | inr (inl (word, e)) ↦ ground arith
      | inr (inr (word, e)) ↦ go_on word now
    ]

-- The statuses in which an expert advises.
pub data IsOpen : ClaimStatus → Type 0 where
  analysed : IsOpen ClaimStatus.analysis_complete
  in_review : IsOpen ClaimStatus.pending_review
  in_improvement : IsOpen ClaimStatus.request_more_info
  with_human : IsOpen ClaimStatus.human_review

consultable-IsOpen : (s : ClaimStatus) → is_consultable s ≡ true → IsOpen s
consultable-IsOpen ClaimStatus.analysis_complete h = analysed
consultable-IsOpen ClaimStatus.pending_review h = in_review
consultable-IsOpen ClaimStatus.request_more_info h = in_improvement
consultable-IsOpen ClaimStatus.human_review h = with_human
consultable-IsOpen _ h = ground arith

-- A consultation is committed only for a claim that the expert is assigned to and that is
-- ANALYSIS_COMPLETE, PENDING_REVIEW, REQUEST_MORE_INFO or HUMAN_REVIEW. The action
-- SUBMISSION_READY leaves the claim SUBMISSION_READY, NEEDS_IMPROVEMENT asks for at least one
-- document and leaves it REQUEST_MORE_INFO, and CONTINUE_REVIEW leaves it PENDING_REVIEW; there is
-- no other action.
pub consultation_outcome :
    (agent : PolicyAgent) (k : ℕ) (body : Consultation) (db db' : Db)
    → agent_submit_consultation agent k body db ≡ committed db'
    → ((c : Claim) × (get_claim k db ≡ some c)
        × (c.assigned_agent_id ≡ some agent.id)
        × IsOpen c.status)
      × IsAdvised k body.action (normalize_requested_documents body.requested_documents) db'
unfolding agent_submit_consultation
consultation_outcome agent k body db db' h =
    let docs = normalize_requested_documents body.requested_documents in
    let (c, found, mine, h1) = when_assigned-inv (get_claim k db) agent.id _ db' h in
    let (is_ready, h2) = reject_if-inv (not (is_consultable c.status)) bad_state _ db' h1 in
    let (a, e, h3) = need-inv (advice_of body.action) bad_action _ db' h2 in
    let (asked, h4) =
      reject_if-inv (is_improvement a && is_empty docs) documents_required _ db' h3 in
    let own = get_claim-id k c db found in
    let here = subst (λ j. get_claim j db ≡ some c) (sym own) found in
    let after =
      subst (HasStatus c.id (advised_status a)) (committed-inj _ db' h4)
        (consult-HasStatus agent c body a docs db here) in
    (
      (c, found, mine, consultable-IsOpen c.status (ground arith)),
      advice-IsAdvised k body.action a docs db' e asked
          (subst (λ j. HasStatus j (advised_status a) db') own after),
    )

pub when_owned-inv :
    (c : Option Claim) (customer : ℕ) (body : Claim → Response) (db : Db)
    → when_owned c customer body ≡ committed db
    → (x : Claim) × (c ≡ some x) × (x.customer_id ≡ customer) × (body x ≡ committed db)
when_owned-inv none customer body db h = cc
when_owned-inv (some c) customer body db h = elim (Bool-cases (c.customer_id == customer)) [
  | inl f ↦ (c, refl, ground arith, rw f at h)
  | inr f ↦ absurd (raised-ne claim_not_found db (rw f at h))
]

-- What `validate_submit_gates` wants of a claim.
pub record IsComplete (c : Claim) (db : Db) : Type 0 where
  pub insured : is_some c.policy_id ≡ true
  pub papers : c.policy_context_ready ≡ true
  pub identified :
      (is_kyc_verified (find_first (λ p. p.customer_id == c.customer_id) db.profiles)
        || any_of (λ d. is_licence d.doc_type) (documents_of c.id db))
      ≡ true
  pub pictured : any_of (λ d. is_damage_photo d.doc_type) (documents_of c.id db) ≡ true

no_errors :
    (c : Claim) (db : Db) → not (is_empty (validate_submit_gates db c)) ≡ false → IsComplete c db
unfolding validate_submit_gates
no_errors c db h = record {
  insured = ground arith;
  papers = ground arith;
  identified = ground arith;
  pictured = ground arith;
}

submitted-HasStatus :
    (c : Claim) (db : Db)
    → get_claim c.id db ≡ some c
    → HasStatus c.id ClaimStatus.pending (finalize_submit c db)
unfolding get_claim put_claim
submitted-HasStatus c db h = (
  _,
  find_claim-put_row_self (record c { status = ClaimStatus.pending; submission_step = 4 }) c
      db.claims h,
  refl,
)

-- A draft is submitted only by its owner, with a policy, its papers loaded, a driver's licence or a
-- verified identity, and a damage photo; the claim is then PENDING.
pub submission_gates :
    (customer k : ℕ) (db db' : Db)
    → submit_draft_claim customer k db ≡ committed db'
    → ((c : Claim) × (get_claim k db ≡ some c) × (c.customer_id ≡ customer) × IsComplete c db)
      × HasStatus k ClaimStatus.pending db'
unfolding submit_draft_claim
submission_gates customer k db db' h =
    let (c, found, mine, h1) = when_owned-inv (get_claim k db) customer _ db' h in
    let errors = validate_submit_gates db c in
    let (none_left, h2) = reject_if-inv (not (is_empty errors)) (gates_failed errors) _ db' h1 in
    let own = get_claim-id k c db found in
    let here = subst (λ j. get_claim j db ≡ some c) (sym own) found in
    let after =
      subst (HasStatus c.id ClaimStatus.pending) (committed-inj _ db' h2)
        (submitted-HasStatus c db here) in
    (
      (c, found, mine, no_errors c db none_left),
      subst (λ j. HasStatus j ClaimStatus.pending db') own after,
    )
