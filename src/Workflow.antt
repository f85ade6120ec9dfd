-- ===== src/Workflow.antt =====
-- The handlers of backend/routers/claims.py, agent.py and insurer.py that move a claim from one
-- status to the next. A handler raises an HTTP error, or commits.
pub mod Papers
pub mod Lawful
pub mod Signing
pub mod EvidenceService
pub mod PaperLaws
pub mod PaperTransitions
pub mod Approval
pub mod Transitions
use insurance_claim_approval.Prelude.{
  ℕ, Bool, true, false, ◌&&◌, ◌||◌, not, Option, none, some, List, [], ◌∷◌, ◌++◌, map, ◌==◌, ltb,
  is_some, or_else, is_empty, any_of, find_first, when, if◌then◌else◌,
}
use insurance_claim_approval.Prelude.Text.{Text, codes, text_eq, upper, strip, truthy}
use insurance_claim_approval.Prelude.Time.{DateTime}
use insurance_claim_approval.Schema.Status.{
  ClaimStatus, DocumentType, review_in_progress, review_completed,
}
use insurance_claim_approval.Schema.Customer.{PolicyAgent}
use insurance_claim_approval.Schema.Claim.{Claim, ClaimDocument}
use insurance_claim_approval.Schema.Outcome.{
  ClaimDecision, HumanReview, labelled, written, submit_to_insurance_company, approved_by_insurer,
  rejected_by_insurer, insurer_approved_it, insurer_rejected_it, manual_assignment,
  insurer_approved, insurer_rejected, expert_consultation, sent_to_insurer, claim_submitted,
  claim_assigned,
}
use insurance_claim_approval.Schema.Db.{
  Db, get_claim, put_claim, find_decision, put_decision, log_audit, publish, documents_of,
  human_review_step, completed,
}
use insurance_claim_approval.Kyc.{is_kyc_verified}
use insurance_claim_approval.Experts.{touch_review}
use insurance_claim_approval.Documents.{RequestedDocument, normalize_requested_documents}

-- The errors of `validate_submit_gates`.
pub data Gate : Type 0 where
  no_policy no_policy_papers no_licence no_damage_photo : Gate

pub data HttpError : Type 0 where
  claim_not_found agent_not_found bad_state bad_action documents_required no_agent : HttpError
  policy_not_found policy_forbidden document_not_found invalid_type reference_required : HttpError
  papers_first licence_required photo_required police_report_required server_error : HttpError
  gates_failed : List Gate → HttpError

pub data Response : Type 0 where
  raised : HttpError → Response
  committed : Db → Response

-- `if guard: raise …`
unfoldable pub reject_if : Bool → HttpError → Response → Response
reject_if true e r = raised e
reject_if false e r = r

-- `if not value: raise …`
unfoldable pub need : {A : Type 0} → Option A → HttpError → (A → Response) → Response
need none e body = raised e
need (some a) e body = body a

abbrev pub when_owned : Option Claim → ℕ → (Claim → Response) → Response
when_owned none customer body = raised claim_not_found
when_owned (some c) customer body =
    if c.customer_id == customer then body c else raised claim_not_found

abbrev pub is_licence : DocumentType → Bool
is_licence DocumentType.driver_license = true
is_licence _ = false

abbrev pub is_damage_photo : DocumentType → Bool
is_damage_photo DocumentType.damage_photo = true
is_damage_photo _ = false

-- `validate_submit_gates`
unfoldable pub validate_submit_gates : Db → Claim → List Gate
validate_submit_gates db c =
    let docs = documents_of c.id db in
    let profile = find_first (λ p. p.customer_id == c.customer_id) db.profiles in
    when (not (is_some c.policy_id)) no_policy
    ++ when (not c.policy_context_ready) no_policy_papers
    ++ when (not (is_kyc_verified profile) && not (any_of (λ d. is_licence d.doc_type) docs))
        no_licence
    ++ when (not (any_of (λ d. is_damage_photo d.doc_type) docs)) no_damage_photo

abbrev finalize_submit : Claim → Db → Db
finalize_submit c db =
    log_audit c.id claim_submitted none
      (put_claim (record c { status = ClaimStatus.pending; submission_step = 4 }) db)

-- `submit_draft_claim`, up to the start of the processing.
unfoldable pub submit_draft_claim : ℕ → ℕ → Db → Response
unfolding reject_if need
submit_draft_claim customer k db = when_owned (get_claim k db) customer (λ c.
    let errors = validate_submit_gates db c in
    reject_if (not (is_empty errors)) (gates_failed errors) (committed (finalize_submit c db)))

abbrev is_unfinished : ClaimStatus → Bool
is_unfinished ClaimStatus.processing = true
is_unfinished ClaimStatus.pending = true
is_unfinished _ = false

-- `retry_claim_processing`, up to the start of the processing.
unfoldable pub retry_claim_processing : ℕ → ℕ → Db → Response
unfolding reject_if need
retry_claim_processing customer k db = when_owned (get_claim k db) customer (λ c.
    reject_if (is_some (find_decision c.id db.decisions) && not (is_unfinished c.status)) bad_state
      (committed (put_claim (record c { status = ClaimStatus.processing }) db)))

abbrev is_in_review : ClaimStatus → Bool
is_in_review ClaimStatus.pending_review = true
is_in_review _ = false

-- The agent's label and id, of `AssignAgentRequest`: by id, or by name or e-mail.
chosen_agent : Option ℕ → Text → List PolicyAgent → Option (Text × Option ℕ)
chosen_agent (some j) name agents = elim (find_first (λ a. a.id == j && a.is_active) agents) [
  | none ↦ none
  | some a ↦ some (a.full_name, some a.id)
]
chosen_agent none name agents =
    let label = strip name in
    elim (find_first (λ a. a.is_active && (text_eq a.email label || text_eq a.full_name label))
      agents) [ none ↦ some (label, none) | some a ↦ some (a.full_name, some a.id) ]

abbrev blank_review : ℕ → HumanReview
blank_review k = record {
  claim_id = k;
  reason = manual_assignment;
  assigned_to = none;
  status = review_in_progress;
  reviewer_notes = none;
  decision_override = none;
}

assigned : DateTime → Claim → Text × Option ℕ → Db → Db
assigned now c (label, j) db =
    let taken =
      λ (r : HumanReview). record r { assigned_to = some label; status = review_in_progress } in
    let db1 =
      put_claim
        (record c { assigned_agent = some label; assigned_agent_id = j; assigned_at = some now })
        db in
    let db2 = record db1 {
      reviews = touch_review c.id taken (taken (blank_review c.id)) db1.reviews;
    } in
    publish c.id human_review_step completed (log_audit c.id claim_assigned none db2)

-- `body.agent_id` that is set and not 0.
names_agent : Option ℕ → Text → Bool
names_agent none name = not (is_empty (strip name))
names_agent (some j) name = ltb 0 j || not (is_empty (strip name))

-- `assign_claim_agent`
unfoldable pub assign_claim_agent : DateTime → ℕ → ℕ → Option ℕ → Text → Db → Response
unfolding reject_if need chosen_agent assigned names_agent
assign_claim_agent now customer k j name db = reject_if (not (names_agent j name)) no_agent (
    when_owned (get_claim k db) customer (λ c. reject_if (not (is_in_review c.status)) bad_state (
      need (chosen_agent j name db.agents) agent_not_found (λ a. committed (assigned now c a db)))))

-- `HumanReviewSubmit`
pub record Consultation : Type 0 where
  pub action : Text
  pub reviewer_notes : Text
  pub requested_documents : List Text

pub data Advice : Type 0 where
  make_ready needs_improvement continue_review : Advice

-- `status_map.get(action.upper())`
unfoldable pub advice_of : Text → Option Advice
advice_of action =
    let key = upper action in
    if text_eq key (codes "SUBMISSION_READY")
    then some make_ready
    else if text_eq key (codes "NEEDS_IMPROVEMENT")
    then some needs_improvement
    else if text_eq key (codes "CONTINUE_REVIEW")
    then some continue_review
    else none

abbrev pub advised_status : Advice → ClaimStatus
advised_status make_ready = ClaimStatus.submission_ready
advised_status needs_improvement = ClaimStatus.request_more_info
advised_status continue_review = ClaimStatus.pending_review

abbrev pub is_consultable : ClaimStatus → Bool
is_consultable ClaimStatus.analysis_complete = true
is_consultable ClaimStatus.pending_review = true
is_consultable ClaimStatus.request_more_info = true
is_consultable ClaimStatus.human_review = true
is_consultable _ = false

-- The advice, written into the decision.
advise : Advice → List RequestedDocument → ClaimDecision → ClaimDecision
advise make_ready docs d = record d {
  human_review_required = false;
  next_best_action = submit_to_insurance_company;
}
advise needs_improvement docs d = record d {
  human_review_required = true;
  missing_documents = map (λ (x : RequestedDocument). labelled x.label) docs;
}
advise continue_review docs d = record d { human_review_required = true }

change_decision : ℕ → (ClaimDecision → ClaimDecision) → List ClaimDecision → List ClaimDecision
change_decision k f [] = []
change_decision k f (d ∷ ds) = if d.claim_id == k then f d ∷ ds else d ∷ change_decision k f ds

-- The newest review of a claim, if there is one, is changed.
change_review : ℕ → (HumanReview → HumanReview) → List HumanReview → List HumanReview
change_review k f rs =
    if any_of (λ r. r.claim_id == k) rs then touch_review k f (blank_review k) rs else rs

reviewed : PolicyAgent → Consultation → Advice → HumanReview → HumanReview
reviewed agent body a r = record r {
  status = elim a [ make_ready ↦ review_completed | _ ↦ review_in_progress ];
  reviewer_notes = some body.reviewer_notes;
  decision_override = some (advised_status a);
  assigned_to = some agent.full_name;
}

consult : PolicyAgent → Claim → Consultation → Advice → List RequestedDocument → Db → Db
unfolding advise change_decision change_review reviewed
consult agent c body a docs db =
    let db1 = put_claim (record c { status = advised_status a }) db in
    let db2 = record db1 {
      decisions = change_decision c.id (advise a docs) db1.decisions;
      reviews = change_review c.id (reviewed agent body a) db1.reviews;
    } in
    log_audit c.id expert_consultation none db2

abbrev pub is_improvement : Advice → Bool
is_improvement needs_improvement = true
is_improvement _ = false

abbrev pub when_assigned : Option Claim → ℕ → (Claim → Response) → Response
when_assigned none agent body = raised claim_not_found
when_assigned (some c) agent body = elim c.assigned_agent_id [
  | none ↦ raised claim_not_found
  | some j ↦ if j == agent then body c else raised claim_not_found
]

-- `agent_submit_consultation`
unfoldable pub agent_submit_consultation : PolicyAgent → ℕ → Consultation → Db → Response
unfolding reject_if need consult
agent_submit_consultation agent k body db = when_assigned (get_claim k db) agent.id (λ c.
    reject_if (not (is_consultable c.status)) bad_state (
      need (advice_of body.action) bad_action (λ a.
        let docs = normalize_requested_documents body.requested_documents in
        reject_if (is_improvement a && is_empty docs) documents_required
          (committed (consult agent c body a docs db)))))

abbrev pub is_ready : ClaimStatus → Bool
is_ready ClaimStatus.submission_ready = true
is_ready _ = false

-- `agent_submit_to_insurer`
unfoldable pub agent_submit_to_insurer : PolicyAgent → ℕ → Db → Response
unfolding reject_if need
agent_submit_to_insurer agent k db = when_assigned (get_claim k db) agent.id (λ c.
    reject_if (not (is_ready c.status)) bad_state (
      committed (
        log_audit c.id sent_to_insurer none
          (put_claim (record c { status = ClaimStatus.submitted_to_insurer }) db))))

-- `InsurerDecisionSubmit`
pub record InsurerDecision : Type 0 where
  pub action : Text
  pub payable_amount : Option ℕ
  pub notes : Text

-- Whether the action is APPROVED, if it is one of the two.
unfoldable pub verdict_of : Text → Option Bool
verdict_of action =
    let key = upper action in
    if text_eq key (codes "APPROVED")
    then some true
    else if text_eq key (codes "REJECTED")
    then some false
    else none

abbrev pub verdict_status : Bool → ClaimStatus
verdict_status true = ClaimStatus.approved
verdict_status false = ClaimStatus.rejected

-- `a or b` on amounts.
amount_or : ℕ → ℕ → ℕ
amount_or a b = if ltb 0 a then a else b

-- The amount that an approval pays.
unfoldable pub approved_amount : Option ℕ → ClaimDecision → Claim → ℕ
unfolding amount_or
approved_amount (some n) d c = n
approved_amount none d c =
    amount_or d.expected_settlement (amount_or d.payable_amount c.claim_amount)

-- The verdict, written into the decision.
unfoldable pub decided : Bool → InsurerDecision → Claim → ClaimDecision → ClaimDecision
decided approve body c d = record d {
  status = verdict_status approve;
  payable_amount = if approve then approved_amount body.payable_amount d c else 0;
  next_best_action = if approve then approved_by_insurer else rejected_by_insurer;
  reasoning = if is_empty body.notes then d.reasoning else written body.notes;
}

close_review : Text → Text → Bool → HumanReview → HumanReview
close_review insurer notes approve r = record r {
  status = review_completed;
  reviewer_notes = some notes;
  decision_override = some (verdict_status approve);
  assigned_to = some insurer;
}

pub decide_claim : Text → Bool → InsurerDecision → Claim → Db → Db
unfolding change_decision close_review
decide_claim insurer approve body c db =
    let close = close_review insurer body.notes approve in
    let fresh = record (blank_review c.id) {
      reason = if approve then insurer_approved_it else insurer_rejected_it;
    } in
    let db1 = put_claim (record c { status = verdict_status approve }) db in
    let db2 = record db1 {
      decisions = change_decision c.id (decided approve body c) db1.decisions;
      reviews = touch_review c.id close (close fresh) db1.reviews;
    } in
    let db3 = log_audit c.id (if approve then insurer_approved else insurer_rejected) none db2 in
    record db3 { notified = db3.notified ++ (c.id, verdict_status approve) ∷ [] }

abbrev pub is_with_insurer : ClaimStatus → Bool
is_with_insurer ClaimStatus.submitted_to_insurer = true
is_with_insurer _ = false

-- `insurer_submit_decision`; `insurer` is the full name of the insurer's user.
unfoldable pub insurer_submit_decision : Text → ℕ → InsurerDecision → Db → Response
unfolding reject_if need decide_claim
insurer_submit_decision insurer k body db = need (get_claim k db) claim_not_found (λ c.
    reject_if (not (is_with_insurer c.status)) bad_state (
      need (verdict_of body.action) bad_action
        (λ approve. committed (decide_claim insurer approve body c db))))
