-- ===== src/Pipeline/Finalize.antt =====
-- `finalize_claim`: the merged results become a decision, which is written with the claim's status,
-- a review where one is needed, an audit entry, and the customer's notification.
pub mod Laws
pub mod Approvals
pub mod Reviews
use insurance_claim_approval.Prelude.{
  ℕ, ◌*◌, ◌/◌, Bool, true, false, Option, none, some, List, [], ◌∷◌, ◌++◌, or_else, is_some,
  is_empty, if◌then◌else◌, ◌||◌, ◌&&◌, not,
}
use insurance_claim_approval.Prelude.Text.{Text}
use insurance_claim_approval.Prelude.Time.{DateTime}
use insurance_claim_approval.Config.{Settings}
use insurance_claim_approval.Schema.Status.{ClaimStatus, review_pending}
use insurance_claim_approval.Schema.Policy.{Policy}
use insurance_claim_approval.Schema.Claim.{Claim, Trust, Tier, unscored}
use insurance_claim_approval.Schema.Messages.{Message, Reason}
use insurance_claim_approval.Schema.Outcome.{
  Merged, PayoutResult, Reasoning, template, written, ReviewReason, ruled, escalated, HumanReview,
  parallel_analysis_complete, decision_generated,
}
use insurance_claim_approval.Schema.Db.{
  Db, get_claim, put_claim, log_audit, publish, policy_of, documents_of, decision_engine,
  payout_calculation, completed_step, running, completed,
}
use insurance_claim_approval.Decision.{DecisionInput, DecisionResult, decide}
use insurance_claim_approval.Confidence.{
  ExplainabilityInput, compute_confidence, generate_reasoning,
}
use insurance_claim_approval.Trust.{amount_multiplier_for_tier}
use insurance_claim_approval.Escalation.{EscalationResult, evaluate}
use insurance_claim_approval.Payout.Llm.{Params, llm_payable}
use insurance_claim_approval.Experts.{assign_least_loaded_expert}
use insurance_claim_approval.Pipeline.Merge.{merge, explain_input, with_preview, decision_input}
use insurance_claim_approval.Pipeline.Persist.{ExplainabilityResult, persist_decision}

-- The answers of the language model, the settings and the clock.
pub record Services : Type 0 where
  pub settings : Settings
  pub now : DateTime
  pub aligned : Claim → Merged → Bool  -- `check_clause_alignment`
  pub payout_params : Claim → Option Params  -- `extract_payout_parameters`
  pub decision_text : ClaimStatus → Merged → Option Text  -- `generate_decision_reasoning`

-- The result that `finalize_claim` returns, as far as the callers read it.
pub record Final : Type 0 where
  pub status : ClaimStatus
  pub payable_amount : ℕ
  pub confidence_score : ℕ
  pub human_review_required : Bool

-- `claim not found`, the error of a run that failed, or the result.
pub data Finished : Type 0 where
  not_found run_failed : Finished
  finished : Final → Finished

trust_tier : Option Trust → Tier
trust_tier none = unscored
trust_tier (some t) = t.tier

-- `human_review_amount_threshold * amount_multiplier_for_tier(trust_tier)`
unfoldable pub amount_limit : Settings → Option Trust → ℕ
unfolding trust_tier
amount_limit s t =
    (s.human_review_amount_threshold * amount_multiplier_for_tier s (trust_tier t)) / 10_000

is_total_loss_preview : Option PayoutResult → Bool
is_total_loss_preview none = false
is_total_loss_preview (some r) = r.is_total_loss

-- Without a policy the source raises an error here; no claim comes this far.
llm_amount : Services → Claim → Option Policy → ℕ
llm_amount v c none = 0
llm_amount v c (some p) = llm_payable (v.payout_params c) p c.claim_amount

-- The amount and the breakdown of the APPROVED branch; the breakdown of the language model's
-- parameters is not kept.
payout_of : Services → Claim → Option Policy → Merged → ClaimStatus → ℕ × Option PayoutResult
unfolding is_total_loss_preview llm_amount
payout_of v c policy m ClaimStatus.approved =
    if is_total_loss_preview m.payout_breakdown
    then (or_else m.payout_preview_payable 0, m.payout_breakdown)
    else (llm_amount v c policy, none)
payout_of v c policy m _ = (0, none)

-- The columns that are written before the decision.
unfoldable pub annotated : Claim → EscalationResult → Merged → Claim
annotated c e m = record c {
  escalation_flags = e.flags;
  escalation_messages = e.messages;
  evidence_mismatch = or_else m.evidence_mismatch false;
  evidence_issues = or_else m.evidence_issues [];
  customer_trust = m.customer_trust;
}

trust_note : Settings → Option Trust → Option (Tier × ℕ × ℕ)
trust_note s none = none
trust_note s (some t) = elim t.score [
  | none ↦ none
  | some n ↦ some (t.tier, n, amount_limit s (some t))
]

review_reason : DecisionResult → EscalationResult → Option (Tier × ℕ × ℕ) → ReviewReason
review_reason d e note =
    if is_empty e.messages then ruled d.reasoning note else escalated e.messages note

add_review : ℕ → ReviewReason → Db → Db
add_review k reason db = record db {
  reviews =
      db.reviews
      ++ record {
        claim_id = k;
        reason = reason;
        assigned_to = none;
        status = review_pending;
        reviewer_notes = none;
        decision_override = none;
      }
        ∷ [];
}

is_notified : ClaimStatus → Bool
is_notified ClaimStatus.approved = true
is_notified ClaimStatus.rejected = true
is_notified ClaimStatus.request_more_info = true
is_notified ClaimStatus.pending_review = true
is_notified _ = false

notify : ℕ → ClaimStatus → Db → Db
unfolding is_notified
notify k s db = if is_notified s then record db { notified = db.notified ++ (k, s) ∷ [] } else db

publish_payout : ℕ → ClaimStatus → Db → Db
publish_payout k ClaimStatus.approved db =
    publish k payout_calculation completed (publish k payout_calculation running db)
publish_payout k ClaimStatus.pending_review db = publish k decision_engine running db
publish_payout k _ db = db

to_queue : Services → ℕ → Db → Db
to_queue v k db = elim (get_claim k db) [
  | none ↦ db
  | some c ↦ (assign_least_loaded_expert v.now c db).1
]

-- What the decision engine is asked about the merged results.
unfoldable pub assessed : Services → Claim → Db → Merged → DecisionInput × Merged
assessed v c db m0 =
    let m = with_preview c (policy_of c db) m0 in
    let e = evaluate v.settings c (policy_of c db) (documents_of c.id db) (v.aligned c m) m in
    (
      decision_input v.settings c m e (compute_confidence (explain_input m0))
          (amount_limit v.settings m.customer_trust),
      m,
    )

llm_or_template : Option Text → Reasoning → Reasoning
llm_or_template none r = r
llm_or_template (some t) r = if is_empty t then r else written t

abbrev escalation_of : DecisionInput → EscalationResult
escalation_of i = record { flags = i.escalation_flags; messages = i.escalation_messages }

-- `build_result`, with the reasoning of the language model where it gives one.
explained : Services → Merged → ExplainabilityInput → ClaimStatus → ℕ → ExplainabilityResult
unfolding llm_or_template
explained v m x s payable = record {
  confidence_score = compute_confidence x;
  reasoning =
      llm_or_template (v.decision_text s m)
        (template (generate_reasoning s x (or_else m.violations []) payable));
  clauses = x.retrieved_clauses;
  evidence_results = x.evidence_results;
  fraud_score = x.fraud_score;
}

-- From the decision to `persist_decision`; the claim is the annotated one.
settle : Services → Claim → DecisionResult → Merged → Db → Db
unfolding payout_of publish_payout explained
settle v c d m db0 =
    let db1 = publish_payout c.id d.status (put_claim c db0) in
    let (payable, breakdown) = payout_of v c (policy_of c db0) m d.status in
    let r = explained v m (explain_input m) d.status payable in
    persist_decision db1 c d.status r payable d.human_review_required breakdown

-- After `persist_decision`: the queue, the review, the audit entry and the notification.
close : Services → ℕ → DecisionResult → EscalationResult → Merged → Db → Db
unfolding trust_note review_reason add_review notify to_queue
close v k d e m db0 =
    let db1 = to_queue v k db0 in
    let note = trust_note v.settings m.customer_trust in
    let db2 = if d.human_review_required then add_review k (review_reason d e note) db1 else db1 in
    let db3 = publish k decision_engine completed (log_audit k decision_generated none db2) in
    publish k completed_step completed (notify k d.status db3)

-- The rest of `finalize_claim`, once the decision is known.
unfoldable pub record_decision : Services → Claim → DecisionInput → Merged → Db → Db
unfolding settle close
record_decision v c i m db =
    let e = escalation_of i in
    close v c.id (decide i) e m (settle v (annotated c e m) (decide i) m db)

-- `finalize_claim(claim_id, parallel_results)`
unfoldable pub finalize_claim : Services → ℕ → List Merged → Db → Finished × Db
unfolding payout_of
finalize_claim v k results db =
    let db0 = publish k decision_engine running db in
    elim (get_claim k db0) [
      | none ↦ (not_found, db0)
      | some c ↦
          let m0 = merge results in
          let db1 = log_audit k parallel_analysis_complete (some m0) db0 in
          let (i, m) = assessed v c db1 m0 in
          let d = decide i in
          let (payable, _) = payout_of v c (policy_of c db1) m d.status in
          (
            finished (record {
              status = d.status;
              payable_amount = payable;
              confidence_score = i.confidence_score;
              human_review_required = d.human_review_required;
            }),
            record_decision v c i m db1,
          )
    ]
