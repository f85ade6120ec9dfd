-- ===== src/Pipeline/Persist.antt =====
-- `ExplainabilityService.persist_decision` of backend/services/explainability.py and
-- `compute_analysis_fields` of backend/services/analysis_service.py.
use insurance_claim_approval.Prelude.{
  ℕ, ◌+◌, ◌-◌, ◌*◌, min, Bool, true, false, ◌||◌, not, Option, none, some, List, [], ◌∷◌, ltb,
  or_else, is_empty, length, count_if, if◌then◌else◌,
}
use insurance_claim_approval.Prelude.Rounding.{round_half_even}
use insurance_claim_approval.Schema.Status.{ClaimStatus}
use insurance_claim_approval.Schema.Policy.{Policy}
use insurance_claim_approval.Schema.Claim.{Claim, EvidenceIssue}
use insurance_claim_approval.Schema.Outcome.{
  Clause, DocumentResult, PayoutResult, Reasoning, template, NextAction,
  submit_to_insurance_company, chat_with_expert, upload_missing_documents, review_and_submit,
  MissingDocument, titled, ClaimDecision,
}
use insurance_claim_approval.Schema.Db.{Db, policy_of, find_decision, put_decision, put_claim}
use insurance_claim_approval.Confidence.{is_valid_result}

-- `ExplainabilityResult`, with the full clauses that are stored.
pub record ExplainabilityResult : Type 0 where
  pub confidence_score : ℕ
  pub reasoning : Reasoning
  pub clauses : List Clause
  pub evidence_results : List DocumentResult
  pub fraud_score : ℕ

-- `ClaimDecision(claim_id=…)`, before its columns are set.
abbrev pub new_decision : ℕ → ClaimDecision
new_decision k = record {
  claim_id = k;
  status = ClaimStatus.pending;
  payable_amount = 0;
  confidence_score = 0;
  reasoning = template [];
  retrieved_clauses = [];
  evidence_results = [];
  fraud_score = 0;
  human_review_required = false;
  payout_breakdown = none;
  approval_probability = 0;
  coverage_estimate = 0;
  expected_settlement = 0;
  missing_documents = [];
  potential_problems = 0;
  next_best_action = review_and_submit;
}

first_three : List EvidenceIssue → List EvidenceIssue
first_three (a ∷ b ∷ c ∷ _) = a ∷ b ∷ c ∷ []
first_three xs = xs

-- The number of `_problems_from_decision`: the problems of an earlier run, or a problem for each
-- flag, missing document and reason of the first three issues; at most eight.
problem_count : Claim → ClaimDecision → ℕ
unfolding first_three
problem_count c d =
    if ltb 0 d.potential_problems
    then d.potential_problems
    else min
        (length c.escalation_flags
          + length d.missing_documents
          + count_if (λ i. not (is_empty i.reason)) (first_three c.evidence_issues))
        8

invalid_documents : List DocumentResult → List MissingDocument
invalid_documents [] = []
invalid_documents (r ∷ rs) =
    if is_valid_result r then invalid_documents rs else titled r.doc_type ∷ invalid_documents rs

non_empty_or : List MissingDocument → List MissingDocument → List MissingDocument
non_empty_or [] old = old
non_empty_or (x ∷ xs) old = x ∷ xs

is_submittable : ClaimStatus → Bool
is_submittable ClaimStatus.submission_ready = true
is_submittable ClaimStatus.analysis_complete = true
is_submittable _ = false

is_pending_review : ClaimStatus → Bool
is_pending_review ClaimStatus.pending_review = true
is_pending_review _ = false

next_action : ClaimStatus → Bool → ℕ → NextAction
unfolding is_submittable is_pending_review
next_action s review problems =
    if is_submittable s
    then submit_to_insurance_company
    else if review || is_pending_review s
    then chat_with_expert
    else if ltb 0 problems
    then upload_missing_documents
    else review_and_submit

-- `claim.policy.coverage_limit if claim.policy else claim.claim_amount`
coverage_of : Claim → Option Policy → ℕ
coverage_of c none = c.claim_amount
coverage_of c (some p) = min c.claim_amount p.coverage_limit

-- `confidence * (1 - 0.35 * fraud)`, between 0 and 1.
unfoldable pub approval_probability : ℕ → ℕ → ℕ
approval_probability confidence fraud =
    min (round_half_even (confidence * (1_000_000 - 35 * fraud)) 1_000_000) 10_000

-- `compute_analysis_fields`, written into the decision; the status it reads is the claim's.
unfoldable pub compute_analysis_fields : Claim → Option Policy → ClaimDecision → ℕ → ClaimDecision
unfolding problem_count invalid_documents non_empty_or next_action coverage_of
compute_analysis_fields c policy d payable =
    let probability = approval_probability d.confidence_score d.fraud_score in
    let coverage = coverage_of c policy in
    let problems = problem_count c d in
    record d {
      approval_probability = probability;
      coverage_estimate = coverage;
      expected_settlement =
          if ltb 0 payable then payable else round_half_even (coverage * probability) 10_000;
      missing_documents = non_empty_or (invalid_documents d.evidence_results) d.missing_documents;
      potential_problems = problems;
      next_best_action = next_action c.status d.human_review_required problems;
    }

-- The columns that `persist_decision` sets.
unfoldable pub filled :
    ClaimDecision
    → ClaimStatus
    → ExplainabilityResult
    → ℕ
    → Bool
    → Option PayoutResult
    → ClaimDecision
filled d status r payable review breakdown = record d {
  status = status;
  payable_amount = payable;
  confidence_score = r.confidence_score;
  reasoning = r.reasoning;
  retrieved_clauses = r.clauses;
  evidence_results = r.evidence_results;
  fraud_score = r.fraud_score;
  human_review_required = review;
  payout_breakdown = breakdown;
}

-- `persist_decision`: the decision of the claim is written over or added, then the claim's status.
unfoldable pub persist_decision :
    Db → Claim → ClaimStatus → ExplainabilityResult → ℕ → Bool → Option PayoutResult → Db
persist_decision db c status r payable review breakdown =
    let old = or_else (find_decision c.id db.decisions) (new_decision c.id) in
    let d = filled old status r payable review breakdown in
    let fields = compute_analysis_fields c (policy_of c db) d payable in
    let written = record db { decisions = put_decision fields db.decisions } in
    put_claim (record c { status = status }) written
