-- ===== src/Pipeline/Stages.antt =====
-- The five stages of backend/services/claim_pipeline.py and `run_claim_pipeline`, which runs them. The
-- source runs the first four in threads, each with a session of its own; they are in the order of
-- `run_claim_flow` (backend/crew/flow.py) here.
pub mod Outcomes
pub mod Expiry
use insurance_claim_approval.Prelude.{
  ℕ, max, Bool, true, false, Option, none, some, List, [], ◌∷◌, ◌++◌, is_empty, or_else,
  if◌then◌else◌, find_first, ◌==◌, keep, not, ◌>>=◌,
}
use insurance_claim_approval.Prelude.Text.{Text, first_codes}
use insurance_claim_approval.Prelude.Time.{DateTime}
use insurance_claim_approval.Config.{Settings}
use insurance_claim_approval.Schema.Policy.{Policy}
use insurance_claim_approval.Schema.Customer.{Customer}
use insurance_claim_approval.Schema.Claim.{Claim, Trust}
use insurance_claim_approval.Schema.Messages.{
  Signal, llm_rationale, financial_stress, cross_insurer_claims,
}
use insurance_claim_approval.Schema.Outcome.{Merged, Clause}
use insurance_claim_approval.Schema.Db.{
  Db, Step, get_claim, publish, running, completed, policy_of, customer_of, policy_validation,
  rag_retrieval, customer_profile, evidence_analysis, fraud_detection, decision_engine,
}
use insurance_claim_approval.Validation.{PolicyValidationResult, validate}
use insurance_claim_approval.Kyc.{is_kyc_verified}
use insurance_claim_approval.Trust.{TrustScoreResult, compute_trust_score}
use insurance_claim_approval.Profile.{CustomerProfileResult, analyze}
use insurance_claim_approval.Evidence.{Readers, EvidenceAnalysisResult, analyze_evidence}
use insurance_claim_approval.Fraud.{
  FraudDetectionResult, LlmScore, detect, combine, persist, profile_signal_of,
}
use insurance_claim_approval.Pipeline.Merge.{empty_merged}
use insurance_claim_approval.Pipeline.Finalize.{Services, Finished, run_failed, finalize_claim}
use insurance_claim_approval.Pipeline.Run.{start_run, handle_pipeline_failure}

-- A value of the language model's JSON: missing or falsy, of the kind that is wanted, or one on
-- which `float(…)` or `[:200]` raises. A negative confidence counts as missing: it is never the
-- larger of two.
pub data Answer (A : Type 0) : Type 0 where
  missing malformed : Answer A
  given : A → Answer A

-- What the stages ask of retrieval, of OCR and of the language model.
pub record Sources : Type 0 where
  pub readers : Readers
  pub clauses : Claim → Db → List Clause  -- `rag_service.retrieve`
  pub clarity : Claim → Db → ℕ  -- `clause_clarity_score`
  pub coverage_confidence : Claim → List Clause → Answer ℕ  -- of `analyze_incident_coverage`
  pub fraud_score : Claim → List Signal → LlmScore  -- of `analyze_fraud_risk`
  pub fraud_rationale : Claim → List Signal → Answer Text

-- A stage: its result, and the database after it. Without the claim the result is an error.
unfoldable pub run_stage : ℕ → Step → (Claim → Db → Merged × Db) → Db → Merged × Db
run_stage k step body db =
    let db0 = publish k step running db in
    elim (get_claim k db0) [
      | none ↦ (record empty_merged { stage_error = some tt }, db0)
      | some c ↦ let (m, db1) = body c db0 in (m, publish k step completed db1)
    ]

-- The dictionary of `_run_policy_validation`.
unfoldable pub policy_data : PolicyValidationResult → Merged
policy_data r = record empty_merged {
  eligible = some r.eligible;
  policy_expired = some r.policy_expired;
  premium_unpaid = some r.premium_unpaid;
  incident_excluded = some r.incident_excluded;
  violations = some r.violations;
  policy_match_score = some (if r.eligible then 10_000 else 3000);
}

unfoldable pub run_policy_validation : DateTime → ℕ → Db → Merged × Db
run_policy_validation now k =
    run_stage k policy_validation (λ c db. (policy_data (validate db c now), db))

-- A stage that may raise: then it publishes no end, and its session is closed without a commit.
unfoldable pub stage_ended : ℕ → Step → Option (Merged × Db) → Db → Option Merged × Db
stage_ended k step none db = (none, db)
stage_ended k step (some (m, db1)) db = (some m, publish k step completed db1)

unfoldable pub try_stage : ℕ → Step → (Claim → Db → Option (Merged × Db)) → Db → Option Merged × Db
unfolding stage_ended
try_stage k step body db =
    let db0 = publish k step running db in
    elim (get_claim k db0) [
      | none ↦ (some (record empty_merged { stage_error = some tt }), db0)
      | some c ↦ stage_ended k step (body c db0) db0
    ]

-- `clarity`, raised to the confidence of the model; `none` is an exception.
unfoldable pub clarity_with : ℕ → Answer ℕ → Option ℕ
clarity_with n missing = some n
clarity_with n malformed = none
clarity_with n (given m) = some (max n m)

-- The dictionary of `_run_rag_retrieval`; `none` is an exception.
unfoldable pub rag_data : Sources → Claim → Db → Option Merged
unfolding clarity_with
rag_data x c db =
    let clauses = x.clauses c db in
    clarity_with (x.clarity c db) (x.coverage_confidence c clauses) >>= λ clarity.
    some (record empty_merged {
      retrieved_clauses = some clauses;
      clause_clarity_score = some clarity;
    })

unfoldable pub with_db : Db → Option Merged → Option (Merged × Db)
with_db db none = none
with_db db (some m) = some (m, db)

unfoldable pub rag_body : Sources → Claim → Db → Option (Merged × Db)
unfolding with_db
rag_body x c db = with_db db (rag_data x c db)

unfoldable pub run_rag_retrieval : Sources → ℕ → Db → Option Merged × Db
unfolding try_stage
run_rag_retrieval x k = try_stage k rag_retrieval (rag_body x)

bonus_of : Option Policy → Option ℕ
bonus_of none = none
bonus_of (some p) = some p.no_claim_bonus_pct

-- `CustomerTrustService.for_customer_id`
unfoldable pub trust_of : Settings → Db → Claim → TrustScoreResult
unfolding bonus_of
trust_of s db c = elim (customer_of c db) [
  | none ↦ compute_trust_score s none false none
  | some x ↦
      compute_trust_score s (profile_signal_of (some x) db)
        (is_kyc_verified (find_first (λ p. p.customer_id == x.id) db.profiles))
        (bonus_of (policy_of c db))
]

as_trust : TrustScoreResult → Trust
as_trust r = record { score = r.score; tier = r.tier }

-- `_customer_profile_data`
unfoldable pub customer_profile_data : Settings → DateTime → Claim → Db → Merged
unfolding as_trust
customer_profile_data s now c db =
    let r = analyze db c now in
    record empty_merged {
      customer_risk_score = some r.customer_risk_score;
      prior_claims_count = some r.prior_claims_count;
      signals = some r.signals;
      customer_trust = some (as_trust (trust_of s db c));
    }

unfoldable pub run_customer_profile : Settings → DateTime → ℕ → Db → Merged × Db
run_customer_profile s now k =
    run_stage k customer_profile (λ c db. (customer_profile_data s now c db, db))

-- The dictionary of `_run_evidence_analysis`.
unfoldable pub evidence_data : EvidenceAnalysisResult → Merged
evidence_data r = record empty_merged {
  evidence_confidence_score = some r.evidence_confidence_score;
  evidence_missing = some r.evidence_missing;
  evidence_results = some r.document_results;
  duplicate_uploads = some r.duplicate_uploads;
  evidence_mismatch = some r.evidence_mismatch;
  evidence_issues = some r.evidence_issues;
}

unfoldable pub run_evidence_analysis : Sources → ℕ → Db → Merged × Db
run_evidence_analysis x k =
    run_stage k evidence_analysis
      (λ c db. let (r, db1) = analyze_evidence x.readers db c in (evidence_data r, db1))

-- The two signals that the profile rule adds, and no other.
is_profile_signal : Signal → Bool
is_profile_signal financial_stress = true
is_profile_signal cross_insurer_claims = true
is_profile_signal _ = false

-- `[s for s in signals if s not in profile_signals]`
shown_signals : FraudDetectionResult → List Signal
unfolding is_profile_signal
shown_signals r = keep (λ s. not (is_profile_signal s)) r.signals

-- The signal of a rationale; `none` is an exception.
unfoldable pub rationale_signals : Answer Text → Option (List Signal)
rationale_signals missing = some []
rationale_signals malformed = none
rationale_signals (given t) =
    some (if is_empty t then [] else llm_rationale (first_codes 200 t) ∷ [])

-- The result of the rules, with the score and the rationale of the language model. The model is
-- asked with the signals that do not come from the customer's profile, `shown`.
unfoldable pub combined :
    Sources → Claim → List Signal → FraudDetectionResult → Option FraudDetectionResult
unfolding rationale_signals
combined x c shown r = rationale_signals (x.fraud_rationale c shown) >>= λ added. some (record r {
  fraud_score = combine r.fraud_score (x.fraud_score c shown);
  signals = r.signals ++ added;
})

-- The dictionary of `_run_fraud_detection`.
unfoldable pub fraud_data : FraudDetectionResult → Merged
fraud_data r = record empty_merged {
  fraud_score = some r.fraud_score;
  signals = some r.signals;
  blacklist_hit = some r.blacklist_hit;
}

unfoldable pub persisted : ℕ → Db → Option FraudDetectionResult → Option (Merged × Db)
persisted k db none = none
persisted k db (some r) = some (fraud_data r, persist db k r)

unfoldable pub fraud_body : Sources → Merged → ℕ → Claim → Db → Option (Merged × Db)
unfolding shown_signals persisted
fraud_body x evidence k c db =
    let r = detect db c (or_else evidence.duplicate_uploads []) in
    persisted k db (combined x c (shown_signals r) r)

unfoldable pub run_fraud_detection : Sources → Merged → ℕ → Db → Option Merged × Db
unfolding try_stage
run_fraud_detection x evidence k = try_stage k fraud_detection (fraud_body x evidence k)

-- The results of the first four stages and the fraud stage in one list, if none raised.
unfoldable pub all_results :
    Merged → Merged → Merged → Merged → Option Merged → Option (List Merged)
all_results policy rag customer evidence none = none
all_results policy rag customer evidence (some fraud) =
    some (policy ∷ rag ∷ customer ∷ evidence ∷ fraud ∷ [])

-- The fraud stage after the others; it is not run when the retrieval raised.
unfoldable pub then_fraud :
    Sources → ℕ → Merged → Option Merged → Merged → Merged → Db → Option (List Merged) × Db
unfolding all_results
then_fraud x k policy none customer evidence db = (none, db)
then_fraud x k policy (some rag) customer evidence db =
    let (fraud, db1) = run_fraud_detection x evidence k db in
    (all_results policy rag customer evidence fraud, db1)

-- The five stages, in order: their results if none raised, and the database after them.
unfoldable pub run_stages : Services → Sources → ℕ → Db → Option (List Merged) × Db
unfolding then_fraud
run_stages v x k db0 =
    let (policy, db1) = run_policy_validation v.now k db0 in
    let (rag, db2) = run_rag_retrieval x k db1 in
    let (customer, db3) = run_customer_profile v.settings v.now k db2 in
    let (evidence, db4) = run_evidence_analysis x k db3 in
    then_fraud x k policy rag customer evidence db4

-- The end of a run: `finalize_claim`, or `_handle_pipeline_failure`.
unfoldable pub conclude : Services → ℕ → Step → Option (List Merged) → Db → Finished × Db
conclude v k step none db = (run_failed, handle_pipeline_failure k step db)
conclude v k step (some results) db = finalize_claim v k results db

-- `run_claim_pipeline`
unfoldable pub run_claim_pipeline : Services → Sources → ℕ → Db → Finished × Db
unfolding conclude
run_claim_pipeline v x k db =
    let (results, db1) = run_stages v x k (start_run k db) in
    conclude v k decision_engine results db1
