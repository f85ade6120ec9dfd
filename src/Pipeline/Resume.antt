-- ===== src/Pipeline/Resume.antt =====
-- The run from a later step of backend/services/claim_pipeline.py: `run_claim_pipeline_from`, with the
-- early steps as the last run left them in the audit log.
pub mod Laws
use insurance_claim_approval.Prelude.{
  ℕ, ◌+◌, Bool, true, false, ◌&&◌, ◌||◌, Option, none, some, List, [], ◌∷◌, ◌==◌, if◌then◌else◌,
  is_some, ◌>>=◌,
}
use insurance_claim_approval.Prelude.Time.{DateTime}
use insurance_claim_approval.Schema.Status.{ClaimStatus}
use insurance_claim_approval.Schema.Claim.{Claim}
use insurance_claim_approval.Schema.Outcome.{
  Merged, AuditLog, EventType, parallel_analysis_complete,
}
use insurance_claim_approval.Schema.Db.{
  Db, Step, submitted_step, pipeline_reset, evidence_analysis, running, get_claim, put_claim,
  publish,
}
use insurance_claim_approval.Validation.{validate}
use insurance_claim_approval.Pipeline.Merge.{empty_merged}
use insurance_claim_approval.Pipeline.Finalize.{Services, Finished}
use insurance_claim_approval.Pipeline.Stages.{
  Sources, policy_data, rag_data, customer_profile_data, run_evidence_analysis, run_fraud_detection,
  run_rag_retrieval, run_claim_pipeline, conclude,
}

is_analysis : EventType → Bool
is_analysis parallel_analysis_complete = true
is_analysis _ = false

-- The last PARALLEL_ANALYSIS_COMPLETE entry of the claim.
unfoldable pub last_analysis : ℕ → List AuditLog → Option AuditLog
unfolding is_analysis
last_analysis k [] = none
last_analysis k (a ∷ logs) = elim (last_analysis k logs) [
  | none ↦ if a.claim_id == k && is_analysis a.event_type then some a else none
  | some b ↦ some b
]

-- The keys of a payload that belong to each of the three early steps.
unfoldable pub policy_keys : Merged → Merged
policy_keys p = record empty_merged {
  eligible = p.eligible;
  policy_expired = p.policy_expired;
  premium_unpaid = p.premium_unpaid;
  incident_excluded = p.incident_excluded;
  violations = p.violations;
  policy_match_score = p.policy_match_score;
}

unfoldable pub customer_keys : Merged → Merged
customer_keys p = record empty_merged {
  customer_risk_score = p.customer_risk_score;
  prior_claims_count = p.prior_claims_count;
  signals = p.signals;
  customer_trust = p.customer_trust;
}

-- `policy and rag and customer`: each has a key.
unfoldable pub has_early_steps : Merged → Bool
has_early_steps p =
    (is_some p.eligible
      || is_some p.policy_expired
      || is_some p.premium_unpaid
      || is_some p.incident_excluded
      || is_some p.violations
      || is_some p.policy_match_score)
    && (is_some p.retrieved_clauses || is_some p.clause_clarity_score)
    && (is_some p.customer_risk_score
        || is_some p.prior_claims_count
        || is_some p.signals
        || is_some p.customer_trust)

-- A step without its progress events, `_run_…_silent`.
unfoldable pub silently : ℕ → (Claim → Db → Merged) → Db → Merged
silently k body db = elim (get_claim k db) [
  | none ↦ record empty_merged { stage_error = some tt }
  | some c ↦ body c db
]

abbrev pub customer_silent : Services → ℕ → Db → Merged
customer_silent v k db = silently k (customer_profile_data v.settings v.now) db

abbrev pub policy_silent : Services → ℕ → Db → Merged
policy_silent v k db = silently k (λ c d. policy_data (validate d c v.now)) db

-- `_run_rag_retrieval_silent`
unfoldable pub rag_silent : Sources → ℕ → Db → Option Merged
rag_silent x k db = elim (get_claim k db) [
  | none ↦ some (record empty_merged { stage_error = some tt })
  | some c ↦ rag_data x c db
]

-- The three early steps anew, of which the clauses are not used; `none` is an exception.
unfoldable pub all_silent : Services → Sources → ℕ → Db → Option (Merged × Merged)
unfolding rag_silent
all_silent v x k db =
    rag_silent x k db >>= λ rag. some (policy_silent v k db, customer_silent v k db)

-- The results of the policy and the customer step out of a payload.
unfoldable pub from_payload : Services → Sources → ℕ → Db → Merged → Option (Merged × Merged)
from_payload v x k db p =
    if has_early_steps p
    then some (
      policy_keys p,
      if is_some p.customer_trust then customer_keys p else customer_silent v k db,
    )
    else all_silent v x k db

unfoldable pub from_log : Services → Sources → ℕ → Db → Option AuditLog → Option (Merged × Merged)
from_log v x k db none = all_silent v x k db
from_log v x k db (some a) = elim a.payload [
  | none ↦ all_silent v x k db
  | some p ↦ from_payload v x k db p
]

-- `_load_cached_early_steps`, without the clauses, which the run retrieves again.
unfoldable pub load_cached_early_steps : Services → Sources → ℕ → Db → Option (Merged × Merged)
load_cached_early_steps v x k db = from_log v x k db (last_analysis k db.audit)

resumed : Option Claim → Db → Db
resumed none db = db
resumed (some c) db =
    put_claim
      (record c { status = ClaimStatus.processing; pipeline_run_id = c.pipeline_run_id + 1 }) db

-- The claim is marked, and the run starts anew.
unfoldable pub resume_run : ℕ → Db → Db
unfolding resumed
resume_run k db = publish k pipeline_reset running (resumed (get_claim k db) db)

-- The retrieval after the evidence and the fraud step; it is not run when the fraud step raised.
unfoldable pub then_retrieval :
    Sources → ℕ → Merged → Merged → Merged → Option Merged → Db → Option (List Merged) × Db
then_retrieval x k policy customer evidence none db = (none, db)
then_retrieval x k policy customer evidence (some fraud) db =
    let (rag, db1) = run_rag_retrieval x k db in
    (rag >>= λ m. some (policy ∷ m ∷ customer ∷ evidence ∷ fraud ∷ []), db1)

-- The steps from the evidence on, with the early ones: the results of all five if none raised, and
-- the database after them.
unfoldable pub steps_from : Sources → ℕ → Option (Merged × Merged) → Db → Option (List Merged) × Db
unfolding then_retrieval
steps_from x k none db0 = (none, db0)
steps_from x k (some (policy, customer)) db0 =
    let (evidence, db1) = run_evidence_analysis x k db0 in
    let (fraud, db2) = run_fraud_detection x evidence k db1 in
    then_retrieval x k policy customer evidence fraud db2

unfoldable pub rerun_stages : Services → Sources → ℕ → Db → Option (List Merged) × Db
unfolding steps_from
rerun_stages v x k db0 = steps_from x k (load_cached_early_steps v x k db0) db0

is_first : Step → Bool
is_first submitted_step = true
is_first _ = false

rerun : Services → Sources → ℕ → Db → Finished × Db
rerun v x k db =
    let (results, db1) = rerun_stages v x k (resume_run k db) in
    conclude v k evidence_analysis results db1

-- `run_claim_pipeline_from`
unfoldable pub run_claim_pipeline_from : Services → Sources → Step → ℕ → Db → Finished × Db
unfolding is_first rerun
run_claim_pipeline_from v x from k db =
    if is_first from then run_claim_pipeline v x k db else rerun v x k db
