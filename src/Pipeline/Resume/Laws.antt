-- ===== src/Pipeline/Resume/Laws.antt =====
-- A run from a later step ends as a whole run does.
use insurance_claim_approval.Prelude.{
  ℕ, ◌+◌, ◌≡◌, refl, inl, inr, Option, none, some, ◌>>=◌, Option-cases, Bool-cases, arith,
}
use insurance_claim_approval.Schema.Status.{ClaimStatus}
use insurance_claim_approval.Schema.Claim.{Claim}
use insurance_claim_approval.Schema.Db.{Db, Step, get_claim, put_claim-get, evidence_analysis}
use insurance_claim_approval.Schema.Outcome.{Merged, AuditLog}
use insurance_claim_approval.Schema.Approvals.{Signed, put_claim-Signed}
use insurance_claim_approval.Pipeline.Finalize.{Services}
use insurance_claim_approval.Pipeline.Stages.{Sources, run_evidence_analysis, run_fraud_detection}
use insurance_claim_approval.Pipeline.Stages.Outcomes.{
  Untouched, Untouched-trans, Untouched-Signed, Untouched-claim, evidence-Untouched,
  fraud-Untouched, rag-Untouched, run_claim_pipeline-Signed, run_claim_pipeline-IsOver, Malformed,
  IsOver, rag_data-Malformed, rag-Malformed, fraud-Malformed, conclude-Signed, conclude-IsOver,
}
use insurance_claim_approval.Pipeline.Resume.{
  then_retrieval, steps_from, load_cached_early_steps, rag_silent, all_silent, from_payload,
  from_log, has_early_steps, last_analysis, resumed, resume_run, rerun_stages, is_first, rerun,
  run_claim_pipeline_from,
}

then_retrieval-Untouched :
    (x : Sources) (k : ℕ) (p c e : Merged) (f : Option Merged) (db : Db)
    → Untouched db (then_retrieval x k p c e f db).1
unfolding then_retrieval
then_retrieval-Untouched x k p c e none db = (refl, refl)
then_retrieval-Untouched x k p c e (some f) db = rag-Untouched x k db

steps_from-Untouched :
    (x : Sources) (k : ℕ) (early : Option (Merged × Merged)) (db : Db)
    → Untouched db (steps_from x k early db).1
unfolding steps_from
steps_from-Untouched x k none db = (refl, refl)
steps_from-Untouched x k (some (policy, customer)) db =
    let (evidence, db1) = run_evidence_analysis x k db in
    let (fraud, db2) = run_fraud_detection x evidence k db1 in
    let db3 = (then_retrieval x k policy customer evidence fraud db2).1 in
    Untouched-trans db db1 db3 (evidence-Untouched x k db) (
      Untouched-trans db1 db2 db3 (fraud-Untouched x evidence k db1)
        (then_retrieval-Untouched x k policy customer evidence fraud db2))

rerun_stages-Untouched :
    (v : Services) (x : Sources) (k : ℕ) (db : Db) → Untouched db (rerun_stages v x k db).1
unfolding rerun_stages
rerun_stages-Untouched v x k db = steps_from-Untouched x k (load_cached_early_steps v x k db) db

bind_none : {A B : Type 0} (o : Option A) (f : A → B) → (o >>= λ a. some (f a)) ≡ none → o ≡ none
bind_none none f h = refl
bind_none (some a) f h = ground arith

rag_silent-Malformed : (x : Sources) (k : ℕ) (db : Db) → rag_silent x k db ≡ none → Malformed x
unfolding rag_silent
rag_silent-Malformed x k db h = elim (Option-cases (get_claim k db)) [
  | inl e ↦ let never = rw (e, rag_silent) at h in ground arith
  | inr (c, e) ↦ rag_data-Malformed x c db (rw (e, rag_silent) at h)
]

all_silent-Malformed :
    (v : Services) (x : Sources) (k : ℕ) (db : Db) → all_silent v x k db ≡ none → Malformed x
unfolding all_silent
all_silent-Malformed v x k db h = rag_silent-Malformed x k db (bind_none _ _ h)

from_payload-Malformed :
    (v : Services) (x : Sources) (k : ℕ) (db : Db) (p : Merged)
    → from_payload v x k db p ≡ none
    → Malformed x
unfolding from_payload
from_payload-Malformed v x k db p h = elim (Bool-cases (has_early_steps p)) [
  | inl e ↦ let never = rw e at h in ground arith
  | inr e ↦ all_silent-Malformed v x k db (rw e at h)
]

from_log-Malformed :
    (v : Services) (x : Sources) (k : ℕ) (db : Db) (o : Option AuditLog)
    → from_log v x k db o ≡ none
    → Malformed x
unfolding from_log
from_log-Malformed v x k db none h = all_silent-Malformed v x k db h
from_log-Malformed v x k db (some a) h = elim (Option-cases a.payload) [
  | inl e ↦ all_silent-Malformed v x k db (rw e at h)
  | inr (p, e) ↦ from_payload-Malformed v x k db p (rw e at h)
]

then_retrieval-Malformed :
    (x : Sources) (k : ℕ) (p c e : Merged) (f : Option Merged) (db : Db)
    → (f ≡ none → Malformed x)
    → (then_retrieval x k p c e f db).0 ≡ none
    → Malformed x
unfolding then_retrieval
then_retrieval-Malformed x k p c e none db raised h = raised refl
then_retrieval-Malformed x k p c e (some f) db raised h = rag-Malformed x k db (bind_none _ _ h)

steps_from-Malformed :
    (x : Sources) (k : ℕ) (early : Option (Merged × Merged)) (db : Db)
    → (early ≡ none → Malformed x)
    → (steps_from x k early db).0 ≡ none
    → Malformed x
unfolding steps_from
steps_from-Malformed x k none db raised h = raised refl
steps_from-Malformed x k (some (policy, customer)) db raised h =
    let (evidence, db1) = run_evidence_analysis x k db in
    let (fraud, db2) = run_fraud_detection x evidence k db1 in
    then_retrieval-Malformed x k policy customer evidence fraud db2
      (fraud-Malformed x evidence k db1) h

rerun_stages-Malformed :
    (v : Services) (x : Sources) (k : ℕ) (db : Db) → (rerun_stages v x k db).0 ≡ none → Malformed x
unfolding rerun_stages load_cached_early_steps
rerun_stages-Malformed v x k db h =
    steps_from-Malformed x k (load_cached_early_steps v x k db) db
      (from_log-Malformed v x k db (last_analysis k db.audit)) h

resume_run-Signed : (k : ℕ) (db : Db) → Signed db → Signed (resume_run k db)
unfolding resume_run resumed get_claim
resume_run-Signed k db s = elim (Option-cases (get_claim k db)) [
  | inl e ↦ rw (e, resumed) s
  | inr (c, e) ↦ rw (e, resumed) (put_claim-Signed _ db s (λ a. ground arith))
]

-- A run from any step approves no claim.
pub run_claim_pipeline_from-Signed :
    (v : Services) (x : Sources) (from : Step) (k : ℕ) (db : Db)
    → Signed db
    → Signed (run_claim_pipeline_from v x from k db).1
unfolding run_claim_pipeline_from rerun
run_claim_pipeline_from-Signed v x from k db s = elim (Bool-cases (is_first from)) [
  | inl e ↦ rw e (run_claim_pipeline-Signed v x k db s)
  | inr e ↦
      let db0 = resume_run k db in
      rw e (
        conclude-Signed v k _ _ _
          (Untouched-Signed db0 _ (rerun_stages-Untouched v x k db0) (resume_run-Signed k db s)))
]

abbrev renewed : Claim → Claim
renewed c = record c { status = ClaimStatus.processing; pipeline_run_id = c.pipeline_run_id + 1 }

resume_run-claim :
    (c : Claim) (db : Db)
    → get_claim c.id db ≡ some c
    → get_claim c.id (resume_run c.id db) ≡ some (renewed c)
unfolding resume_run resumed get_claim
resume_run-claim c db h = rw (h, resumed) (put_claim-get (renewed c) c db h)

-- A run from any step on a claim of the database ends in one of two ways. It finishes with a claim
-- and a decision of the status that it returns, which is not APPROVED, and nothing paid. Or the
-- language model gave a confidence that is no number, or a rationale that is no text: then the run
-- returns an error, and leaves the claim PENDING when it has no decision, and PROCESSING when it has
-- one from before.
pub run_claim_pipeline_from-IsOver :
    (v : Services) (x : Sources) (from : Step) (c : Claim) (db : Db)
    → get_claim c.id db ≡ some c
    → IsOver x c.id (run_claim_pipeline_from v x from c.id db)
unfolding run_claim_pipeline_from rerun
run_claim_pipeline_from-IsOver v x from c db h = elim (Bool-cases (is_first from)) [
  | inl e ↦ rw e (run_claim_pipeline-IsOver v x c db h)
  | inr e ↦
      let db0 = resume_run c.id db in
      let (results, db1) = rerun_stages v x c.id db0 in
      let found =
        Untouched-claim c.id db0 db1 (renewed c) (rerun_stages-Untouched v x c.id db0)
          (resume_run-claim c db h) in
      rw e (
        conclude-IsOver v x evidence_analysis (renewed c) results db1 found refl
          (rerun_stages-Malformed v x c.id db0))
]
