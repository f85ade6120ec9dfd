-- ===== src/Pipeline/Stages/Outcomes.antt =====
-- What a whole run comes to.
use mathlib.Core.Path.{◌∙◌, subst}
use insurance_claim_approval.Prelude.{
  ℕ, ◌≡◌, ◌≢◌, refl, inl, inr, Option, none, some, List, arith, ◌>>=◌, Option-cases,
}
use insurance_claim_approval.Prelude.Text.{Text}
use insurance_claim_approval.Schema.Messages.{Signal}
use insurance_claim_approval.Prelude.Time.{DateTime}
use insurance_claim_approval.Schema.Status.{ClaimStatus}
use insurance_claim_approval.Schema.Claim.{Claim}
use insurance_claim_approval.Schema.Outcome.{Merged, Clause}
use insurance_claim_approval.Schema.Db.{
  Db, Step, get_claim, put_claim-get, publish, running, decision_engine, rag_retrieval,
  fraud_detection,
}
use insurance_claim_approval.Schema.Approvals.{Signed}
use insurance_claim_approval.Evidence.{analyze_evidence}
use insurance_claim_approval.Fraud.{FraudDetectionResult, persist}
use insurance_claim_approval.Pipeline.Finalize.{Services, Finished, finished, run_failed, Final}
use insurance_claim_approval.Pipeline.Finalize.Laws.{
  Settled, finalize_claim-Settled, finalize_claim-total,
}
use insurance_claim_approval.Config.{Settings}
use insurance_claim_approval.Pipeline.Finalize.Approvals.{finalize_claim-Signed}
use insurance_claim_approval.Pipeline.Run.{
  IsLeft, start_run, start_run-Signed, failure-Signed, failure-IsLeft,
}
use insurance_claim_approval.Pipeline.Stages.{
  Sources, Answer, malformed, missing, given, clarity_with, rag_data, rationale_signals, combined,
  with_db, rag_body, persisted, fraud_body, all_results, then_fraud, conclude, try_stage,
  stage_ended, run_stage, run_policy_validation, run_rag_retrieval, run_customer_profile,
  run_evidence_analysis, run_fraud_detection, run_claim_pipeline, run_stages,
}

-- The claims and the audit log are as before.
abbrev pub Untouched : Db → Db → Type 0
Untouched db db' = (db'.claims ≡ db.claims) × (db'.audit ≡ db.audit)

run_stage-Untouched :
    (k : ℕ) (step : Step) (body : Claim → Db → Merged × Db) (db : Db)
    → ((c : Claim) (db0 : Db) → Untouched db0 (body c db0).1)
    → Untouched db (run_stage k step body db).1
unfolding run_stage
run_stage-Untouched k step body db h =
    elim (Option-cases (get_claim k (publish k step running db))) [
      | inl e ↦ rw (e, run_stage) (refl, refl)
      | inr (c, e) ↦ rw (e, run_stage) (h c (publish k step running db))
    ]

-- The body of a stage that may raise.
try_stage-Untouched :
    (k : ℕ) (step : Step) (body : Claim → Db → Option (Merged × Db)) (db : Db)
    → ((c : Claim) (db0 db1 : Db) (m : Merged) → body c db0 ≡ some (m, db1) → Untouched db0 db1)
    → Untouched db (try_stage k step body db).1
unfolding try_stage stage_ended
try_stage-Untouched k step body db h =
    elim (Option-cases (get_claim k (publish k step running db))) [
      | inl e ↦ rw (e, try_stage) (refl, refl)
      | inr (c, e) ↦ elim (Option-cases (body c (publish k step running db))) [
        | inl f ↦ rw (e, try_stage, f) (refl, refl)
        | inr ((m, db1), f) ↦ rw (e, try_stage, f) (h c (publish k step running db) db1 m f)
      ]
    ]

-- A stage raises only where its body does.
pub try_stage-raised :
    (k : ℕ) (step : Step) (body : Claim → Db → Option (Merged × Db)) (db : Db)
    → (try_stage k step body db).0 ≡ none
    → (c : Claim) × (db0 : Db) × (body c db0 ≡ none)
unfolding try_stage stage_ended
try_stage-raised k step body db h = elim (Option-cases (get_claim k (publish k step running db))) [
  | inl e ↦ let never = rw (e, try_stage) at h in ground arith
  | inr (c, e) ↦ elim (Option-cases (body c (publish k step running db))) [
    | inl f ↦ (c, publish k step running db, f)
    | inr ((m, db1), f) ↦ let never = rw (e, try_stage, f) at h in ground arith
  ]
]

same_db : (db db1 : Db) (o : Option Merged) (m : Merged) → with_db db o ≡ some (m, db1) → db ≡ db1
unfolding with_db
same_db db db1 none m h = ground arith
same_db db db1 (some a) m h = cc h

persisted-inv :
    (db db1 : Db) (k : ℕ) (o : Option FraudDetectionResult) (m : Merged)
    → persisted k db o ≡ some (m, db1)
    → (r : FraudDetectionResult) × (persist db k r ≡ db1)
unfolding persisted
persisted-inv db db1 k none m h = ground arith
persisted-inv db db1 k (some r) m h = (r, cc h)

pub Untouched-trans : (a b c : Db) → Untouched a b → Untouched b c → Untouched a c
Untouched-trans a b c (p, q) (r, s) = (r ∙ p, s ∙ q)

pub Untouched-Signed : (a b : Db) → Untouched a b → Signed a → Signed b
unfolding get_claim
Untouched-Signed a b (p, q) s = rw (p, q) s

pub evidence-Untouched :
    (x : Sources) (k : ℕ) (db : Db) → Untouched db (run_evidence_analysis x k db).1
unfolding run_evidence_analysis
evidence-Untouched x k db =
    run_stage-Untouched k _ _ db (λ c db0. unfold analyze_evidence in (refl, refl))

persist-Untouched : (k : ℕ) (db : Db) (r : FraudDetectionResult) → Untouched db (persist db k r)
unfolding persist
persist-Untouched k db r = (refl, refl)

fraud_body-Untouched :
    (x : Sources) (m : Merged) (k : ℕ) (c : Claim) (db db1 : Db) (n : Merged)
    → fraud_body x m k c db ≡ some (n, db1)
    → Untouched db db1
unfolding fraud_body
fraud_body-Untouched x m k c db db1 n h =
    let (r, same) = persisted-inv db db1 k _ n h in
    subst (Untouched db) same (persist-Untouched k db r)

pub fraud-Untouched :
    (x : Sources) (m : Merged) (k : ℕ) (db : Db) → Untouched db (run_fraud_detection x m k db).1
unfolding run_fraud_detection
fraud-Untouched x m k db =
    try_stage-Untouched k fraud_detection (fraud_body x m k) db (fraud_body-Untouched x m k)

policy-Untouched :
    (now : DateTime) (k : ℕ) (db : Db) → Untouched db (run_policy_validation now k db).1
unfolding run_policy_validation
policy-Untouched now k db = run_stage-Untouched k _ _ db (λ c db0. (refl, refl))

pub rag-Untouched : (x : Sources) (k : ℕ) (db : Db) → Untouched db (run_rag_retrieval x k db).1
unfolding run_rag_retrieval rag_body
rag-Untouched x k db =
    try_stage-Untouched k _ _ db
      (λ c db0 db1 m h. subst (Untouched db0) (same_db db0 db1 (rag_data x c db0) m h) (refl, refl))

customer-Untouched :
    (s : Settings) (now : DateTime) (k : ℕ) (db : Db)
    → Untouched db (run_customer_profile s now k db).1
unfolding run_customer_profile
customer-Untouched s now k db = run_stage-Untouched k _ _ db (λ c db0. (refl, refl))

then_fraud-Untouched :
    (x : Sources) (k : ℕ) (p : Merged) (r : Option Merged) (c e : Merged) (db : Db)
    → Untouched db (then_fraud x k p r c e db).1
unfolding then_fraud
then_fraud-Untouched x k p none c e db = (refl, refl)
then_fraud-Untouched x k p (some r) c e db = fraud-Untouched x e k db

pub run_stages-Untouched :
    (v : Services) (x : Sources) (k : ℕ) (db : Db) → Untouched db (run_stages v x k db).1
unfolding run_stages
run_stages-Untouched v x k db =
    let (policy, db1) = run_policy_validation v.now k db in
    let (rag, db2) = run_rag_retrieval x k db1 in
    let (customer, db3) = run_customer_profile v.settings v.now k db2 in
    let (evidence, db4) = run_evidence_analysis x k db3 in
    let db5 = (then_fraud x k policy rag customer evidence db4).1 in
    Untouched-trans db db1 db5 (policy-Untouched v.now k db) (
      Untouched-trans db1 db2 db5 (rag-Untouched x k db1) (
        Untouched-trans db2 db3 db5 (customer-Untouched v.settings v.now k db2) (
          Untouched-trans db3 db4 db5 (evidence-Untouched x k db3)
            (then_fraud-Untouched x k policy rag customer evidence db4))))

-- The end of a run approves no claim.
pub conclude-Signed :
    (v : Services) (k : ℕ) (step : Step) (results : Option (List Merged)) (db : Db)
    → Signed db
    → Signed (conclude v k step results db).1
unfolding conclude
conclude-Signed v k step none db s = failure-Signed k step db s
conclude-Signed v k step (some results) db s = finalize_claim-Signed v k results db s

-- A whole run of the pipeline approves no claim.
pub run_claim_pipeline-Signed :
    (v : Services) (x : Sources) (k : ℕ) (db : Db)
    → Signed db
    → Signed (run_claim_pipeline v x k db).1
unfolding run_claim_pipeline
run_claim_pipeline-Signed v x k db s =
    let db0 = start_run k db in
    conclude-Signed v k _ _ _
      (Untouched-Signed db0 _ (run_stages-Untouched v x k db0) (start_run-Signed k db s))

pub Untouched-claim :
    (k : ℕ) (a b : Db) (c : Claim) → Untouched a b → get_claim k a ≡ some c → get_claim k b ≡ some c
unfolding get_claim
Untouched-claim k a b c (p, q) h = rw p h

pub start_run-claim :
    (c : Claim) (db : Db)
    → get_claim c.id db ≡ some c
    → get_claim c.id (start_run c.id db) ≡ some (record c { status = ClaimStatus.processing })
unfolding start_run get_claim
start_run-claim c db h =
    rw (h, start_run) (put_claim-get (record c { status = ClaimStatus.processing }) c db h)

-- Some answer of the language model is not of the kind that the stages read.
pub data Malformed (x : Sources) : Type 0 where
  confidence : (c : Claim) (xs : List Clause) → x.coverage_confidence c xs ≡ malformed → Malformed x
  rationale : (c : Claim) (xs : List Signal) → x.fraud_rationale c xs ≡ malformed → Malformed x

clarity_none : (n : ℕ) (a : Answer ℕ) → clarity_with n a ≡ none → a ≡ malformed
unfolding clarity_with
clarity_none n missing h = ground arith
clarity_none n malformed h = refl
clarity_none n (given m) h = ground arith

bind_none : {A B : Type 0} (o : Option A) (f : A → B) → (o >>= λ a. some (f a)) ≡ none → o ≡ none
bind_none none f h = refl
bind_none (some a) f h = ground arith

pub rag_data-Malformed : (x : Sources) (c : Claim) (db : Db) → rag_data x c db ≡ none → Malformed x
unfolding rag_data
rag_data-Malformed x c db h =
    confidence c (x.clauses c db) (clarity_none (x.clarity c db) _ (bind_none _ _ h))

with_db-none : (db : Db) (o : Option Merged) → with_db db o ≡ none → o ≡ none
unfolding with_db
with_db-none db none h = refl
with_db-none db (some m) h = ground arith

persisted-none :
    (k : ℕ) (db : Db) (o : Option FraudDetectionResult) → persisted k db o ≡ none → o ≡ none
unfolding persisted
persisted-none k db none h = refl
persisted-none k db (some r) h = ground arith

rag_body-Malformed : (x : Sources) (c : Claim) (db : Db) → rag_body x c db ≡ none → Malformed x
unfolding rag_body
rag_body-Malformed x c db h = rag_data-Malformed x c db (with_db-none db _ h)

pub rag-Malformed :
    (x : Sources) (k : ℕ) (db : Db) → (run_rag_retrieval x k db).0 ≡ none → Malformed x
unfolding run_rag_retrieval
rag-Malformed x k db h =
    let (c, db0, raised) = try_stage-raised k rag_retrieval (rag_body x) db h in
    rag_body-Malformed x c db0 raised

rationale_none : (a : Answer Text) → rationale_signals a ≡ none → a ≡ malformed
unfolding rationale_signals
rationale_none missing h = ground arith
rationale_none malformed h = refl
rationale_none (given t) h = ground arith

combined-Malformed :
    (x : Sources) (c : Claim) (shown : List Signal) (r : FraudDetectionResult)
    → combined x c shown r ≡ none
    → Malformed x
unfolding combined
combined-Malformed x c shown r h = rationale c shown (rationale_none _ (bind_none _ _ h))

fraud_body-Malformed :
    (x : Sources) (m : Merged) (k : ℕ) (c : Claim) (db : Db)
    → fraud_body x m k c db ≡ none
    → Malformed x
unfolding fraud_body
fraud_body-Malformed x m k c db h = combined-Malformed x c _ _ (persisted-none k db _ h)

pub fraud-Malformed :
    (x : Sources) (m : Merged) (k : ℕ) (db : Db)
    → (run_fraud_detection x m k db).0 ≡ none
    → Malformed x
unfolding run_fraud_detection
fraud-Malformed x m k db h =
    let (c, db0, raised) = try_stage-raised k fraud_detection (fraud_body x m k) db h in
    fraud_body-Malformed x m k c db0 raised

all_none : (p r c e : Merged) (f : Option Merged) → all_results p r c e f ≡ none → f ≡ none
unfolding all_results
all_none p r c e none h = refl
all_none p r c e (some f) h = ground arith

then_fraud-Malformed :
    (x : Sources) (k : ℕ) (p : Merged) (r : Option Merged) (c e : Merged) (db : Db)
    → (r ≡ none → Malformed x)
    → (then_fraud x k p r c e db).0 ≡ none
    → Malformed x
unfolding then_fraud
then_fraud-Malformed x k p none c e db raised h = raised refl
then_fraud-Malformed x k p (some r) c e db raised h =
    fraud-Malformed x e k db (all_none p r c e _ h)

pub run_stages-Malformed :
    (v : Services) (x : Sources) (k : ℕ) (db : Db) → (run_stages v x k db).0 ≡ none → Malformed x
unfolding run_stages
run_stages-Malformed v x k db h =
    let (policy, db1) = run_policy_validation v.now k db in
    let (rag, db2) = run_rag_retrieval x k db1 in
    let (customer, db3) = run_customer_profile v.settings v.now k db2 in
    let (evidence, db4) = run_evidence_analysis x k db3 in
    then_fraud-Malformed x k policy rag customer evidence db4 (rag-Malformed x k db1) h

-- The two ends of a run.
pub data IsOver (x : Sources) (k : ℕ) (end : Finished × Db) : Type 0 where
  settled :
      (f : Final)
      → end.0 ≡ finished f
      → f.status ≢ ClaimStatus.approved
      → f.payable_amount ≡ 0
      → Settled k f.status end.1
      → IsOver x k end
  broken : end.0 ≡ run_failed → Malformed x → IsLeft k end.1 → IsOver x k end

pub conclude-IsOver :
    (v : Services) (x : Sources) (step : Step) (c : Claim) (results : Option (List Merged))
    (db : Db)
    → get_claim c.id db ≡ some c
    → c.status ≡ ClaimStatus.processing
    → (results ≡ none → Malformed x)
    → IsOver x c.id (conclude v c.id step results db)
unfolding conclude
conclude-IsOver v x step c none db found busy raised =
    broken refl (raised refl) (failure-IsLeft step c db found busy)
conclude-IsOver v x step c (some results) db found busy raised =
    let (f, ends, _) = finalize_claim-total v c results db found in
    let (ne, unpaid, done) = finalize_claim-Settled v c results db f found ends in
    settled f ends ne unpaid done

-- The end of a whole run on a claim of the database.
pub run_claim_pipeline-IsOver :
    (v : Services) (x : Sources) (c : Claim) (db : Db)
    → get_claim c.id db ≡ some c
    → IsOver x c.id (run_claim_pipeline v x c.id db)
unfolding run_claim_pipeline
run_claim_pipeline-IsOver v x c db h =
    let db0 = start_run c.id db in
    let c0 = record c { status = ClaimStatus.processing } in
    let (results, db1) = run_stages v x c.id db0 in
    let found =
      Untouched-claim c.id db0 db1 c0 (run_stages-Untouched v x c.id db0)
        (start_run-claim c db h) in
    conclude-IsOver v x decision_engine c0 results db1 found refl
      (run_stages-Malformed v x c.id db0)
