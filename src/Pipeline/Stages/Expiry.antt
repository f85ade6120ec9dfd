-- ===== src/Pipeline/Stages/Expiry.antt =====
-- How an expired policy ends a run.
use mathlib.Core.Path.{ap, ◌∙◌}
use insurance_claim_approval.Prelude.{
  ℕ, ◌≡◌, refl, inl, inr, true, false, Option, none, some, List, [], ◌∷◌, arith, or_else,
  Option-cases,
}
use insurance_claim_approval.Prelude.Time.{DateTime}
use insurance_claim_approval.Schema.Status.{ClaimStatus}
use insurance_claim_approval.Schema.Policy.{Policy}
use insurance_claim_approval.Schema.Claim.{Claim}
use insurance_claim_approval.Schema.Outcome.{Merged}
use insurance_claim_approval.Schema.Db.{
  Db, Step, get_claim, policy_of, publish, running, policy_validation, rag_retrieval,
  fraud_detection, decision_engine,
}
use insurance_claim_approval.Fraud.{FraudDetectionResult}
use insurance_claim_approval.Validation.Laws.{validate-Flags}
use insurance_claim_approval.Validation.{out_of_date, validate, latest_payment, payments_of}
use insurance_claim_approval.Pipeline.Finalize.{
  Services, Finished, finished, run_failed, Final, assessed,
}
use insurance_claim_approval.Pipeline.Finalize.Laws.{audited, finalize_claim-total}
use insurance_claim_approval.Pipeline.Merge.{
  empty_merged, merge, with_preview, decision_input, update,
}
use insurance_claim_approval.Config.{Settings}
use insurance_claim_approval.Decision.{decide}
use insurance_claim_approval.Decision.Routes.{decide-rejected_iff}
use insurance_claim_approval.Pipeline.Run.{start_run, start_run-policies}
use insurance_claim_approval.Pipeline.Stages.Outcomes.{
  run_stages-Untouched, Untouched-claim, start_run-claim, Malformed, run_stages-Malformed,
}
use insurance_claim_approval.Pipeline.Stages.{
  Sources, try_stage, stage_ended, rag_body, with_db, clarity_with, persisted, fraud_body,
  then_fraud, all_results, conclude, run_stage, run_policy_validation, run_rag_retrieval,
  run_customer_profile, run_evidence_analysis, run_fraud_detection, run_claim_pipeline, run_stages,
  rag_data, customer_profile_data, evidence_data, fraud_data, policy_data,
}

-- The stages after the first say nothing of the policy's expiry.
run_stage-expiry :
    (k : ℕ) (step : Step) (body : Claim → Db → Merged × Db) (db : Db)
    → ((c : Claim) (db0 : Db) → (body c db0).0.policy_expired ≡ none)
    → (run_stage k step body db).0.policy_expired ≡ none
unfolding run_stage
run_stage-expiry k step body db h = elim (Option-cases (get_claim k (publish k step running db))) [
  | inl e ↦ rw (e, run_stage) refl
  | inr (c, e) ↦ rw (e, run_stage) (h c (publish k step running db))
]

expiry_of_data : (m n : Merged) → m ≡ n → m.policy_expired ≡ none → n.policy_expired ≡ none
expiry_of_data m n same h = rw (← same) h

expiry_of :
    (m : Merged) → record empty_merged { stage_error = some tt } ≡ m → m.policy_expired ≡ none
expiry_of m same = expiry_of_data _ m same refl

-- So do those that may raise.
try_stage-expiry :
    (k : ℕ) (step : Step) (body : Claim → Db → Option (Merged × Db)) (db : Db) (m : Merged)
    → ((c : Claim) (db0 db1 : Db) (n : Merged)
        → body c db0 ≡ some (n, db1)
        → n.policy_expired ≡ none)
    → (try_stage k step body db).0 ≡ some m
    → m.policy_expired ≡ none
unfolding try_stage stage_ended
try_stage-expiry k step body db m h ran =
    elim (Option-cases (get_claim k (publish k step running db))) [
      | inl e ↦ let same = rw (e, try_stage) at ran in expiry_of m (cc same)
      | inr (c, e) ↦ elim (Option-cases (body c (publish k step running db))) [
        | inl f ↦ let never = rw (e, try_stage, f) at ran in ground arith
        | inr ((n, db1), f) ↦
            let same : some n ≡ some m = rw (e, try_stage, f) at ran in
            let is_m : n ≡ m = cc same in rw (← is_m) (h c (publish k step running db) db1 n f)
      ]
    ]

rag_body-expiry :
    (x : Sources) (c : Claim) (db db1 : Db) (n : Merged)
    → rag_body x c db ≡ some (n, db1)
    → n.policy_expired ≡ none
unfolding rag_body with_db rag_data
rag_body-expiry x c db db1 n h =
    elim (Option-cases (clarity_with (x.clarity c db) (x.coverage_confidence c (x.clauses c db)))) [
      | inl e ↦ let never = rw e at h in ground arith
      | inr (m, e) ↦
          let found : Merged = record empty_merged {
            retrieved_clauses = some (x.clauses c db);
            clause_clarity_score = some m;
          } in
          let same : some (found, db) ≡ some (n, db1) = rw e at h in
          expiry_of_data found n (cc same) refl
    ]

rag-expiry :
    (x : Sources) (k : ℕ) (db : Db) (m : Merged)
    → (run_rag_retrieval x k db).0 ≡ some m
    → m.policy_expired ≡ none
unfolding run_rag_retrieval
rag-expiry x k db m = try_stage-expiry k rag_retrieval (rag_body x) db m (rag_body-expiry x)

customer-expiry :
    (s : Settings) (now : DateTime) (k : ℕ) (db : Db)
    → (run_customer_profile s now k db).0.policy_expired ≡ none
unfolding run_customer_profile
customer-expiry s now k db =
    run_stage-expiry k _ _ db (λ c db0. unfold customer_profile_data in refl)

evidence-expiry :
    (x : Sources) (k : ℕ) (db : Db) → (run_evidence_analysis x k db).0.policy_expired ≡ none
unfolding run_evidence_analysis
evidence-expiry x k db = run_stage-expiry k _ _ db (λ c db0. unfold evidence_data in refl)

persisted-expiry :
    (k : ℕ) (db db1 : Db) (o : Option FraudDetectionResult) (n : Merged)
    → persisted k db o ≡ some (n, db1)
    → n.policy_expired ≡ none
unfolding persisted fraud_data
persisted-expiry k db db1 none n h = ground arith
persisted-expiry k db db1 (some r) n h = expiry_of_data (fraud_data r) n (cc h) refl

fraud_body-expiry :
    (x : Sources) (e : Merged) (k : ℕ) (c : Claim) (db db1 : Db) (n : Merged)
    → fraud_body x e k c db ≡ some (n, db1)
    → n.policy_expired ≡ none
unfolding fraud_body
fraud_body-expiry x e k c db db1 n h = persisted-expiry k db db1 _ n h

fraud-expiry :
    (x : Sources) (e : Merged) (k : ℕ) (db : Db) (m : Merged)
    → (run_fraud_detection x e k db).0 ≡ some m
    → m.policy_expired ≡ none
unfolding run_fraud_detection
fraud-expiry x e k db m =
    try_stage-expiry k fraud_detection (fraud_body x e k) db m (fraud_body-expiry x e k)

merge-expiry :
    (p r c e f : Merged)
    → p.policy_expired ≡ some true
    → r.policy_expired ≡ none
    → c.policy_expired ≡ none
    → e.policy_expired ≡ none
    → f.policy_expired ≡ none
    → (merge (p ∷ r ∷ c ∷ e ∷ f ∷ [])).policy_expired ≡ some true
unfolding merge update
merge-expiry p r c e f hp hr hc he hf = ground arith

validate-expiry :
    (now : DateTime) (c : Claim) (db : Db) (p : Policy)
    → policy_of c db ≡ some p
    → out_of_date p now ≡ true
    → (validate db c now).policy_expired ≡ true
unfolding validate
validate-expiry now c db p q late =
    let flags = validate-Flags p (latest_payment (payments_of p db)) c now in
    rw (q, validate) (flags.expired ∙ rw late)

policy-expiry :
    (now : DateTime) (c : Claim) (db : Db) (p : Policy)
    → get_claim c.id db ≡ some c
    → policy_of c db ≡ some p
    → out_of_date p now ≡ true
    → (run_policy_validation now c.id db).0.policy_expired ≡ some true
unfolding run_policy_validation run_stage policy_data get_claim policy_of
policy-expiry now c db p h q late =
    let db0 = publish c.id policy_validation running db in
    rw (h, run_stage) (ap some (validate-expiry now c db0 p q late))

with_preview-expiry :
    (c : Claim) (p : Option Policy) (m : Merged)
    → (with_preview c p m).policy_expired ≡ m.policy_expired
unfolding with_preview
with_preview-expiry c none m = refl
with_preview-expiry c (some p) m = refl

assessed-expiry :
    (v : Services) (c : Claim) (db : Db) (m : Merged)
    → m.policy_expired ≡ some true
    → (decide (assessed v c db m).0).status ≡ ClaimStatus.rejected
unfolding assessed decision_input
assessed-expiry v c db m h =
    let kept = with_preview-expiry c (policy_of c db) m ∙ h in
    (decide-rejected_iff (assessed v c db m).0).1 (inl (ap (λ o. or_else o false) kept))

policy_of-same : (c : Claim) (a b : Db) → b.policies ≡ a.policies → policy_of c b ≡ policy_of c a
unfolding policy_of
policy_of-same c a b h = rw h

-- All five stages ran.
all_results-expiry :
    (x : Sources) (k : ℕ) (p : Merged) (r : Option Merged) (c e : Merged) (db : Db)
    (results : List Merged)
    → (then_fraud x k p r c e db).0 ≡ some results
    → p.policy_expired ≡ some true
    → ((m : Merged) → r ≡ some m → m.policy_expired ≡ none)
    → c.policy_expired ≡ none
    → e.policy_expired ≡ none
    → (merge results).policy_expired ≡ some true
unfolding then_fraud all_results
all_results-expiry x k p none c e db results h hp hr hc he = ground arith
all_results-expiry x k p (some r) c e db results h hp hr hc he =
    elim (Option-cases (run_fraud_detection x e k db).0) [
      | inl f ↦ let never = rw f at h in ground arith
      | inr (m, f) ↦
          let same : some (p ∷ r ∷ c ∷ e ∷ m ∷ []) ≡ some results = rw f at h in
          let is_results : (p ∷ r ∷ c ∷ e ∷ m ∷ []) ≡ results = cc same in
          rw (← is_results)
            (merge-expiry p r c e m hp (hr r refl) hc he (fraud-expiry x e k db m f))
    ]

run_stages-expiry :
    (v : Services) (x : Sources) (c : Claim) (p : Policy) (db : Db) (results : List Merged)
    → get_claim c.id db ≡ some c
    → policy_of c db ≡ some p
    → out_of_date p v.now ≡ true
    → (run_stages v x c.id db).0 ≡ some results
    → (merge results).policy_expired ≡ some true
unfolding run_stages
run_stages-expiry v x c p db results h q late ran =
    let (policy, db1) = run_policy_validation v.now c.id db in
    let (rag, db2) = run_rag_retrieval x c.id db1 in
    let (customer, db3) = run_customer_profile v.settings v.now c.id db2 in
    let (evidence, db4) = run_evidence_analysis x c.id db3 in
    all_results-expiry x c.id policy rag customer evidence db4 results ran
      (policy-expiry v.now c db p h q late) (rag-expiry x c.id db1)
      (customer-expiry v.settings v.now c.id db2) (evidence-expiry x c.id db3)

-- The two ends of a run on an expired policy.
pub data IsTurnedDown (x : Sources) (result : Finished) : Type 0 where
  rejects :
      (f : Final) → result ≡ finished f → f.status ≡ ClaimStatus.rejected → IsTurnedDown x result
  breaks : result ≡ run_failed → Malformed x → IsTurnedDown x result

conclude-expiry :
    (v : Services) (x : Sources) (c : Claim) (o : Option (List Merged)) (db : Db)
    → get_claim c.id db ≡ some c
    → ((results : List Merged) → o ≡ some results → (merge results).policy_expired ≡ some true)
    → (o ≡ none → Malformed x)
    → IsTurnedDown x (conclude v c.id decision_engine o db).0
unfolding conclude
conclude-expiry v x c none db found known raised = breaks refl (raised refl)
conclude-expiry v x c (some results) db found known raised =
    let (f, ends, same) = finalize_claim-total v c results db found in
    rejects f ends
      (same ∙ assessed-expiry v c (audited c.id results db) (merge results) (known results refl))

-- A run on a claim whose policy is past its expiry date, or marked expired, ends REJECTED, whatever
-- retrieval, OCR and the language model answer, unless the model gives a confidence that is no number
-- or a rationale that is no text: then the run returns an error.
pub run_rejects_expired :
    (v : Services) (x : Sources) (c : Claim) (p : Policy) (db : Db)
    → get_claim c.id db ≡ some c
    → policy_of c db ≡ some p
    → out_of_date p v.now ≡ true
    → IsTurnedDown x (run_claim_pipeline v x c.id db).0
unfolding run_claim_pipeline policy_of
run_rejects_expired v x c p db h q late =
    let db0 = start_run c.id db in
    let c0 = record c { status = ClaimStatus.processing } in
    let (results, db1) = run_stages v x c.id db0 in
    let ready = start_run-claim c db h in
    let found = Untouched-claim c.id db0 db1 c0 (run_stages-Untouched v x c.id db0) ready in
    conclude-expiry v x c0 results db1 found
      (λ all.
        run_stages-expiry v x c0 p db0 all ready
          (policy_of-same c db db0 (start_run-policies c.id db) ∙ q) late)
      (run_stages-Malformed v x c.id db0)
