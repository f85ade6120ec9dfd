-- ===== src/Tests/Runs.antt =====
-- Whole runs of the pipeline.
use insurance_claim_approval.Prelude.{◌≡◌, refl, true, some, [], ◌∷◌}
use insurance_claim_approval.Schema.Status.{PolicyStatus}
use insurance_claim_approval.Schema.Policy.{Policy}
use insurance_claim_approval.Schema.Db.{evidence_analysis, Db, get_claim, find_claim, policy_of}
use insurance_claim_approval.Validation.{out_of_date}
use insurance_claim_approval.Evidence.{no_answer}
use insurance_claim_approval.Fraud.{absent}
use insurance_claim_approval.Pipeline.Stages.{Sources, missing, run_claim_pipeline}
use insurance_claim_approval.Pipeline.Stages.Expiry.{IsTurnedDown, run_rejects_expired}
use insurance_claim_approval.Pipeline.Resume.{run_claim_pipeline_from}
use insurance_claim_approval.Pipeline.Resume.Laws.{run_claim_pipeline_from-IsOver}
use insurance_claim_approval.Pipeline.Stages.Outcomes.{IsOver}
use insurance_claim_approval.Tests.Data.{policy, claim, db, services}

abbrev silent : Sources
silent = record {
  readers = record {
    is_text_code = λ c. true;
    extract_text = λ d. [];
    pattern_hits = λ t s. 0;
    check_type = λ t s incident. no_answer;
  };
  clauses = λ c d. [];
  clarity = λ c d. 5000;
  coverage_confidence = λ c xs. missing;
  fraud_score = λ c xs. absent;
  fraud_rationale = λ c xs. missing;
}

found : get_claim 7 db ≡ some claim
unfolding get_claim find_claim
found = refl

run_claim_pipeline_from-IsOver_example :
    IsOver silent 7 (run_claim_pipeline_from services silent evidence_analysis 7 db)
run_claim_pipeline_from-IsOver_example =
    run_claim_pipeline_from-IsOver services silent evidence_analysis claim db found

abbrev old_policy : Policy
old_policy = record policy { status = PolicyStatus.expired }

abbrev old_db : Db
old_db = record db { policies = old_policy ∷ [] }

old_found : get_claim 7 old_db ≡ some claim
unfolding get_claim find_claim
old_found = refl

old_held : policy_of claim old_db ≡ some old_policy
unfolding policy_of
old_held = refl

old_late : out_of_date old_policy services.now ≡ true
unfolding out_of_date
old_late = refl

run_rejects_expired_example : IsTurnedDown silent (run_claim_pipeline services silent 7 old_db).0
run_rejects_expired_example =
    run_rejects_expired services silent claim old_policy old_db old_found old_held old_late
