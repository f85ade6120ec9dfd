-- ===== src/Tests/Flow.antt =====
-- The pipeline, the experts and the handlers on a small database.
use insurance_claim_approval.Prelude.{◌≡◌, refl, ◌≢◌, true, false, some, [], ◌∷◌, arith}
use insurance_claim_approval.Schema.Status.{ClaimStatus}
use insurance_claim_approval.Schema.Db.{Db, get_claim, find_claim, policy_of}
use insurance_claim_approval.Schema.Approvals.{Signed}
use insurance_claim_approval.Decision.{decide}
use insurance_claim_approval.Prelude.Rounding.{round_half_even}
use insurance_claim_approval.Prelude.Text.{text_eq, upper, strip}
use insurance_claim_approval.Prelude.Time.{days_since}
use insurance_claim_approval.Escalation.{evaluate, raised, extraction_issues}
use insurance_claim_approval.Fraud.{same_vin}
use insurance_claim_approval.Payout.{calculate, is_total_loss_of}
use insurance_claim_approval.Trust.{amount_multiplier_for_tier}
use insurance_claim_approval.Confidence.{compute_confidence}
use insurance_claim_approval.Pipeline.Merge.{
  decision_input, with_preview, merge, explain_input, update,
}
use insurance_claim_approval.Experts.{least_loaded, load}
use insurance_claim_approval.Experts.Choice.{IsLeast, least_loaded-IsLeast}
use insurance_claim_approval.Pipeline.Finalize.{
  Final, finished, finalize_claim, assessed, amount_limit,
}
use insurance_claim_approval.Pipeline.Finalize.Laws.{
  Settled, FastPath, finalize_claim-Settled, assessed-FastPath,
}
use insurance_claim_approval.Pipeline.Finalize.Reviews.{has_review, finalize_claim-review}
use insurance_claim_approval.Pipeline.Run.{start_run}
use insurance_claim_approval.Workflow.Approval.{here, then_move, starts, finishes, Reach-Signed}
use insurance_claim_approval.Tests.Data.{claim, expert, db, services, good, expired, suspect}

chosen : least_loaded db.claims db.agents ≡ some expert
unfolding least_loaded load
chosen = refl

least_loaded-IsLeast_example : (expert.is_active ≡ true) × IsLeast db.claims expert db.agents
least_loaded-IsLeast_example = least_loaded-IsLeast db.claims db.agents expert chosen

abbrev rejection : Final
rejection = record {
  status = ClaimStatus.rejected;
  payable_amount = 0;
  confidence_score = 9000;
  human_review_required = false;
}

found : get_claim 7 db ≡ some claim
unfolding get_claim find_claim
found = refl

rejected_run : (finalize_claim services 7 (expired ∷ []) db).0 ≡ finished rejection
unfolding finalize_claim get_claim find_claim decide assessed decision_input with_preview
    compute_confidence policy_of round_half_even merge explain_input update
rejected_run = refl

finalize_claim-Settled_example :
    (ClaimStatus.rejected ≢ ClaimStatus.approved)
    × (rejection.payable_amount ≡ 0)
    × Settled 7 ClaimStatus.rejected (finalize_claim services 7 (expired ∷ []) db).1
finalize_claim-Settled_example =
    finalize_claim-Settled services claim (expired ∷ []) db rejection found rejected_run

cleared : (decide (assessed services claim db good).0).status ≡ ClaimStatus.analysis_complete
unfolding assessed decide decision_input with_preview policy_of evaluate raised extraction_issues
    days_since calculate is_total_loss_of same_vin text_eq upper strip amount_limit
    amount_multiplier_for_tier compute_confidence round_half_even explain_input
cleared = refl

assessed-FastPath_example : FastPath services claim db (assessed services claim db good).1
assessed-FastPath_example = assessed-FastPath services claim db good cleared

db-Signed : Signed db
unfolding get_claim find_claim
db-Signed k c h approved = ground arith

abbrev started : Db
started = start_run 7 db

abbrev ran : Db
ran = (finalize_claim services 7 (good ∷ []) started).1

Reach-Signed_example : Signed ran
Reach-Signed_example =
    Reach-Signed db ran
      (then_move db started ran (then_move db db started (here db) (starts 7 db))
        (finishes services 7 (good ∷ []) started))
      db-Signed

abbrev to_person : Final
to_person = record {
  status = ClaimStatus.pending_review;
  payable_amount = 0;
  confidence_score = 9000;
  human_review_required = true;
}

reviewed_run : (finalize_claim services 7 (suspect ∷ []) db).0 ≡ finished to_person
unfolding assessed compute_confidence decide decision_input evaluate explain_input finalize_claim
    find_claim get_claim merge policy_of raised round_half_even update with_preview
reviewed_run = refl

finalize_claim-review_example :
    has_review 7 (finalize_claim services 7 (suspect ∷ []) db).1.reviews ≡ true
finalize_claim-review_example =
    finalize_claim-review services claim (suspect ∷ []) db to_person found reviewed_run refl
