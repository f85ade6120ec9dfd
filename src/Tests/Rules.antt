-- ===== src/Tests/Rules.antt =====
-- The rule engines at concrete inputs.
use insurance_claim_approval.Prelude.{
  ◌≤◌, ◌≡◌, refl, ◌≢◌, ◌↔◌, ◌⊎◌, true, false, not, ◌||◌, some, [], is_empty, map,
}
use insurance_claim_approval.Prelude.Text.{strip, text_eq, upper}
use insurance_claim_approval.Prelude.Time.{days_since}
use insurance_claim_approval.Schema.Db.{customer_of}
use insurance_claim_approval.Config.{default_settings}
use insurance_claim_approval.Schema.Status.{ClaimStatus}
use insurance_claim_approval.Schema.Customer.{CustomerProfile}
use insurance_claim_approval.Decision.{DecisionInput, decide}
use insurance_claim_approval.Decision.Routes.{
  IsClear, decide-complete_iff, decide-rejected_iff, decide-review_iff, decide-ne-approved,
}
use insurance_claim_approval.Escalation.{evaluate, raised, extraction_issues}
use insurance_claim_approval.Escalation.Laws.{
  own_message, IsUnflagged, evaluate-messages, evaluate-IsUnflagged,
}
use insurance_claim_approval.Validation.{validate_policy}
use insurance_claim_approval.Validation.Laws.{Flags, validate-Flags, validate-eligible}
use insurance_claim_approval.Fraud.{detect, same_vin}
use insurance_claim_approval.Fraud.Hard.{hard_reaches_review, on_blacklist, detect_bounds}
use insurance_claim_approval.Tests.Data.{policy, claim, payment, watched_db, on_day, good}

abbrev clear_input : DecisionInput
clear_input = record {
  policy_expired = false;
  premium_unpaid = false;
  incident_excluded = false;
  evidence_missing = false;
  fraud_score = 500;
  claim_amount = 300_000;
  confidence_score = 8500;
  evidence_confidence_score = 8000;
  fraud_threshold = 7500;
  fraud_review_threshold = 4000;
  evidence_review_threshold = 5500;
  human_review_amount_threshold = 50_000_000;
  confidence_review_threshold = 6000;
  escalation_flags = [];
  escalation_messages = [];
}

clear_input-status : (decide clear_input).status ≡ ClaimStatus.analysis_complete
unfolding decide
clear_input-status = refl

decide-complete_iff_example :
    ((decide clear_input).status ≡ ClaimStatus.analysis_complete) ↔ IsClear clear_input
decide-complete_iff_example = decide-complete_iff clear_input

decide-rejected_iff_example : ((decide clear_input).status ≡ ClaimStatus.rejected) ↔ (
    (clear_input.policy_expired ≡ true)
    ⊎ (clear_input.premium_unpaid ≡ true)
    ⊎ (clear_input.incident_excluded ≡ true))
decide-rejected_iff_example = decide-rejected_iff clear_input

decide-review_iff_example :
    ((decide clear_input).human_review_required ≡ true)
    ↔ ((decide clear_input).status ≡ ClaimStatus.pending_review)
decide-review_iff_example = decide-review_iff clear_input

decide-ne-approved_example : (decide clear_input).status ≢ ClaimStatus.approved
decide-ne-approved_example = decide-ne-approved clear_input

evaluate-messages_example :
    (evaluate default_settings claim (some policy) [] false good).messages
    ≡ map (own_message default_settings) (raised default_settings claim (some policy) [] false good)
evaluate-messages_example = evaluate-messages default_settings claim (some policy) [] false good

no_flags : is_empty (evaluate default_settings claim (some policy) [] true good).flags ≡ true
unfolding evaluate raised extraction_issues days_since same_vin text_eq upper strip
no_flags = refl

evaluate-IsUnflagged_example : IsUnflagged default_settings claim (some policy) [] good
evaluate-IsUnflagged_example =
    evaluate-IsUnflagged default_settings claim (some policy) [] true good no_flags

validate-Flags_example :
    Flags policy
      (some payment)
      claim
      (on_day 2026 3 3)
      (validate_policy policy (some payment) claim (on_day 2026 3 3))
validate-Flags_example = validate-Flags policy (some payment) claim (on_day 2026 3 3)

validate-eligible_example :
    (validate_policy policy (some payment) claim (on_day 2026 3 3)).eligible
    ≡ not (
        (validate_policy policy (some payment) claim (on_day 2026 3 3)).policy_expired
        || (validate_policy policy (some payment) claim (on_day 2026 3 3)).premium_unpaid
        || (validate_policy policy (some payment) claim (on_day 2026 3 3)).within_waiting_period
        || (validate_policy policy (some payment) claim (on_day 2026 3 3)).incident_excluded)
validate-eligible_example = validate-eligible policy (some payment) claim (on_day 2026 3 3)

abbrev half_verified : CustomerProfile
half_verified = record {
  customer_id = 1;
  gov_id_path_set = true;
  gov_id_on_file = true;
  kyc_face_verified = true;
  kyc_mobile_verified = false;
  saved_vehicles = 1;
  saved_garages = 0;
}

hard_reaches_review_example : 4000 ≤ (detect watched_db claim []).fraud_score
unfolding customer_of
hard_reaches_review_example =
    hard_reaches_review watched_db claim []
      (on_blacklist (record { id = 1; blacklist_flag = true }) refl refl)

detect_bounds_example : (detect watched_db claim []).fraud_score ≤ 10_000
detect_bounds_example = detect_bounds watched_db claim []
