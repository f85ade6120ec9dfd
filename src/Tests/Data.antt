-- ===== src/Tests/Data.antt =====
-- A policy, a claim with its documents, an expert and a database that the tests share.
use insurance_claim_approval.Prelude.{ℕ, true, false, none, some, [], ◌∷◌}
use insurance_claim_approval.Prelude.Text.{codes}
use insurance_claim_approval.Prelude.Time.{DateTime}
use insurance_claim_approval.Config.{default_settings}
use insurance_claim_approval.Schema.Status.{
  ClaimStatus, PolicyStatus, IncidentType, PremiumPaymentStatus,
}
use insurance_claim_approval.Schema.Policy.{Policy, PremiumPayment}
use insurance_claim_approval.Schema.Customer.{PolicyAgent, CustomerProfileSignal}
use insurance_claim_approval.Schema.Claim.{Claim}
use insurance_claim_approval.Schema.Outcome.{Merged}
use insurance_claim_approval.Schema.Db.{Db}
use insurance_claim_approval.Pipeline.Merge.{empty_merged}
use insurance_claim_approval.Pipeline.Finalize.{Services}

abbrev pub on_day : ℕ → ℕ → ℕ → DateTime
on_day y m d = record { year = y; month = m; day = d; micros = 0 }

-- A limit of 20 000.00, a deductible of 500.00, a co-pay of 10 %.
abbrev pub policy : Policy
policy = record {
  id = 1;
  policy_number = codes "P-1";
  customer_id = 1;
  status = PolicyStatus.active;
  coverage_limit = 2_000_000;
  deductible = 50_000;
  co_pay_pct = 1000;
  exclusions = codes "racing" ∷ [];
  waiting_period_days = 30;
  effective_date = on_day 2025 1 1;
  expiry_date = on_day 2027 1 1;
  depreciation_rate = 0;
  covered_vehicle_vin = some (codes "VIN1");
  no_claim_bonus_pct = 0;
  zero_depreciation_addon = true;
  risk_signal = none;
}

-- A claim for 3 000.00.
abbrev pub claim : Claim
claim = record {
  id = 7;
  customer_id = 1;
  policy_id = some 1;
  incident_description = codes "rear-end collision at a light";
  incident_datetime = on_day 2026 3 1;
  claim_amount = 300_000;
  status = ClaimStatus.processing;
  submission_step = 4;
  incident_type = IncidentType.collision;
  third_party_involved = false;
  injuries_reported = false;
  vehicle_year = some 2024;
  vin = some (codes "VIN1");
  driver_license_number = some (codes "DL1");
  submission_device_hash = none;
  policy_context_ready = true;
  escalation_flags = [];
  escalation_messages = [];
  assigned_agent = none;
  assigned_agent_id = none;
  assigned_at = none;
  evidence_mismatch = false;
  evidence_issues = [];
  pipeline_run_id = 0;
  customer_trust = none;
  created_at = on_day 2026 3 2;
}

abbrev pub expert : PolicyAgent
expert = record { id = 2; full_name = codes "Ada"; email = codes "ada@x"; is_active = true }

abbrev pub retired : PolicyAgent
retired = record { id = 1; full_name = codes "Bob"; email = codes "bob@x"; is_active = false }

abbrev pub payment : PremiumPayment
payment = record {
  policy_id = 1;
  status = PremiumPaymentStatus.paid;
  paid_at = some (on_day 2026 1 1);
}

abbrev pub bureau : CustomerProfileSignal
bureau = record {
  customer_id = 1;
  credit_score = some 720;
  loan_defaults_12m = 0;
  years_licensed = some 10;
  traffic_violations_3y = 0;
  dui_history = false;
  address_changed_90d = false;
  years_with_insurer = 400;
  policies_held = 2;
  other_insurer_claims_3y = 0;
}

abbrev pub db : Db
db = record {
  claims = claim ∷ [];
  documents = [];
  policies = policy ∷ [];
  payments = payment ∷ [];
  customers = record { id = 1; blacklist_flag = false } ∷ [];
  profiles = [];
  profile_signals = bureau ∷ [];
  agents = retired ∷ expert ∷ [];
  decisions = [];
  reviews = [];
  assessments = [];
  audit = [];
  events = [];
  notified = [];
}

-- The same database, with the customer on the watchlist.
abbrev pub watched_db : Db
watched_db = record db { customers = record { id = 1; blacklist_flag = true } ∷ [] }

abbrev pub services : Services
services = record {
  settings = default_settings;
  now = on_day 2026 3 3;
  aligned = λ c m. true;
  payout_params = λ c. none;
  decision_text = λ s m. none;
}

-- The stage results of a claim against which nothing was found.
abbrev pub good : Merged
good = record empty_merged {
  policy_expired = some false;
  premium_unpaid = some false;
  incident_excluded = some false;
  policy_match_score = some 10_000;
  evidence_missing = some false;
  evidence_confidence_score = some 8000;
  customer_risk_score = some 1000;
  clause_clarity_score = some 9000;
  fraud_score = some 500;
}

-- The same, with the policy expired.
abbrev pub expired : Merged
expired = record good { policy_expired = some true }

-- The same, with a fraud score above the review threshold.
abbrev pub suspect : Merged
suspect = record good { fraud_score = some 5000 }
