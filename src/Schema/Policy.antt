-- ===== src/Schema/Policy.antt =====
-- backend/models/policy.py and policy_risk_signal.py. Amounts are in cents, percentages in
-- hundredths of a percent, and rows are in the order in which they were written.
use insurance_claim_approval.Prelude.{ℕ, Bool, Option, List}
use insurance_claim_approval.Prelude.Text.{Text}
use insurance_claim_approval.Prelude.Time.{DateTime}
use insurance_claim_approval.Schema.Status.{PolicyStatus, PremiumPaymentStatus, RiskBand}

pub record RiskSignal : Type 0 where
  pub fraud_risk_score : ℕ
  pub claim_risk_band : RiskBand
  pub total_claims_count : ℕ

pub record Policy : Type 0 where
  pub id : ℕ
  pub policy_number : Text
  pub customer_id : ℕ
  pub status : PolicyStatus
  pub coverage_limit : ℕ
  pub deductible : ℕ
  pub co_pay_pct : ℕ
  pub exclusions : List Text
  pub waiting_period_days : ℕ
  pub effective_date : DateTime
  pub expiry_date : DateTime
  pub depreciation_rate : ℕ
  pub covered_vehicle_vin : Option Text
  pub no_claim_bonus_pct : ℕ
  pub zero_depreciation_addon : Bool
  pub risk_signal : Option RiskSignal

pub record PremiumPayment : Type 0 where
  pub policy_id : ℕ
  pub status : PremiumPaymentStatus
  pub paid_at : Option DateTime
