-- ===== src/Schema/Customer.antt =====
-- backend/models/customer.py, platform.py (CustomerProfile), customer_profile_signal.py and
-- policy_agent.py, as far as the adjudication reads them.
use insurance_claim_approval.Prelude.{ℕ, Bool, Option}
use insurance_claim_approval.Prelude.Text.{Text}

pub record Customer : Type 0 where
  pub id : ℕ
  pub blacklist_flag : Bool

-- `gov_id_on_file` is `Path(kyc_gov_id_path).is_file()` of a path that is set.
pub record CustomerProfile : Type 0 where
  pub customer_id : ℕ
  pub gov_id_path_set : Bool
  pub gov_id_on_file : Bool
  pub kyc_face_verified : Bool
  pub kyc_mobile_verified : Bool
  pub saved_vehicles : ℕ
  pub saved_garages : ℕ

-- `years_with_insurer` is in hundredths of a year.
pub record CustomerProfileSignal : Type 0 where
  pub customer_id : ℕ
  pub credit_score : Option ℕ
  pub loan_defaults_12m : ℕ
  pub years_licensed : Option ℕ
  pub traffic_violations_3y : ℕ
  pub dui_history : Bool
  pub address_changed_90d : Bool
  pub years_with_insurer : ℕ
  pub policies_held : ℕ
  pub other_insurer_claims_3y : ℕ

pub record PolicyAgent : Type 0 where
  pub id : ℕ
  pub full_name : Text
  pub email : Text
  pub is_active : Bool
