-- ===== src/Config.antt =====
-- backend/config.py: the settings that the adjudication reads. Scores and multipliers are in
-- ten-thousandths, amounts in cents.
use insurance_claim_approval.Prelude.{ℕ}

pub record Settings : Type 0 where
  pub fraud_escalate_threshold : ℕ
  pub fraud_review_threshold : ℕ
  pub evidence_review_threshold : ℕ
  pub early_claim_days : ℕ
  pub early_claim_amount_threshold : ℕ  -- the entry of the only policy type, "Motor"
  pub human_review_amount_threshold : ℕ
  pub confidence_review_threshold : ℕ
  pub trust_preferred_min_score : ℕ
  pub trust_standard_min_score : ℕ
  pub trust_preferred_amount_multiplier : ℕ
  pub trust_watch_amount_multiplier : ℕ

-- The defaults of `class Settings`.
abbrev pub default_settings : Settings
default_settings = record {
  fraud_escalate_threshold = 7500;
  fraud_review_threshold = 4000;
  evidence_review_threshold = 5500;
  early_claim_days = 14;
  early_claim_amount_threshold = 1_000_000;
  human_review_amount_threshold = 50_000_000;
  confidence_review_threshold = 6000;
  trust_preferred_min_score = 82;
  trust_standard_min_score = 60;
  trust_preferred_amount_multiplier = 15_000;
  trust_watch_amount_multiplier = 5000;
}
