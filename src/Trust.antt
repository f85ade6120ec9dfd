-- ===== src/Trust.antt =====
-- backend/services/customer_trust_service.py: the trust score of a customer, its tier, and what the
-- tier does to the auto-approval limit. A component is in thirty-thousandths, so that every weight
-- and quotient of the source is exact; only the relationship component and the score are rounded.
pub mod Bounds
use insurance_claim_approval.Prelude.{
  ℕ, zero, suc, ◌+◌, ◌-◌, ◌*◌, ◌/◌, min, Bool, true, false, ◌&&◌, not, Option, none, some, List, [],
  ◌∷◌, ◌++◌, ltb, leb, ◌==◌, if◌then◌else◌, when, keep,
}
use insurance_claim_approval.Prelude.Rounding.{round_half_even}
use insurance_claim_approval.Config.{Settings}
use insurance_claim_approval.Schema.Customer.{CustomerProfileSignal}
use insurance_claim_approval.Schema.Claim.{Tier, preferred, standard, watch, unscored}
use insurance_claim_approval.Schema.Messages.{Signal, financial_stress, cross_insurer_claims}

-- `TrustReason.code`, with the figure in its label.
pub data TrustReason : Type 0 where
  no_profile_data credit_no_hit dui_history address_changed kyc_is_verified : TrustReason
  credit_excellent credit_good credit_low loan_defaults : ℕ → TrustReason
  traffic_violations clean_record new_driver : ℕ → TrustReason
  long_tenure no_claim_bonus claims_elsewhere : ℕ → TrustReason

pub data Impact : Type 0 where
  negative positive neutral : Impact

-- `TrustReason.impact`, as each reason is built with it.
unfoldable pub impact : TrustReason → Impact
impact no_profile_data = neutral
impact credit_no_hit = neutral
impact (credit_excellent _) = positive
impact (credit_good _) = positive
impact (clean_record _) = positive
impact (long_tenure _) = positive
impact (no_claim_bonus _) = positive
impact kyc_is_verified = positive
impact _ = negative

pub record Components : Type 0 where
  pub credit : ℕ
  pub financial_stability : ℕ
  pub driving_record : ℕ
  pub relationship : ℕ
  pub elsewhere : ℕ
  pub identity : ℕ

pub record TrustScoreResult : Type 0 where
  pub score : Option ℕ
  pub tier : Tier
  pub reasons : List TrustReason

-- A component of 1.
abbrev pub whole : ℕ
whole = 30_000

-- `COMPONENT_WEIGHTS`, in hundredths.
abbrev pub weighted_total : Components → ℕ
weighted_total c =
    30 * c.credit
    + 10 * c.financial_stability
    + 20 * c.driving_record
    + 15 * c.relationship
    + 15 * c.elsewhere
    + 10 * c.identity

tier_for : Settings → ℕ → Tier
tier_for s n =
    if leb s.trust_preferred_min_score n
    then preferred
    else if leb s.trust_standard_min_score n
    then standard
    else watch

unfoldable pub tier_for_score : Settings → Option ℕ → Tier
unfolding tier_for
tier_for_score s none = unscored
tier_for_score s (some n) = tier_for s n

-- In ten-thousandths.
unfoldable pub amount_multiplier_for_tier : Settings → Tier → ℕ
amount_multiplier_for_tier s preferred = s.trust_preferred_amount_multiplier
amount_multiplier_for_tier s watch = s.trust_watch_amount_multiplier
amount_multiplier_for_tier s _ = 10_000

-- `(cs - 500) / 300` held between 0 and 1; a missing score is 0.5.
pub credit_component : Option ℕ → ℕ
credit_component none = 15_000
credit_component (some cs) = min ((cs - 500) * 100) whole

credit_reasons : Option ℕ → List TrustReason
credit_reasons none = credit_no_hit ∷ []
credit_reasons (some cs) =
    if leb 750 cs
    then credit_excellent cs ∷ []
    else if leb 700 cs
    then credit_good cs ∷ []
    else if ltb cs 650
    then credit_low cs ∷ []
    else []

pub financial_component : ℕ → ℕ
financial_component zero = whole
financial_component (suc zero) = 12_000
financial_component _ = 0

-- 0.4 of the experience, `years / 8` held between 0 and 1, and 0.6 of the record.
experience_part : Option ℕ → ℕ
experience_part none = 6000
experience_part (some years) = min (years * 1500) 12_000

record_part : Bool → ℕ → ℕ
record_part true violations = 0
record_part false violations = 18_000 - violations * 4500

driving_reasons : CustomerProfileSignal → List TrustReason
driving_reasons x =
    when x.dui_history dui_history
    ++ (if ltb 0 x.traffic_violations_3y
        then traffic_violations x.traffic_violations_3y ∷ []
        else clean x.years_licensed)
    ++ fresh x.years_licensed
  where
    clean : Option ℕ → List TrustReason
    clean none = []
    clean (some years) = when (not x.dui_history && leb 5 years) (clean_record years)

    fresh : Option ℕ → List TrustReason
    fresh none = []
    fresh (some years) = when (ltb years 2) (new_driver years)

-- 0.3 of the No-Claim Bonus, `ncb / 50` held between 0 and 1, in fifths of a ten-thousandth; the
-- bonus is in hundredths of a percent.
bonus_part : Option ℕ → ℕ
bonus_part none = 7500
bonus_part (some ncb) = min (ncb * 3) 15_000

-- 0.5 of the tenure, `years / 5` held between 0 and 1, 0.2 for holding policies, and the bonus,
-- rounded to four digits.
pub relationship_component : ℕ → ℕ → Option ℕ → ℕ
unfolding bonus_part
relationship_component tenure policies ncb =
    3
    * round_half_even
        (min (tenure * 50) 25_000 + (if leb 2 policies then 10_000 else 5000) + bonus_part ncb) 5

bonus_reasons : Option ℕ → List TrustReason
bonus_reasons none = []
bonus_reasons (some ncb) = when (leb 2000 ncb) (no_claim_bonus ncb)

pub claims_component : ℕ → ℕ
claims_component zero = whole
claims_component (suc zero) = 22_500
claims_component (suc (suc zero)) = 13_500
claims_component _ = 0

pub identity_component : Bool → Bool → ℕ
identity_component verified moved =
    (if verified then 30_000 else 15_000) - (if moved then 15_000 else 0)

unfoldable pub components_of : CustomerProfileSignal → Bool → Option ℕ → Components
unfolding credit_component financial_component experience_part record_part relationship_component
    claims_component identity_component
components_of x verified ncb = record {
  credit = credit_component x.credit_score;
  financial_stability = financial_component x.loan_defaults_12m;
  driving_record =
      experience_part x.years_licensed + record_part x.dui_history x.traffic_violations_3y;
  relationship = relationship_component x.years_with_insurer x.policies_held ncb;
  elsewhere = claims_component x.other_insurer_claims_3y;
  identity = identity_component verified x.address_changed_90d;
}

reasons_of : CustomerProfileSignal → Bool → Option ℕ → List TrustReason
unfolding credit_reasons driving_reasons bonus_reasons
reasons_of x verified ncb =
    credit_reasons x.credit_score
    ++ when (ltb 0 x.loan_defaults_12m) (loan_defaults x.loan_defaults_12m)
    ++ driving_reasons x
    ++ when (leb 300 x.years_with_insurer) (long_tenure x.years_with_insurer)
    ++ bonus_reasons ncb
    ++ when (leb 2 x.other_insurer_claims_3y) (claims_elsewhere x.other_insurer_claims_3y)
    ++ when x.address_changed_90d address_changed
    ++ when verified kyc_is_verified

abbrev has_impact : Impact → TrustReason → Bool
has_impact negative r = elim (impact r) [ negative ↦ true | _ ↦ false ]
has_impact positive r = elim (impact r) [ positive ↦ true | _ ↦ false ]
has_impact neutral r = elim (impact r) [ neutral ↦ true | _ ↦ false ]

-- `reasons.sort(key=…)`, a stable sort by three keys: the three groups in turn.
pub sort_reasons : List TrustReason → List TrustReason
sort_reasons rs =
    keep (has_impact negative) rs ++ keep (has_impact positive) rs ++ keep (has_impact neutral) rs

unfoldable pub score_of : Components → ℕ
score_of c = round_half_even (weighted_total c) whole

unfoldable pub compute_trust_score :
    Settings → Option CustomerProfileSignal → Bool → Option ℕ → TrustScoreResult
unfolding reasons_of sort_reasons
compute_trust_score s none verified ncb = record {
  score = none;
  tier = unscored;
  reasons = no_profile_data ∷ [];
}
compute_trust_score s (some x) verified ncb =
    let n = score_of (components_of x verified ncb) in
    record {
      score = some n;
      tier = tier_for_score s (some n);
      reasons = sort_reasons (reasons_of x verified ncb);
    }

pub data WeightKey : Type 0 where
  financial_stress_key cross_insurer_claims_key : WeightKey

stressed : Option ℕ → ℕ → Bool
stressed none defaults = false
stressed (some cs) defaults = ltb cs 600 && leb 1 defaults

-- The soft fraud signals of a profile, each with the key of its weight.
unfoldable pub fraud_signals : Option CustomerProfileSignal → List (WeightKey × Signal)
unfolding stressed
fraud_signals none = []
fraud_signals (some x) =
    when (stressed x.credit_score x.loan_defaults_12m) (financial_stress_key, financial_stress)
    ++ when (leb 3 x.other_insurer_claims_3y) (cross_insurer_claims_key, cross_insurer_claims)
