-- ===== src/Trust/Bounds.antt =====
-- The trust score lies between 0 and 100, and its tier only ever scales a limit.
use insurance_claim_approval.Prelude.{ℕ, zero, suc, ◌≤◌, ◌≡◌, refl, Bool, Option, none, some, arith}
use insurance_claim_approval.Prelude.Rounding.{round_half_even}
use insurance_claim_approval.Config.{Settings}
use insurance_claim_approval.Schema.Customer.{CustomerProfileSignal}
use insurance_claim_approval.Trust.{
  Components, whole, financial_component, relationship_component, claims_component, components_of,
  score_of, tier_for_score, amount_multiplier_for_tier, compute_trust_score,
}

record InUnit (c : Components) : Type 0 where
  credit : c.credit ≤ whole
  financial_stability : c.financial_stability ≤ whole
  driving_record : c.driving_record ≤ whole
  relationship : c.relationship ≤ whole
  elsewhere : c.elsewhere ≤ whole
  identity : c.identity ≤ whole

financial_component-le : (n : ℕ) → financial_component n ≤ whole
unfolding financial_component
financial_component-le zero = omega arith
financial_component-le (suc zero) = omega arith
financial_component-le (suc (suc n)) = omega arith

claims_component-le : (n : ℕ) → claims_component n ≤ whole
unfolding claims_component
claims_component-le zero = omega arith
claims_component-le (suc zero) = omega arith
claims_component-le (suc (suc zero)) = omega arith
claims_component-le (suc (suc (suc n))) = omega arith

relationship_component-le : (t p : ℕ) (ncb : Option ℕ) → relationship_component t p ncb ≤ whole
unfolding relationship_component round_half_even
relationship_component-le t p none = ground arith
relationship_component-le t p (some n) = ground arith

components_of-InUnit :
    (x : CustomerProfileSignal) (verified : Bool) (ncb : Option ℕ)
    → InUnit (components_of x verified ncb)
unfolding components_of
components_of-InUnit x verified ncb = record {
  credit = ground arith;
  financial_stability = financial_component-le x.loan_defaults_12m;
  driving_record = ground arith;
  relationship = relationship_component-le x.years_with_insurer x.policies_held ncb;
  elsewhere = claims_component-le x.other_insurer_claims_3y;
  identity = ground arith;
}

score_of-le : (c : Components) → InUnit c → score_of c ≤ 100
unfolding score_of round_half_even
score_of-le c h = ground arith

-- A customer with profile data gets a score from 0 to 100, and one without gets none.
pub trust_score_bounds :
    (s : Settings) (x : CustomerProfileSignal) (verified : Bool) (ncb : Option ℕ)
    → ((n : ℕ) × ((compute_trust_score s (some x) verified ncb).score ≡ some n) × (n ≤ 100))
      × ((compute_trust_score s none verified ncb).score ≡ none)
unfolding compute_trust_score
trust_score_bounds s x verified ncb = (
  (
    score_of (components_of x verified ncb),
    refl,
    score_of-le _ (components_of-InUnit x verified ncb),
  ),
  refl,
)

-- The amount limit that a result leaves, as a share of the standard one in ten-thousandths.
abbrev pub multiplier : Settings → Option CustomerProfileSignal → Bool → Option ℕ → ℕ
multiplier s x verified ncb =
    amount_multiplier_for_tier s (compute_trust_score s x verified ncb).tier

-- Where the watch multiplier is at most 1 and the preferred one at least 1, a higher score never
-- lowers the amount limit, and a customer without profile data has the unscaled one.
tier_monotone :
    (s : Settings) (m n : ℕ)
    → s.trust_watch_amount_multiplier ≤ 10_000
    → 10_000 ≤ s.trust_preferred_amount_multiplier
    → m ≤ n
    → (amount_multiplier_for_tier s (tier_for_score s (some m))
        ≤ amount_multiplier_for_tier s (tier_for_score s (some n)))
      × (amount_multiplier_for_tier s (tier_for_score s none) ≡ 10_000)
unfolding tier_for_score amount_multiplier_for_tier
tier_monotone s m n low high h = ground arith
