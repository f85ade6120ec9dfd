-- ===== src/Guardrails.antt =====
-- The guardrails of the second-opinion model (guardrails/input_checks.py, guardrails/output_policy.py)
-- and the scoring that they surround (serve/scoring.py). Probabilities, margins and thresholds are
-- numbers of one common unit; a difference is taken both ways, since one of them stops at 0.
pub mod Laws
use insurance_claim_approval.Prelude.{
  ℕ, ◌+◌, ◌-◌, ◌*◌, Bool, true, false, not, ◌&&◌, ◌||◌, Option, none, some, List, [], ◌∷◌, ◌++◌,
  ltb, leb, if◌then◌else◌, length, any_of, all_of, count_if, keep, when, is_empty, is_some, map,
}
use insurance_claim_approval.Prelude.Text.{Text, codes, text_eq, upper, truthy}

pub data Guardrail : Type 0 where
  policy_resolved customer_resolved missing_features amount_range out_of_distribution : Guardrail
  abstain_band : Guardrail

pub record Check : Type 0 where
  pub guardrail : Guardrail
  pub passed : Bool

-- `input` of config/guardrails.yaml; the fraction is in percent.
pub record InputConfig : Type 0 where
  pub require_resolved_policy : Bool
  pub require_resolved_customer : Bool
  pub max_missing_percent : ℕ
  pub amount_max : ℕ

-- A raw feature row: its numeric columns, where `none` is a value that is missing or no number, and
-- the amount requested, also one of its columns.
pub record Row : Type 0 where
  pub numeric : List (Option ℕ)
  pub amount_requested : Option ℕ

-- The policy in the scoring context.
pub record Context : Type 0 where
  pub policy_number : Option Text
  pub golden_customer_id : Option Text

-- `missing_fraction(row) <= limit` of features/feature_logic.py
unfoldable pub few_missing : Row → ℕ → Bool
few_missing r limit =
    leb (count_if (λ v. not (is_some v)) r.numeric * 100) (limit * length r.numeric)

unfoldable pub amount_fits : Option ℕ → ℕ → Bool
amount_fits none limit = false
amount_fits (some a) limit = ltb 0 a && leb a limit

-- The checks of `claim_checks`.
unfoldable pub claim_checks : InputConfig → Row → Context → List Check
unfolding few_missing amount_fits
claim_checks c r p =
    when c.require_resolved_policy
      (record { guardrail = policy_resolved; passed = truthy p.policy_number })
    ++ (when c.require_resolved_customer
          (record { guardrail = customer_resolved; passed = truthy p.golden_customer_id })
        ++ (record { guardrail = missing_features; passed = few_missing r c.max_missing_percent }
            ∷ record {
              guardrail = amount_range;
              passed = amount_fits r.amount_requested c.amount_max;
            }
            ∷ []))

-- `evaluation.bands`
pub record Bands : Type 0 where
  pub high : ℕ
  pub low : ℕ

pub data Band : Type 0 where
  likely_approve review neutral abstain uncertain : Band

pub data FraudBand : Type 0 where
  fraud_review clear fraud_abstain fraud_uncertain : FraudBand

unfoldable pub approval_band : ℕ → Bands → Band
approval_band p b = if leb b.high p then likely_approve else if leb p b.low then review else neutral

unfoldable pub fraud_band : ℕ → ℕ → FraudBand
fraud_band p threshold = if leb threshold p then fraud_review else clear

-- `output` of config/guardrails.yaml
pub record OutputConfig : Type 0 where
  pub uncertain_margin : ℕ
  pub allowed_actions : List Text
  pub customer_visible : Bool

pub data Reason : Type 0 where
  failed : List Guardrail → Reason
  no_score near_edge no_reason : Reason

pub data Action : Type 0 where
  adjuster_decides advisory : Action

pub record Output : Type 0 where
  pub approval : Band
  pub fraud : Option FraudBand
  pub band_reason : Reason
  pub allowed_actions : List Text
  pub customer_visible : Bool
  pub action : Action
  pub guardrail_events : List Check

-- `abs(p - e) < m`
unfoldable pub within : ℕ → ℕ → ℕ → Bool
within p e m = ltb ((p - e) + (e - p)) m

abbrev pub band_event : Check
band_event = record { guardrail = abstain_band; passed = false }

abbrev pub fired : List Check → List Check
fired = keep (λ r. not r.passed)

-- The answer of `apply` when a check failed, or there is no score.
unfoldable pub abstained : OutputConfig → List Check → Output
abstained c failures = record {
  approval = abstain;
  fraud = some fraud_abstain;
  band_reason = if is_empty failures then no_score else failed (map (λ r. r.guardrail) failures);
  allowed_actions = c.allowed_actions;
  customer_visible = c.customer_visible;
  action = adjuster_decides;
  guardrail_events = failures;
}

-- The fraud head's band, and whether its score is near the threshold.
unfoldable pub fraud_part : ℕ → Option ℕ → Option ℕ → Option FraudBand × Bool
unfolding fraud_band
fraud_part m (some p) (some t) =
    if ltb (((p - t) + (t - p)) * 2) m
    then (some fraud_uncertain, true)
    else (some (fraud_band p t), false)
fraud_part m p t = (none, false)

unfoldable pub near_an_edge : ℕ → Bands → ℕ → Bool
unfolding within
near_an_edge p b m = within p b.high m || within p b.low m

-- The answer of `apply` to a score, when no check failed.
unfoldable pub banded : OutputConfig → Bands → ℕ → Option FraudBand × Bool → Output
unfolding near_an_edge approval_band
banded c b p (f, near_threshold) =
    let near = near_an_edge p b c.uncertain_margin in
    record {
      approval = if near then uncertain else approval_band p b;
      fraud = f;
      band_reason = if near then near_edge else no_reason;
      allowed_actions = c.allowed_actions;
      customer_visible = c.customer_visible;
      action = advisory;
      guardrail_events = when near band_event ++ when near_threshold band_event;
    }

-- `output_policy.apply`
unfoldable pub apply : OutputConfig → Option ℕ → Option ℕ → Bands → Option ℕ → List Check → Output
unfolding abstained banded fraud_part
apply c none p_fraud b threshold checks = abstained c (fired checks)
apply c (some p) p_fraud b threshold checks =
    if is_empty (fired checks)
    then banded c b p (fraud_part c.uncertain_margin p_fraud threshold)
    else abstained c (fired checks)

-- A champion: its model, which is not of this repository, and what is stored with it. `distance`
-- is the standardised distance to the training set.
pub record Head : Type 0 where
  pub proba : Row → ℕ
  pub distance : Row → ℕ
  pub ood_limit : Option ℕ
  pub bands : Bands
  pub threshold : ℕ

-- `ood_check`: a head without a reference passes.
unfoldable pub ood_check : Head → Row → Check
ood_check h r = record {
  guardrail = out_of_distribution;
  passed = elim h.ood_limit [ none ↦ true | some limit ↦ leb (h.distance r) limit ];
}

pub record Scored : Type 0 where
  pub p_approve : Option ℕ
  pub p_fraud : Option ℕ
  pub output : Output
  pub guardrails : List Check

unfoldable pub checks_of : InputConfig → Head → Row → Option Context → List Check
checks_of c h r none = ood_check h r ∷ []
checks_of c h r (some p) = claim_checks c r p ++ (ood_check h r ∷ [])

abbrev pub map_head : {A : Type 0} → (Head → A) → Option Head → Option A
map_head f none = none
map_head f (some h) = some (f h)

-- `score_row`; `none` where no approval champion is loaded.
unfoldable pub score_row :
    InputConfig → OutputConfig → Option Head → Option Head → Row → Option Context → Option Scored
score_row ic oc none f r policy = none
score_row ic oc (some a) f r policy =
    let checks = checks_of ic a r policy in
    let ok = all_of (λ k. k.passed) checks in
    let p_a : Option ℕ = if ok then some (a.proba r) else none in
    let p_f : Option ℕ = if ok then map_head (λ h. h.proba r) f else none in
    some (record {
      p_approve = p_a;
      p_fraud = p_f;
      output = apply oc p_a p_f a.bands (map_head (λ h. h.threshold) f) checks;
      guardrails = checks;
    })

-- `agrees_with_rules`; `none` where the two cannot be compared.
unfoldable pub approves : Text → Bool
approves d =
    text_eq d (codes "APPROVED")
    || text_eq d (codes "APPROVE")
    || text_eq d (codes "AUTO_APPROVE")
    || text_eq d (codes "PARTIAL")
    || text_eq d (codes "PARTIALLY_APPROVED")

unfoldable pub compared_with : Bool → Bool → Bool
compared_with model rules = if model then rules else not rules

unfoldable pub agrees_with_rules : Band → Option Text → Option Bool
unfolding compared_with
agrees_with_rules band none = none
agrees_with_rules band (some []) = none
agrees_with_rules likely_approve (some (c ∷ d)) =
    some (compared_with true (approves (upper (c ∷ d))))
agrees_with_rules review (some (c ∷ d)) = some (compared_with false (approves (upper (c ∷ d))))
agrees_with_rules neutral (some (c ∷ d)) = none
agrees_with_rules abstain (some (c ∷ d)) = none
agrees_with_rules uncertain (some (c ∷ d)) = none
