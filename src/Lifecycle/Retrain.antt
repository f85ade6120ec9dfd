-- ===== src/Lifecycle/Retrain.antt =====
-- When the champions are retrained (ci/retrain_trigger.py).
use insurance_claim_approval.Prelude.{
  ℕ, ◌-◌, ◌*◌, ◌/◌, ◌<◌, ◌⊎◌, inl, inr, Bool-cases, ◌≡◌, refl, ◌↔◌, Bool, true, false, not, ◌&&◌,
  Option, none, some, List, [], ◌∷◌, ◌++◌, arith, ltb, leb, if◌then◌else◌, when, is_empty, map,
  keep,
}
use insurance_claim_approval.Prelude.Text.{Text, text_eq}
use insurance_claim_approval.Prelude.Int.{ℤ, pos, negsuc}
use insurance_claim_approval.Prelude.Time.{day_micros, days_between}
use insurance_claim_approval.Lifecycle.{Meta}

pub data Status : Type 0 where
  ok warn alert too_few : Status

unfoldable pub is_alert : Status → Bool
is_alert alert = true
is_alert ok = false
is_alert warn = false
is_alert too_few = false

-- `drift_report.json`: the metrics by name.
pub record Drift : Type 0 where
  pub status : Status
  pub model_version : Option Text
  pub metrics : List (Text × Status)

-- `retrain` of config/guardrails.yaml
pub record RetrainRules : Type 0 where
  pub on_drift_alert : Bool
  pub drift_cooldown_days : ℕ
  pub min_new_labels : ℕ
  pub max_model_age_days : ℕ

pub data Cause : Type 0 where
  forced no_champion : Cause
  drifted : List Text → Cause
  labels : ℕ → Cause
  age : ℤ → Cause

-- `drift["model_version"] in (None, meta["model_version"])`
unfoldable pub of_version : Option Text → Text → Bool
of_version none version = true
of_version (some v) version = text_eq v version

-- `age >= n` and `age > n` of a number of days, which is negative before the training.
unfoldable pub at_least : ℤ → ℕ → Bool
at_least (pos a) n = leb n a
at_least (negsuc a) n = false

unfoldable pub more_than : ℤ → ℕ → Bool
more_than (pos a) n = ltb n a
more_than (negsuc a) n = false

unfoldable pub has_drifted : Meta → RetrainRules → Option Drift → ℤ → Bool
unfolding is_alert of_version at_least
has_drifted m rules none days = false
has_drifted m rules (some d) days =
    rules.on_drift_alert
    && is_alert d.status
    && of_version d.model_version m.model_version
    && at_least days rules.drift_cooldown_days

-- The names of the metrics that alert.
unfoldable pub alerting : Option Drift → List Text
unfolding is_alert
alerting none = []
alerting (some d) = map (λ (k, s). k) (keep (λ (k, s). is_alert s) d.metrics)

-- `decide` for a champion that is `days` old; `new_labels` is the count of the claims that were
-- decided since it was trained.
unfoldable pub champion_causes : Meta → RetrainRules → Option Drift → ℕ → ℤ → List Cause
unfolding has_drifted alerting more_than
champion_causes m rules drift new_labels days =
    when (has_drifted m rules drift days) (drifted (alerting drift))
    ++ (when (leb rules.min_new_labels new_labels) (labels new_labels)
        ++ when (more_than days rules.max_model_age_days) (age days))

-- `decide` at the moment `now`; the age is in whole days, rounded down.
unfoldable pub decide : Option Meta → RetrainRules → Option Drift → ℕ → ℕ → Bool → List Cause
unfolding champion_causes days_between
decide none rules drift new_labels now force = when force forced ++ (no_champion ∷ [])
decide (some m) rules drift new_labels now force =
    when force forced ++ champion_causes m rules drift new_labels (days_between now m.trained_at)

pub data Skipped : Type 0 where
  not_measured alert_ignored other_version within_cooldown : Skipped
  no_alert : Status → Skipped

-- `skip_detail`: why a drift did not count.
unfoldable pub skip_detail : Meta → RetrainRules → Option Drift → Skipped
unfolding is_alert of_version
skip_detail m rules none = not_measured
skip_detail m rules (some d) =
    if not (is_alert d.status)
    then no_alert d.status
    else if not rules.on_drift_alert
    then alert_ignored
    else if not (of_version d.model_version m.model_version)
    then other_version
    else within_cooldown

is_empty-when :
    (b : Bool) (r : Cause) (rs : List Cause) → is_empty (when b r ++ rs) ≡ (not b && is_empty rs)
is_empty-when true r rs = refl
is_empty-when false r rs = refl

is_empty_last : (b : Bool) (r : Cause) → is_empty (when b r) ≡ not b
is_empty_last true r = refl
is_empty_last false r = refl

champion_causes-is_empty :
    (m : Meta) (rules : RetrainRules) (drift : Option Drift) (new_labels : ℕ) (days : ℤ)
    → is_empty (champion_causes m rules drift new_labels days) ≡ (
        not (has_drifted m rules drift days)
        && (ltb new_labels rules.min_new_labels && not (more_than days rules.max_model_age_days)))
unfolding champion_causes
champion_causes-is_empty m rules drift new_labels days =
    let drifts = has_drifted m rules drift days in
    rw
      (
        is_empty-when drifts (drifted (alerting drift)) _,
        is_empty-when (leb rules.min_new_labels new_labels) (labels new_labels) _,
        is_empty_last (more_than days rules.max_model_age_days) (age days),
      )
      (ground arith)

-- A champion that nobody asks to retrain stays exactly while no drift counts, there are fewer new
-- labels than asked for, and it is not older than allowed.
pub decide-empty_iff :
    (m : Meta) (rules : RetrainRules) (drift : Option Drift) (new_labels now : ℕ)
    → (is_empty (decide (some m) rules drift new_labels now false) ≡ true) ↔ (
        (has_drifted m rules drift (days_between now m.trained_at) ≡ false)
        × (new_labels < rules.min_new_labels)
        × (more_than (days_between now m.trained_at) rules.max_model_age_days ≡ false))
unfolding decide
decide-empty_iff m rules drift new_labels now =
    let days = days_between now m.trained_at in
    let drifts = has_drifted m rules drift days in
    rw (champion_causes-is_empty m rules drift new_labels days) (ground arith)

whole_days : (t n : ℕ) → t / day_micros < n → t < n * day_micros
whole_days t n h = omega arith

younger :
    (now trained n : ℕ)
    → at_least (days_between now trained) n ≡ false
    → (now < trained) ⊎ (now - trained < n * day_micros)
unfolding days_between at_least
younger now trained n h = elim (Bool-cases (leb trained now)) [
  | inl e ↦ let young = rw e at h in inr (whole_days (now - trained) n (ground arith))
  | inr e ↦ inl (ground arith)
]

-- The reason that a skipped retraining gives for a drift alert is true: within the cooldown means
-- that less than the days of the cooldown have passed since the training.
pub skip_detail-cooldown :
    (m : Meta) (rules : RetrainRules) (drift : Option Drift) (new_labels now : ℕ)
    → decide (some m) rules drift new_labels now false ≡ []
    → skip_detail m rules drift ≡ within_cooldown
    → (now < m.trained_at) ⊎ (now - m.trained_at < rules.drift_cooldown_days * day_micros)
unfolding skip_detail has_drifted
skip_detail-cooldown m rules none new_labels now skipped detail = ground arith
skip_detail-cooldown m rules (some d) new_labels now skipped detail =
    let (quiet, _, _) = (decide-empty_iff m rules (some d) new_labels now).0 (rw skipped) in
    younger now m.trained_at rules.drift_cooldown_days (ground arith)
