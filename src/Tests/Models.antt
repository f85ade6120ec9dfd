-- ===== src/Tests/Models.antt =====
-- The second-opinion model and its deployments at concrete inputs.
use insurance_claim_approval.Prelude.{
  ◌-◌, ◌<◌, ◌≡◌, ◌↔◌, ◌⊎◌, List, refl, true, false, none, some, [], ◌∷◌, arith, all_of, ◌*◌,
}
use insurance_claim_approval.Prelude.Text.{Text, codes, text_eq}
use insurance_claim_approval.Guardrails.{
  Bands, OutputConfig, InputConfig, Row, Head, Scored, likely_approve, abstain, approval_band,
  apply, checks_of, score_row, banded, near_an_edge, within,
}
use insurance_claim_approval.Guardrails.Laws.{apply-firm, score_row-abstain_iff}
use insurance_claim_approval.Lifecycle.{
  Meta, Model, Store, is_gated, promote, replace_champion, rollback, Heads, promote_heads,
  then_heads, deployed, rolled_back, refused, deploy_main,
}
use insurance_claim_approval.Lifecycle.Deploys.{
  AllServed, Promoted, Stopped, stores, rollback-promote, deploy_main-outcome,
  deploy_main-AllServed,
}
use insurance_claim_approval.Lifecycle.Modes.{
  Evidence, PromotionRules, IsApproved, change_mode, change_mode-Approved,
}
use insurance_claim_approval.Lifecycle.Retrain
use insurance_claim_approval.Lifecycle.Retrain.{
  Drift, RetrainRules, skip_detail, alert, skip_detail-cooldown, at_least,
}
use insurance_claim_approval.Prelude.Time.{days_between, day_micros}

abbrev bands : Bands
bands = record { high = 7000; low = 3000 }

abbrev output_config : OutputConfig
output_config = record {
  uncertain_margin = 500;
  allowed_actions = codes "score" ∷ [];
  customer_visible = false;
}

apply-firm_example : approval_band 8400 bands ≡ likely_approve
unfolding apply banded near_an_edge within approval_band
apply-firm_example =
    apply-firm output_config 8000 8400 none none bands [] refl (λ h. ground arith) (omega arith)

abbrev input_config : InputConfig
input_config = record {
  require_resolved_policy = true;
  require_resolved_customer = true;
  max_missing_percent = 30;
  amount_max = 5_000_000;
}

-- A head that gives every row the same probability.
abbrev constant_head : Head
constant_head = record {
  proba = λ r. 8000;
  distance = λ r. 1;
  ood_limit = some 3;
  bands = bands;
  threshold = 6000;
}

abbrev row : Row
row = record { numeric = some 1 ∷ none ∷ []; amount_requested = some 40_000 }

score_row-abstain_iff_example :
    (s : Scored) × (score_row input_config output_config (some constant_head) none row none
      ≡ some s)
    × ((s.output.approval ≡ abstain)
        ↔ (all_of (λ k. k.passed) (checks_of input_config constant_head row none) ≡ false))
score_row-abstain_iff_example =
    score_row-abstain_iff input_config output_config constant_head none row none

abbrev meta : Text → Meta
meta sha = record {
  git_sha = sha;
  model_version = codes "v1";
  feature_hash = codes "f";
  metrics = record { auroc = 8000; brier = 1000; pr_auc = 500; base_rate = 100 };
  trained_at = 100;
}

abbrev passing : Text → Model
passing sha = record {
  meta = meta sha;
  gate = some (record { passed = true; candidate_git_sha = sha; checks = [] });
}

abbrev head_store : Store
head_store = record {
  candidate = passing (codes "b");
  champion = some (passing (codes "a"));
  archive = [];
}

abbrev promoted_store : Store
promoted_store = record {
  candidate = passing (codes "b");
  champion = some (passing (codes "b"));
  archive = (17, passing (codes "a")) ∷ [];
}

rollback-promote_example : rollback (some 17) promoted_store ≡ head_store
unfolding promote is_gated replace_champion text_eq
rollback-promote_example = rollback-promote 17 head_store promoted_store (some 17) refl

abbrev two_heads : Heads
two_heads = (17, head_store) ∷ (18, head_store) ∷ []

deploy_main-outcome_example :
    ((false ≡ true)
      × ((deploy_main false two_heads).0 ≡ deployed)
      × Promoted two_heads (deploy_main false two_heads).1)
    ⊎ (((false ≡ false)
          × ((deploy_main false two_heads).0 ≡ rolled_back)
          × ((deploy_main false two_heads).1 ≡ stores two_heads)
          × (after : List Store) × Promoted two_heads after)
        ⊎ (((deploy_main false two_heads).0 ≡ refused)
            × Stopped two_heads (deploy_main false two_heads).1))
deploy_main-outcome_example = deploy_main-outcome false two_heads

deploy_main-AllServed_example : AllServed (deploy_main true two_heads).1
unfolding is_gated text_eq
deploy_main-AllServed_example =
    deploy_main-AllServed true two_heads
      (record { gated = λ m h. cc h }, (record { gated = λ m h. cc h }, tt))

abbrev evidence : Evidence
evidence = record { scored = 250; compared = 200; agreed = 170 }

abbrev promotion_rules : PromotionRules
promotion_rules = record { min_scored = 200; min_agreement = 8000 }

change_mode-Approved_example :
    ((change_mode (codes "v1") (codes "assist") (codes "r.iyer") true evidence promotion_rules none
        ≡ (
          true,
          some (record {
            mode = codes "assist";
            approved_by = codes "r.iyer";
            model_version = codes "v1";
          }),
        ))
      × IsApproved (codes "assist") (codes "r.iyer") true evidence promotion_rules)
    ⊎ ((change_mode
            (codes "v1")
            (codes "assist")
            (codes "r.iyer")
            true
            evidence
            promotion_rules
            none
          ≡ (false, none))
        × (IsApproved (codes "assist") (codes "r.iyer") true evidence promotion_rules → ⊥))
change_mode-Approved_example =
    change_mode-Approved (codes "v1") (codes "assist") (codes "r.iyer") true evidence
      promotion_rules none

abbrev retrain_rules : RetrainRules
retrain_rules = record {
  on_drift_alert = true;
  drift_cooldown_days = 7;
  min_new_labels = 200;
  max_model_age_days = 30;
}

abbrev alerting_drift : Drift
alerting_drift = record { status = alert; model_version = none; metrics = [] }

skip_detail-cooldown_example : (432_000_000_000 < 100) ⊎ (432_000_000_000 - 100 < 7 * day_micros)
unfolding insurance_claim_approval.Lifecycle.Retrain.decide skip_detail days_between
skip_detail-cooldown_example =
    skip_detail-cooldown (meta (codes "a")) retrain_rules (some alerting_drift) 12 432_000_000_000
      refl refl
