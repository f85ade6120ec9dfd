-- ===== src/Lifecycle.antt =====
-- The life of a champion: the gate (gate/kpi_gate.py), the deployment (serve/deploy_champion.py), the
-- serving mode (serve/promote_champion.py) and the retraining (ci/retrain_trigger.py). Metrics and
-- their limits are numbers of one common unit, a factor is in hundredths.
pub mod Deploys
pub mod Modes
pub mod Retrain
use insurance_claim_approval.Prelude.{
  ℕ, ◌+◌, ◌*◌, Bool, true, false, not, ◌&&◌, ◌||◌, Option, none, some, List, [], ◌∷◌, ◌++◌, ltb,
  leb, ◌==◌, if◌then◌else◌, length, all_of, when, is_empty, ◌>>=◌, map,
}
use insurance_claim_approval.Prelude.Text.{Text, codes, text_eq}

-- `metrics.test`
pub record Metrics : Type 0 where
  pub auroc : ℕ
  pub brier : ℕ
  pub pr_auc : ℕ
  pub base_rate : ℕ

-- `model_meta.json`
pub record Meta : Type 0 where
  pub git_sha : Text
  pub model_version : Text
  pub feature_hash : Text
  pub metrics : Metrics
  pub trained_at : ℕ  -- in microseconds

-- `gate` of config/pipeline.yaml; a lift of 0 is none.
pub record GateConfig : Type 0 where
  pub min_auroc : ℕ
  pub max_brier : ℕ
  pub min_pr_auc_lift : ℕ
  pub require_feature_hash_match : Bool
  pub max_auroc_regression : ℕ

pub data Test : Type 0 where
  auroc_floor brier_ceiling pr_auc_vs_base_rate feature_hash_match auroc_vs_champion : Test

-- The test against the serving champion, if it was built on the same feature logic.
unfoldable pub champion_test : Meta → GateConfig → Option Meta → List (Test × Bool)
champion_test m g none = []
champion_test m g (some c) =
    when (text_eq c.feature_hash m.feature_hash)
      (auroc_vs_champion, leb c.metrics.auroc (m.metrics.auroc + g.max_auroc_regression))

-- `evaluate`; `current` is the hash of the feature logic of the day.
unfoldable pub evaluate : Text → Meta → GateConfig → Option Meta → List (Test × Bool)
unfolding champion_test
evaluate current m g champion =
    let t = m.metrics in
    (auroc_floor, leb g.min_auroc t.auroc)
    ∷ (brier_ceiling, leb t.brier g.max_brier)
    ∷ (when (not (g.min_pr_auc_lift == 0))
          (pr_auc_vs_base_rate, leb (g.min_pr_auc_lift * t.base_rate) (t.pr_auc * 100))
        ++ (when g.require_feature_hash_match (feature_hash_match, text_eq m.feature_hash current)
            ++ champion_test m g champion))

-- `gate_result.json`
pub record GateResult : Type 0 where
  pub passed : Bool
  pub candidate_git_sha : Text
  pub checks : List (Test × Bool)

-- The result that `gate_one` writes next to the candidate.
unfoldable pub gate_one : Text → Meta → GateConfig → Option Meta → GateResult
gate_one current m g champion =
    let checks : List (Test × Bool) = evaluate current m g champion in
    record {
      passed = all_of (λ (t, ok). ok) checks;
      candidate_git_sha = m.git_sha;
      checks = checks;
    }

-- A model directory.
pub record Model : Type 0 where
  pub meta : Meta
  pub gate : Option GateResult

-- The directories of a head. The archive's are named by the time of the promotion.
pub record Store : Type 0 where
  pub candidate : Model
  pub champion : Option Model
  pub archive : List (ℕ × Model)

unfoldable pub archived_at : List (ℕ × Model) → ℕ → Option Model
archived_at [] stamp = none
archived_at ((k, m) ∷ archive) stamp = if k == stamp then some m else archived_at archive stamp

-- `shutil.move` out of the archive.
unfoldable pub taken_out : List (ℕ × Model) → ℕ → List (ℕ × Model)
taken_out [] stamp = []
taken_out ((k, m) ∷ archive) stamp =
    if k == stamp then archive else (k, m) ∷ taken_out archive stamp

-- The gate's result is a pass of this very candidate.
unfoldable pub is_gated : Model → Bool
is_gated m = elim m.gate [
  | none ↦ false
  | some g ↦ g.passed && text_eq g.candidate_git_sha m.meta.git_sha
]

-- The previous champion moves to the archive, and the candidate is copied in its place.
unfoldable pub replace_champion : ℕ → Store → Option ℕ × Store
replace_champion stamp s = elim s.champion [
  | none ↦
      (none, record { candidate = s.candidate; champion = some s.candidate; archive = s.archive })
  | some old ↦ (
    some stamp,
    record {
      candidate = s.candidate;
      champion = some s.candidate;
      archive = (stamp, old) ∷ s.archive;
    },
  )
]

-- `promote`: the archived name and the directories after it; `none` is `SystemExit`.
unfoldable pub promote : ℕ → Store → Option (Option ℕ × Store)
unfolding replace_champion is_gated
promote stamp s = if is_gated s.candidate then some (replace_champion stamp s) else none

-- `rollback`: the champion is removed, and the archived one moves back if it exists.
unfoldable pub rollback : Option ℕ → Store → Store
rollback none s = record { candidate = s.candidate; champion = none; archive = s.archive }
rollback (some stamp) s = record {
  candidate = s.candidate;
  champion = archived_at s.archive stamp;
  archive = taken_out s.archive stamp;
}

-- The heads of a deployment, each with the time of its promotion.
abbrev pub Heads : Type 0
Heads = List (ℕ × Store)

-- The heads as they stand when they have not been promoted.
unfoldable pub untouched : Heads → List (Option ℕ × Store)
untouched [] = []
untouched ((stamp, s) ∷ heads) = (none, s) ∷ untouched heads

-- One head of the loop, from the outcome of its promotion and those of the heads after it.
unfoldable pub then_heads :
    Store
    → Heads
    → Option (Option ℕ × Store)
    → Bool × List (Option ℕ × Store)
    → Bool × List (Option ℕ × Store)
then_heads s heads none rest = (false, (none, s) ∷ untouched heads)
then_heads s heads (some t) (done, rest) = (done, t ∷ rest)

-- The first loop of `main`: every head is promoted, until one is refused. A refusal leaves the heads
-- before it promoted, and says so by `false`.
unfoldable pub promote_heads : Heads → Bool × List (Option ℕ × Store)
unfolding then_heads
promote_heads [] = (true, [])
promote_heads ((stamp, s) ∷ heads) = then_heads s heads (promote stamp s) (promote_heads heads)

pub data Ended : Type 0 where
  deployed rolled_back refused : Ended

-- `main`: `deploys` tells whether the build and the deployment of the service succeed. The
-- registration in between, which adds a registry number to the stored metadata, is left out.
unfoldable pub deploy_main : Bool → Heads → Ended × List Store
deploy_main deploys heads =
    let (done, after) = promote_heads heads in
    if not done
    then (refused, map (λ (name, t). t) after)
    else if deploys
    then (deployed, map (λ (name, t). t) after)
    else (rolled_back, map (λ (name, t). rollback name t) after)
