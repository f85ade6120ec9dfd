-- ===== src/Lifecycle/Modes.antt =====
-- The serving mode (serve/promote_champion.py): off, shadow or assist, moved by a named person.
use insurance_claim_approval.Prelude.{
  ℕ, ◌*◌, ◌≤◌, ◌≡◌, ◌≢◌, refl, sym, ◌∙◌, inl, inr, Bool, true, false, not, ◌&&◌, ◌||◌, Option, none,
  some, List, [], ◌∷◌, ◌⊎◌, ◌++◌, arith, ltb, leb, ◌==◌, if◌then◌else◌, when, is_empty, Bool-cases,
}
use insurance_claim_approval.Prelude.Rounding.{round_half_even}
use insurance_claim_approval.Prelude.Text.{Text, codes, text_eq}

-- The counts that `evidence` reads, of the scores of the serving champion's version.
pub record Evidence : Type 0 where
  pub scored : ℕ
  pub compared : ℕ
  pub agreed : ℕ

-- `round(agreed / compared, 4)`, in ten-thousandths
unfoldable pub agreement : Evidence → Option ℕ
agreement ev =
    if ev.compared == 0 then none else some (round_half_even (ev.agreed * 10000) ev.compared)

-- `promotion` of config/guardrails.yaml; the agreement is in ten-thousandths.
pub record PromotionRules : Type 0 where
  pub min_scored : ℕ
  pub min_agreement : ℕ

pub data Refusal : Type 0 where
  no_approver unknown_mode no_passing_gate few_scores low_agreement : Refusal

-- `MODES`
unfoldable pub is_mode : Text → Bool
is_mode t = text_eq t (codes "off") || text_eq t (codes "shadow") || text_eq t (codes "assist")

unfoldable pub is_assist : Text → Bool
is_assist t = text_eq t (codes "assist")

unfoldable pub agrees_enough : Option ℕ → ℕ → Bool
agrees_enough none floor = false
agrees_enough (some a) floor = leb floor a

-- What assist mode asks for.
unfoldable pub assist_refusals : Bool → Evidence → PromotionRules → List Refusal
unfolding agrees_enough agreement
assist_refusals gate_passed ev rules =
    when (not gate_passed) no_passing_gate
    ++ (when (ltb ev.scored rules.min_scored) few_scores
        ++ when (not (agrees_enough (agreement ev) rules.min_agreement)) low_agreement)

-- `decide`: the reasons to refuse.
unfoldable pub decide : Text → Text → Bool → Evidence → PromotionRules → List Refusal
unfolding is_mode is_assist assist_refusals
decide target approver gate_passed ev rules =
    when (is_empty approver) no_approver
    ++ (when (not (is_mode target)) unknown_mode
        ++ (if is_assist target then assist_refusals gate_passed ev rules else []))

-- `serving_mode.json`
pub record Mode : Type 0 where
  pub mode : Text
  pub approved_by : Text
  pub model_version : Text

-- `main`: the mode file after it, and whether the change was recorded as PROMOTED.
unfoldable pub change_mode :
    Text → Text → Text → Bool → Evidence → PromotionRules → Option Mode → Bool × Option Mode
unfolding decide
change_mode version target approver gate_passed ev rules current =
    if is_empty (decide target approver gate_passed ev rules)
    then (true, some (record { mode = target; approved_by = approver; model_version = version }))
    else (false, current)

is_empty-when :
    (b : Bool) (r : Refusal) (rs : List Refusal)
    → is_empty (when b r ++ rs) ≡ (not b && is_empty rs)
is_empty-when true r rs = refl
is_empty-when false r rs = refl

is_empty_last : (b : Bool) (r : Refusal) → is_empty (when b r) ≡ not b
is_empty_last true r = refl
is_empty_last false r = refl

assist_refusals-is_empty :
    (gate_passed : Bool) (ev : Evidence) (rules : PromotionRules)
    → is_empty (assist_refusals gate_passed ev rules) ≡ (
        gate_passed
        && (leb rules.min_scored ev.scored && agrees_enough (agreement ev) rules.min_agreement))
unfolding assist_refusals
assist_refusals-is_empty gate_passed ev rules =
    let enough = agrees_enough (agreement ev) rules.min_agreement in
    rw
      (
        is_empty-when (not gate_passed) no_passing_gate _,
        is_empty-when (ltb ev.scored rules.min_scored) few_scores _,
        is_empty_last (not enough) low_agreement,
      )
      (ground arith)

-- The reasons to refuse, as one test.
decide-is_empty :
    (target approver : Text) (gate_passed : Bool) (ev : Evidence) (rules : PromotionRules)
    → is_empty (decide target approver gate_passed ev rules) ≡ (
        not (is_empty approver)
        && (is_mode target
            && (if is_assist target
                then gate_passed
                  && (leb rules.min_scored ev.scored
                      && agrees_enough (agreement ev) rules.min_agreement)
                else true)))
unfolding decide
decide-is_empty target approver gate_passed ev rules =
    rw
      (
        is_empty-when (is_empty approver) no_approver _,
        is_empty-when (not (is_mode target)) unknown_mode _,
      )
      (elim (Bool-cases (is_assist target)) [
        | inl e ↦ rw e (rw (assist_refusals-is_empty gate_passed ev rules) (ground arith))
        | inr e ↦ rw e (ground arith)
      ])

named : (approver : Text) → is_empty approver ≡ false → approver ≢ []
named approver h e = let never = rw e at h in ground arith

reached :
    (o : Option ℕ) (floor : ℕ) → agrees_enough o floor ≡ true → (a : ℕ) × (o ≡ some a) × (floor ≤ a)
unfolding agrees_enough
reached none floor h = ground arith
reached (some a) floor h = (a, refl, ground arith)

-- What a change of the mode requires.
pub record IsApproved (target approver : Text) (gate_passed : Bool) (ev : Evidence)
    (rules : PromotionRules) : Type 0 where
  pub by_someone : approver ≢ []
  pub known : is_mode target ≡ true
  pub earned :
      is_assist target ≡ true
      → (gate_passed ≡ true)
        × (rules.min_scored ≤ ev.scored)
        × (a : ℕ) × (agreement ev ≡ some a)
        × (rules.min_agreement ≤ a)

allowed-IsApproved :
    (target approver : Text) (gate_passed : Bool) (ev : Evidence) (rules : PromotionRules)
    → is_empty (decide target approver gate_passed ev rules) ≡ true
    → IsApproved target approver gate_passed ev rules
allowed-IsApproved target approver gate_passed ev rules e =
    let test = sym (decide-is_empty target approver gate_passed ev rules) ∙ e in
    record {
      by_someone = named approver (ground arith);
      known = ground arith;
      earned = λ assist.
          let full = rw assist at test in
          let (a, is_a, enough) = reached (agreement ev) rules.min_agreement (ground arith) in
          (ground arith, ground arith, a, is_a, enough);
    }

someone : (approver : Text) → approver ≢ [] → is_empty approver ≡ false
someone [] h = absurd (h refl)
someone (x ∷ approver) h = refl

reaches : (o : Option ℕ) (floor a : ℕ) → o ≡ some a → floor ≤ a → agrees_enough o floor ≡ true
unfolding agrees_enough
reaches o floor a h le = rw h (ground arith)

IsApproved-allowed :
    (target approver : Text) (gate_passed : Bool) (ev : Evidence) (rules : PromotionRules)
    → IsApproved target approver gate_passed ev rules
    → is_empty (decide target approver gate_passed ev rules) ≡ true
IsApproved-allowed target approver gate_passed ev rules h =
    let someone_is = someone approver h.by_someone in
    let known = h.known in
    decide-is_empty target approver gate_passed ev rules ∙ elim (Bool-cases (is_assist target)) [
      | inl e ↦
          let (passed, scored, a, is_a, enough) = h.earned e in
          let agreed = reaches (agreement ev) rules.min_agreement a is_a enough in
          rw e (ground arith)
      | inr e ↦ rw e (ground arith)
    ]

-- Either the mode is changed or it is not. It is changed to the mode that was asked for, under the
-- name of the approver and for the champion's version, and then an approver is named, the mode is
-- one of the three, and assist is only reached when the champion's own gate has passed, enough
-- shadow scores were made, and the agreement with the decisions reaches the floor. Otherwise the
-- mode file stays as it was, and one of these does not hold.
pub change_mode-Approved :
    (version target approver : Text) (gate_passed : Bool) (ev : Evidence) (rules : PromotionRules)
    (current : Option Mode)
    → ((change_mode version target approver gate_passed ev rules current ≡ (
      true,
      some (record { mode = target; approved_by = approver; model_version = version }),
    ))
        × IsApproved target approver gate_passed ev rules)
      ⊎ ((change_mode version target approver gate_passed ev rules current ≡ (false, current))
          × (IsApproved target approver gate_passed ev rules → ⊥))
unfolding change_mode
change_mode-Approved version target approver gate_passed ev rules current =
    elim (Bool-cases (is_empty (decide target approver gate_passed ev rules))) [
      | inl e ↦ inl (rw e refl, allowed-IsApproved target approver gate_passed ev rules e)
      | inr e ↦ inr (
        rw e refl,
        λ h. let yes = IsApproved-allowed target approver gate_passed ev rules h in ground arith,
      )
    ]
