-- ===== src/Guardrails/Laws.antt =====
-- When the model abstains, and how firm a band is.
use insurance_claim_approval.Prelude.{
  ℕ, ◌+◌, ◌-◌, ◌<◌, ◌≡◌, refl, ◌∙◌, ◌≢◌, inl, inr, ◌↔◌, Bool, true, false, Option, none, some, List,
  [], ◌∷◌, arith, if◌then◌else◌, all_of, is_empty, Bool-cases,
}
use insurance_claim_approval.Prelude.Text.{Text}
use insurance_claim_approval.Guardrails.{
  Check, Bands, Band, abstain, uncertain, approval_band, fraud_abstain, OutputConfig, fired,
  abstained, within, near_an_edge, banded, apply, Head, Scored, InputConfig, Row, Context,
  checks_of, score_row, agrees_with_rules, adjuster_decides,
}

true_ne_false : true ≢ false
true_ne_false h = ground arith

none_fired : (ks : List Check) → is_empty (fired ks) ≡ all_of (λ k. k.passed) ks
none_fired [] = refl
none_fired (k ∷ ks) = elim (Bool-cases k.passed) [ inl e ↦ rw e (none_fired ks) | inr e ↦ rw e ]

banded_firm :
    (p q m : ℕ) (b : Bands) (a : Band)
    → ((p - q) + (q - p)) < m
    → (if near_an_edge p b m then uncertain else approval_band p b) ≡ a
    → a ≢ uncertain
    → approval_band q b ≡ a
unfolding near_an_edge within approval_band
banded_firm p q m b a close e sure = ground arith

-- A band that is not UNCERTAIN is firm: when no check failed, every score within the margin of the
-- given one is in the same band.
pub apply-firm :
    (c : OutputConfig) (p q : ℕ) (p_fraud threshold : Option ℕ) (b : Bands) (checks : List Check)
    → all_of (λ k. k.passed) checks ≡ true
    → (apply c (some p) p_fraud b threshold checks).approval ≢ uncertain
    → (p - q) + (q - p) < c.uncertain_margin
    → approval_band q b ≡ (apply c (some p) p_fraud b threshold checks).approval
unfolding apply banded
apply-firm c p q p_fraud threshold b checks passed sure close =
    let none_failed = none_fired checks ∙ passed in
    rw none_failed (banded_firm p q c.uncertain_margin b _ close refl (rw none_failed at sure))

agrees_with_rules-abstain : (d : Option Text) → agrees_with_rules abstain d ≡ none
unfolding agrees_with_rules
agrees_with_rules-abstain none = refl
agrees_with_rules-abstain (some []) = refl
agrees_with_rules-abstain (some (c ∷ d)) = refl

-- A failed check stops the scoring: neither head is asked, both bands are ABSTAIN, the adjuster
-- decides, the events are the failed checks, and the shadow comparison is not made.
pub score_row-abstains :
    (ic : InputConfig) (oc : OutputConfig) (a : Head) (f : Option Head) (r : Row)
    (policy : Option Context) (decision : Option Text)
    → all_of (λ k. k.passed) (checks_of ic a r policy) ≡ false
    → (s : Scored) × (score_row ic oc (some a) f r policy ≡ some s)
      × (s.p_approve ≡ none)
      × (s.p_fraud ≡ none)
      × (s.output.approval ≡ abstain)
      × (s.output.fraud ≡ some fraud_abstain)
      × (s.output.action ≡ adjuster_decides)
      × (s.output.guardrail_events ≡ fired (checks_of ic a r policy))
      × (agrees_with_rules s.output.approval decision ≡ none)
unfolding score_row apply abstained
score_row-abstains ic oc a f r policy decision e =
    rw e (_, refl, refl, refl, refl, refl, refl, refl, agrees_with_rules-abstain decision)

approval_band-scored : (p : ℕ) (b : Bands) → approval_band p b ≢ abstain
unfolding approval_band
approval_band-scored p b h = ground arith

banded-scored :
    (near : Bool) (p : ℕ) (b : Bands) → (if near then uncertain else approval_band p b) ≢ abstain
banded-scored true p b h = ground arith
banded-scored false p b h = approval_band-scored p b h

-- The approval band is ABSTAIN exactly when a check failed.
pub score_row-abstain_iff :
    (ic : InputConfig) (oc : OutputConfig) (a : Head) (f : Option Head) (r : Row)
    (policy : Option Context)
    → (s : Scored) × (score_row ic oc (some a) f r policy ≡ some s)
      × ((s.output.approval ≡ abstain) ↔ (all_of (λ k. k.passed) (checks_of ic a r policy) ≡ false))
unfolding score_row apply banded
score_row-abstain_iff ic oc a f r policy =
    let checks = checks_of ic a r policy in
    elim (Bool-cases (all_of (λ k. k.passed) checks)) [
      | inl e ↦
          let unlike =
            banded-scored (near_an_edge (a.proba r) a.bands oc.uncertain_margin) (a.proba r)
              a.bands in
          rw (e, none_fired checks ∙ e)
            (_, refl, ((λ h. absurd (unlike h)), λ h. absurd (true_ne_false h)))
      | inr e ↦
          let (s, h, _, _, band, _, _, _, _) = score_row-abstains ic oc a f r policy none e in
          (s, h, ((λ _. e), λ _. band))
    ]
