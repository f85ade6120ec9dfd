-- ===== src/Escalation/Laws.antt =====
-- When a claim raises no flag, and that every flag has its own message.
use insurance_claim_approval.Prelude.{
  ℕ, suc, ◌≤◌, ◌<◌, ◌≡◌, refl, Bool, true, false, ◌&&◌, Option, some, List, [], ◌∷◌, ◌++◌, map,
  arith, or_else, is_empty, ◌*◌,
}
use insurance_claim_approval.Config.{Settings}
use insurance_claim_approval.Schema.Policy.{Policy}
use insurance_claim_approval.Schema.Claim.{Claim, ClaimDocument}
use insurance_claim_approval.Schema.Messages.{Flag, Message}
use insurance_claim_approval.Schema.Outcome.{Merged, PayoutResult}
use insurance_claim_approval.Escalation.{
  Detail, Entry, raised, flags_of, flag_code, find_detail, message_for, build_messages, evaluate,
  fraud_rule, evidence_rule, mismatch_rule, extraction_rule, early_rule, alignment_rule,
  lakehouse_rule, total_loss_rule, vin_rule, licence_rule, injury_rule, major_loss_rule,
}
use insurance_claim_approval.Prelude.Text.{truthy}
use insurance_claim_approval.Fraud.{vins_differ, has_police_report}

-- The codes of the entries rise, from `n` on.
abbrev Ascending : ℕ → List Entry → Type 0
Ascending n [] = Unit
Ascending n ((f, d) ∷ es) = (n ≤ flag_code f) × Ascending (suc (flag_code f)) es

-- At most one entry, whose flag has the code `n`.
abbrev Single : ℕ → List Entry → Type 0
Single n [] = Unit
Single n ((f, d) ∷ []) = flag_code f ≡ n
Single n (e ∷ f ∷ es) = ⊥

Ascending-weaken : (m n : ℕ) (es : List Entry) → m ≤ n → Ascending n es → Ascending m es
Ascending-weaken m n [] h a = tt
Ascending-weaken m n ((f, d) ∷ es) h a = (omega arith, a.1)

Ascending-append :
    (n : ℕ) (es fs : List Entry) → Single n es → Ascending (suc n) fs → Ascending n (es ++ fs)
Ascending-append n [] fs s a = Ascending-weaken n (suc n) fs (omega arith) a
Ascending-append n ((f, d) ∷ []) fs s a = (omega arith, rw s a)
Ascending-append n (e ∷ f ∷ es) fs s a = absurd s

abbrev pub own_message : Settings → Entry → Message
own_message s (f, d) = message_for s f d

abbrev looked_up : Settings → List Entry → Flag → Message
looked_up s es f = message_for s f (find_detail f es)

-- An entry of smaller code hides none of the later ones.
looked_up-later :
    (s : Settings) (f : Flag) (d : Detail) (es later : List Entry) (n : ℕ)
    → flag_code f < n
    → Ascending n later
    → map (looked_up s ((f, d) ∷ es)) (flags_of later) ≡ map (looked_up s es) (flags_of later)
unfolding find_detail flags_of
looked_up-later s f d es [] n h a = refl
looked_up-later s f d es ((g, e) ∷ later) n h a =
    ground (arith, looked_up-later s f d es later (suc (flag_code g)))

looked_up_own :
    (s : Settings) (es : List Entry) (n : ℕ)
    → Ascending n es
    → map (looked_up s es) (flags_of es) ≡ map (own_message s) es
unfolding find_detail flags_of
looked_up_own s [] n a = refl
looked_up_own s ((f, d) ∷ es) n a =
    ground (
      arith,
      looked_up-later s f d es es (suc (flag_code f)),
      looked_up_own s es (suc (flag_code f)),
    )

last_Ascending :
    (c : Claim) (p : Option Policy) (ds : List ClaimDocument)
    → Ascending 11 (major_loss_rule c p ds)
unfolding flag_code
last_Ascending c p ds = ground arith

raised-Ascending :
    (s : Settings) (c : Claim) (p : Option Policy) (ds : List ClaimDocument) (a : Bool) (m : Merged)
    → Ascending 0 (raised s c p ds a m)
unfolding raised flag_code
raised-Ascending s c p ds a m =
    Ascending-append 0 (fraud_rule s (or_else m.fraud_score 0)) _ (ground arith) (
      Ascending-append 1 (evidence_rule s (or_else m.evidence_confidence_score 10_000)) _
        (ground arith)
        (Ascending-append 2 (mismatch_rule m) _ (ground arith) (
          Ascending-append 3 (extraction_rule m) _ (ground arith) (
            Ascending-append 4 (early_rule s c p) _ (ground arith) (
              Ascending-append 5 (alignment_rule a) _ (ground arith) (
                Ascending-append 6 (lakehouse_rule p) _ (ground arith) (
                  Ascending-append 7 (total_loss_rule m.payout_breakdown) _ (ground arith) (
                    Ascending-append 8 (vin_rule c p) _ (ground arith) (
                      Ascending-append 9 (licence_rule c) _ (ground arith) (
                        Ascending-append 10 (injury_rule c) _ (ground arith)
                          (last_Ascending c p ds)))))))))))

-- Every flag that is raised has one message, in the same order, filled with the details of its own
-- rule.
pub evaluate-messages :
    (s : Settings) (c : Claim) (p : Option Policy) (ds : List ClaimDocument) (a : Bool) (m : Merged)
    → (evaluate s c p ds a m).messages ≡ map (own_message s) (raised s c p ds a m)
unfolding evaluate build_messages
evaluate-messages s c p ds a m =
    looked_up_own s (raised s c p ds a m) 0 (raised-Ascending s c p ds a m)

is_empty-append : (es fs : List Entry) → is_empty (es ++ fs) ≡ (is_empty es && is_empty fs)
is_empty-append [] fs = refl
is_empty-append (e ∷ es) fs = refl

is_empty-flags_of : (es : List Entry) → is_empty (flags_of es) ≡ is_empty es
unfolding flags_of
is_empty-flags_of [] = refl
is_empty-flags_of (e ∷ es) = refl

-- What is known of a claim that raises no flag.
pub record IsUnflagged (s : Settings) (c : Claim) (p : Option Policy) (ds : List ClaimDocument)
    (m : Merged) : Type 0 where
  pub low_fraud : or_else m.fraud_score 0 < s.fraud_review_threshold
  pub good_evidence : s.evidence_review_threshold < or_else m.evidence_confidence_score 10_000
  pub matching : or_else m.evidence_mismatch false ≡ false
  pub licensed : truthy c.driver_license_number ≡ true
  pub unhurt : c.injuries_reported ≡ false
  pub repairable : (r : PayoutResult) → m.payout_breakdown ≡ some r → r.is_total_loss ≡ false
  pub right_vehicle : (q : Policy) → p ≡ some q → vins_differ c.vin q.covered_vehicle_vin ≡ false
  pub reported :
      (q : Policy)
      → p ≡ some q
      → q.coverage_limit < c.claim_amount * 2
      → has_police_report ds ≡ true

raised-IsUnflagged :
    (s : Settings) (c : Claim) (p : Option Policy) (ds : List ClaimDocument) (a : Bool) (m : Merged)
    → is_empty (raised s c p ds a m) ≡ true
    → IsUnflagged s c p ds m
unfolding raised
raised-IsUnflagged s c p ds a m h =
    let h' = simp is_empty-append at h in
    record {
      low_fraud = ground arith;
      good_evidence = ground arith;
      matching = ground arith;
      licensed = ground arith;
      unhurt = ground arith;
      repairable = λ r e. ground arith;
      right_vehicle = λ q e. ground arith;
      reported = λ q e big. ground arith;
    }

-- A claim without a flag has a fraud score below the review threshold, evidence above it, no open
-- mismatch, a driver's licence, no injuries, no total loss, the covered vehicle, and a police report
-- if it is for more than half the coverage limit.
pub evaluate-IsUnflagged :
    (s : Settings) (c : Claim) (p : Option Policy) (ds : List ClaimDocument) (a : Bool) (m : Merged)
    → is_empty (evaluate s c p ds a m).flags ≡ true
    → IsUnflagged s c p ds m
unfolding evaluate
evaluate-IsUnflagged s c p ds a m h = raised-IsUnflagged s c p ds a m (rw is_empty-flags_of at h)
