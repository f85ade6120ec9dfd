-- ===== src/Mdm/Golden/Kept.antt =====
-- The earliest date and the number of policies of a cluster.
use mathlib.Core.Path.{subst, ap}
use insurance_claim_approval.Prelude.{
  ℕ, ◌≤◌, ◌≡◌, refl, sym, ◌∙◌, ◌⊎◌, inl, inr, min, true, false, Option, none, some, List, [], ◌∷◌,
  arith, leb, length, any_of, Bool-cases, Option-cases,
}
use insurance_claim_approval.Prelude.Text.{Text, text_eq}
use insurance_claim_approval.Prelude.Order.{text_eq→eq, text_eq_refl}
use insurance_claim_approval.Mdm.Matching.Connected.{Among, first, later}
use insurance_claim_approval.Mdm.Golden.{HolderPolicy, least_date, earliest, held}

uncons : {A : Type 0} {x y : A} {ys : List A} → Among x (y ∷ ys) → (y ≡ x) ⊎ Among x ys
uncons first = inl refl
uncons (later m) = inr m

-- A date that a policy of the list gives.
pub record IsGiven (ps : List HolderPolicy) (d : ℕ) : Type 0 where
  pub by_policy : (p : HolderPolicy) × Among p ps × (p.customer_since ≡ some d)

-- The earliest of the dates, if there is one.
pub data IsEarliest (ps : List HolderPolicy) : Option ℕ → Type 0 where
  undated : ((p : HolderPolicy) → Among p ps → p.customer_since ≡ none) → IsEarliest ps none
  dated : {e : ℕ} → IsGiven ps e → ((d : ℕ) → IsGiven ps d → e ≤ d) → IsEarliest ps (some e)

IsGiven-later :
    (p : HolderPolicy) (ps : List HolderPolicy) (d : ℕ) → IsGiven ps d → IsGiven (p ∷ ps) d
IsGiven-later p ps d g = let (q, m, h) = g.by_policy in record { by_policy = (q, later m, h) }

-- A date of a longer list is the new policy's or one of the rest.
IsGiven-split :
    (p : HolderPolicy) (ps : List HolderPolicy) (d : ℕ)
    → IsGiven (p ∷ ps) d
    → (p.customer_since ≡ some d) ⊎ IsGiven ps d
IsGiven-split p ps d g =
    let (q, m, h) = g.by_policy in
    elim (uncons m) [ inl same ↦ inl (rw same h) | inr n ↦ inr (record { by_policy = (q, n, h) }) ]

no_date : {d : ℕ} → none ≡ some d → ⊥
no_date h = ground arith

same_date : (d e : ℕ) → some d ≡ some e → d ≡ e
same_date d e h = cc h

undated-IsGiven :
    (ps : List HolderPolicy) (d : ℕ)
    → ((p : HolderPolicy) → Among p ps → p.customer_since ≡ none)
    → IsGiven ps d
    → ⊥
undated-IsGiven ps d h g = let (p, m, e) = g.by_policy in no_date (sym (h p m) ∙ e)

least-IsGiven :
    (p : HolderPolicy) (ps : List HolderPolicy) (d e : ℕ)
    → p.customer_since ≡ some d
    → IsGiven ps e
    → IsGiven (p ∷ ps) (min d e)
least-IsGiven p ps d e h g = elim (Bool-cases (leb d e)) [
  | inl le ↦
      let is_d : d ≡ min d e = ground arith in
      subst (IsGiven (p ∷ ps)) is_d (record { by_policy = (p, first, h) })
  | inr gt ↦
      let is_e : e ≡ min d e = ground arith in
      subst (IsGiven (p ∷ ps)) is_e (IsGiven-later p ps e g)
]

with_date :
    (ps : List HolderPolicy) (a b o : Option ℕ)
    → a ≡ b
    → IsEarliest ps (least_date b o)
    → IsEarliest ps (least_date a o)
with_date ps a b o h = subst (λ x. IsEarliest ps (least_date x o)) (sym h)

IsEarliest-head :
    (p : HolderPolicy) (ps : List HolderPolicy) (o : Option ℕ)
    → IsEarliest ps o
    → IsEarliest (p ∷ ps) (least_date p.customer_since o)
unfolding least_date
IsEarliest-head p ps none (undated h) = elim (Option-cases p.customer_since) [
  | inl e ↦ with_date (p ∷ ps) p.customer_since none none e (
      undated (λ q m. elim (uncons m) [
        | inl same ↦ ap (λ x. x.customer_since) (sym same) ∙ e
        | inr n ↦ h q n
      ]))
  | inr (d, e) ↦ with_date (p ∷ ps) p.customer_since (some d) none e (
      dated (record { by_policy = (p, first, e) })
        (λ x g. elim (IsGiven-split p ps x g) [
          | inl now ↦ let same = same_date d x (sym e ∙ now) in omega arith
          | inr rest ↦ absurd (undated-IsGiven ps x h rest)
        ]))
]
IsEarliest-head p ps _ (dated {e} g least) = elim (Option-cases p.customer_since) [
  | inl none_here ↦ with_date (p ∷ ps) p.customer_since none (some e) none_here (
      dated (IsGiven-later p ps e g) (λ x k. elim (IsGiven-split p ps x k) [
        | inl now ↦ absurd (no_date (sym none_here ∙ now))
        | inr rest ↦ least x rest
      ]))
  | inr (d, here) ↦ with_date (p ∷ ps) p.customer_since (some d) (some e) here (
      dated (least-IsGiven p ps d e here g) (λ x k. elim (IsGiven-split p ps x k) [
        | inl now ↦ let same = same_date d x (sym here ∙ now) in omega arith
        | inr rest ↦ let below = least x rest in omega arith
      ]))
]

pub earliest-IsEarliest : (ps : List HolderPolicy) → IsEarliest ps (earliest ps)
unfolding earliest
earliest-IsEarliest [] = undated (λ p m. elim m [ ])
earliest-IsEarliest (p ∷ ps) = IsEarliest-head p ps (earliest ps) (earliest-IsEarliest ps)

-- Without repetition.
pub data AllDifferent : List Text → Type 0 where
  nothing : AllDifferent []
  added : {t : Text} {ts : List Text} → (Among t ts → ⊥) → AllDifferent ts → AllDifferent (t ∷ ts)

-- The policy numbers, each once.
pub record NumbersOf (ps : List HolderPolicy) (numbers : List Text) : Type 0 where
  pub different : AllDifferent numbers
  pub each : (p : HolderPolicy) → Among p ps → Among p.policy_number numbers
  pub only : (t : Text) → Among t numbers → (p : HolderPolicy) × Among p ps × (p.policy_number ≡ t)

listed_earlier :
    (t : Text) (ps : List HolderPolicy)
    → any_of (λ q. text_eq q.policy_number t) ps ≡ true
    → (p : HolderPolicy) × Among p ps × (p.policy_number ≡ t)
listed_earlier t [] h = ground arith
listed_earlier t (q ∷ ps) h = elim (Bool-cases (text_eq q.policy_number t)) [
  | inl e ↦ (q, first, text_eq→eq q.policy_number t e)
  | inr e ↦ let (p, m, same) = listed_earlier t ps (rw e at h) in (p, later m, same)
]

not_listed :
    (t : Text) (ps : List HolderPolicy)
    → any_of (λ q. text_eq q.policy_number t) ps ≡ false
    → (p : HolderPolicy) → Among p ps
    → p.policy_number ≡ t
    → ⊥
not_listed t [] h p m same = elim m [ ]
not_listed t (q ∷ ps) h _ first same =
    let self = text_eq_refl t in
    let found : text_eq q.policy_number t ≡ true = rw same self in ground arith
not_listed t (q ∷ ps) h p (later m) same = not_listed t ps (ground arith) p m same

repeated-NumbersOf :
    (p : HolderPolicy) (ps : List HolderPolicy) (numbers : List Text)
    → any_of (λ q. text_eq q.policy_number p.policy_number) ps ≡ true
    → NumbersOf ps numbers
    → NumbersOf (p ∷ ps) numbers
repeated-NumbersOf p ps numbers h n =
    let (q, k, same) = listed_earlier p.policy_number ps h in
    record {
      different = n.different;
      each = λ x m. elim (uncons m) [
        | inl here ↦
            subst (λ t. Among t numbers) (same ∙ ap (λ y. y.policy_number) here) (n.each q k)
        | inr there ↦ n.each x there
      ];
      only = λ t m. let (x, there, is_t) = n.only t m in (x, later there, is_t);
    }

new-NumbersOf :
    (p : HolderPolicy) (ps : List HolderPolicy) (numbers : List Text)
    → any_of (λ q. text_eq q.policy_number p.policy_number) ps ≡ false
    → NumbersOf ps numbers
    → NumbersOf (p ∷ ps) (p.policy_number ∷ numbers)
new-NumbersOf p ps numbers h n = record {
  different =
      added
        (λ m.
          let (q, k, same) = n.only p.policy_number m in not_listed p.policy_number ps h q k same)
        n.different;
  each =
      λ x m. elim (uncons m) [ inl here ↦ rw (← here) first | inr there ↦ later (n.each x there) ];
  only = λ t m. elim (uncons m) [
    | inl here ↦ (p, first, here)
    | inr there ↦ let (x, k, is_t) = n.only t there in (x, later k, is_t)
  ];
}

pub held-NumbersOf :
    (ps : List HolderPolicy)
    → (numbers : List Text) × NumbersOf ps numbers × (held ps ≡ length numbers)
unfolding held
held-NumbersOf [] =
    ([], record { different = nothing; each = λ p m. elim m [ ]; only = λ t m. elim m [ ] }, refl)
held-NumbersOf (p ∷ ps) =
    let (numbers, n, is_length) = held-NumbersOf ps in
    elim (Bool-cases (any_of (λ q. text_eq q.policy_number p.policy_number) ps)) [
      | inl e ↦ (numbers, repeated-NumbersOf p ps numbers e n, rw e (omega (arith, is_length)))
      | inr e ↦ (
        p.policy_number ∷ numbers,
        new-NumbersOf p ps numbers e n,
        rw e (omega (arith, is_length)),
      )
    ]
