-- ===== src/Workflow/Lawful.antt =====
-- Handlers that approve no claim without the insurer.
use mathlib.Core.Path.{subst, sym}
use insurance_claim_approval.Prelude.{
  ℕ, ◌≡◌, ◌≢◌, inl, inr, Bool, true, false, Option, none, some, ◌==◌, Bool-cases, Option-cases,
}
use insurance_claim_approval.Schema.Claim.{Claim}
use insurance_claim_approval.Schema.Approvals.{Signed}
use insurance_claim_approval.Schema.Db.{Db, get_claim, get_claim-id}
use insurance_claim_approval.Workflow.{
  Response, committed, raised, HttpError, claim_not_found, reject_if, need, when_owned,
  when_assigned,
}

-- What a handler commits has only claims that were signed off.
raised-ne : (e : HttpError) (db : Db) → raised e ≢ committed db
raised-ne e db h = cc

committed-inj : (db db' : Db) → committed db ≡ committed db' → db ≡ db'
committed-inj db db' h = cc

pub record Lawful (r : Response) : Type 0 where
  pub law : (db : Db) → r ≡ committed db → Signed db

pub refused : (e : HttpError) → Lawful (raised e)
refused e = record { law = λ db h. absurd (raised-ne e db h) }

pub lawful : (db : Db) → Signed db → Lawful (committed db)
lawful db s = record { law = λ db' h. subst Signed (committed-inj db db' h) s }

pub guarded : (b : Bool) (e : HttpError) (r : Response) → Lawful r → Lawful (reject_if b e r)
unfolding reject_if
guarded true e r h = refused e
guarded false e r h = h

pub needed :
    {A : Type 0} (a : Option A) (e : HttpError) (body : A → Response)
    → ((x : A) → Lawful (body x))
    → Lawful (need a e body)
unfolding need
needed none e body h = refused e
needed (some x) e body h = h x

pub owned :
    (k customer : ℕ) (db : Db) (body : Claim → Response)
    → ((c : Claim) → get_claim c.id db ≡ some c → Lawful (body c))
    → Lawful (when_owned (get_claim k db) customer body)
owned k customer db body h = elim (Option-cases (get_claim k db)) [
  | inl e ↦ rw e (refused claim_not_found)
  | inr (c, e) ↦ elim (Bool-cases (c.customer_id == customer)) [
    | inl f ↦ rw (e, f) (h c (subst (λ j. get_claim j db ≡ some c) (sym (get_claim-id k c db e)) e))
    | inr f ↦ rw (e, f) (refused claim_not_found)
  ]
]

pub taken :
    (k agent : ℕ) (db : Db) (body : Claim → Response)
    → ((c : Claim) → Lawful (body c))
    → Lawful (when_assigned (get_claim k db) agent body)
taken k agent db body h = elim (Option-cases (get_claim k db)) [
  | inl e ↦ rw e (refused claim_not_found)
  | inr (c, e) ↦ elim (Option-cases c.assigned_agent_id) [
    | inl f ↦ rw (e, f) (refused claim_not_found)
    | inr (j, f) ↦ elim (Bool-cases (j == agent)) [
      | inl g ↦ rw (e, f, g) (h c)
      | inr g ↦ rw (e, f, g) (refused claim_not_found)
    ]
  ]
]
