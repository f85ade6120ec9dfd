-- ===== src/Experts/Effect.antt =====
-- What an assignment leaves unchanged.
use insurance_claim_approval.Prelude.{
  ℕ, ◌≡◌, refl, inl, inr, none, some, arith, Bool-cases, Option-cases, is_some, ◌||◌, not,
}
use insurance_claim_approval.Prelude.Time.{DateTime}
use insurance_claim_approval.Schema.Status.{ClaimStatus}
use insurance_claim_approval.Schema.Claim.{Claim}
use insurance_claim_approval.Schema.Customer.{PolicyAgent}
use insurance_claim_approval.Schema.Outcome.{claim_auto_assigned}
use insurance_claim_approval.Schema.Approvals.{Signed, put_claim-Signed, log_audit-Signed}
use insurance_claim_approval.Schema.Db.{Db, get_claim, put_claim, find_claim-put_row_self}
use insurance_claim_approval.Experts.{
  assign_least_loaded_expert, assign_to, least_loaded, is_assignable,
}

-- Claim `k` is in the database, with the status `s`.
abbrev pub HasStatus : ℕ → ClaimStatus → Db → Type 0
HasStatus k s db = (c : Claim) × (get_claim k db ≡ some c) × (c.status ≡ s)

assign_to-HasStatus :
    (now : DateTime) (a : PolicyAgent) (c : Claim) (db : Db)
    → get_claim c.id db ≡ some c
    → HasStatus c.id c.status (assign_to now a c db)
unfolding assign_to get_claim put_claim
assign_to-HasStatus now a c db h = (_, find_claim-put_row_self _ c db.claims h, refl)

-- An assignment changes no claim's status.
pub assign-HasStatus :
    (now : DateTime) (c : Claim) (db : Db)
    → get_claim c.id db ≡ some c
    → HasStatus c.id c.status (assign_least_loaded_expert now c db).1
unfolding assign_least_loaded_expert
assign-HasStatus now c db h =
    let keep_to = assign_to-HasStatus now in
    elim (Bool-cases (is_some c.assigned_agent_id || not (is_assignable c.status))) [
      | inl e ↦ rw e (c, h, refl)
      | inr e ↦ elim (Option-cases (least_loaded db.claims db.agents)) [
        | inl f ↦ rw (e, f) (c, h, refl)
        | inr (a, f) ↦ rw (e, f) (keep_to a c db h)
      ]
    ]

-- An assignment changes no decision.
pub assign-decisions :
    (now : DateTime) (c : Claim) (db : Db)
    → (assign_least_loaded_expert now c db).1.decisions ≡ db.decisions
unfolding assign_least_loaded_expert assign_to put_claim
assign-decisions now c db = ground arith

assign_to-Signed :
    (now : DateTime) (a : PolicyAgent) (c : Claim) (db : Db)
    → get_claim c.id db ≡ some c
    → Signed db
    → Signed (assign_to now a c db)
unfolding assign_to get_claim
assign_to-Signed now a c db h s =
    let d = record c {
      assigned_agent_id = some a.id;
      assigned_agent = some a.full_name;
      assigned_at = some now;
    } in
    log_audit-Signed c.id claim_auto_assigned none (put_claim d db)
      (put_claim-Signed d db s (s c.id c h))

pub assign-Signed :
    (now : DateTime) (c : Claim) (db : Db)
    → get_claim c.id db ≡ some c
    → Signed db
    → Signed (assign_least_loaded_expert now c db).1
unfolding assign_least_loaded_expert
assign-Signed now c db h s =
    elim (Bool-cases (is_some c.assigned_agent_id || not (is_assignable c.status))) [
      | inl e ↦ rw e s
      | inr e ↦ elim (Option-cases (least_loaded db.claims db.agents)) [
        | inl f ↦ rw (e, f) s
        | inr (a, f) ↦ rw (e, f) (assign_to-Signed now a c db h s)
      ]
    ]
