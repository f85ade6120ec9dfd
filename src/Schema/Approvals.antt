-- ===== src/Schema/Approvals.antt =====
-- Whether the audit log says that the insurer approved a claim.
use insurance_claim_approval.Prelude.{
  ℕ, ◌≡◌, ◌≢◌, inl, inr, Bool, true, false, ◌&&◌, Option, some, List, [], ◌∷◌, ◌++◌, arith, ◌==◌,
  any_of, Bool-cases,
}
use mathlib.Core.Path.{subst, sym, ◌∙◌, ap}
use insurance_claim_approval.Schema.Status.{ClaimStatus}
use insurance_claim_approval.Schema.Claim.{Claim}
use insurance_claim_approval.Schema.Outcome.{Merged, EventType, insurer_approved, AuditLog}
use insurance_claim_approval.Schema.Db.{
  Db, get_claim, put_claim, log_audit, put_claim-is, put_claim-ne,
}

is_approval : EventType → Bool
is_approval insurer_approved = true
is_approval _ = false

-- The insurer approved claim `k`, by the audit log.
unfoldable pub signed_off : ℕ → List AuditLog → Bool
unfolding is_approval
signed_off k = any_of (λ e. e.claim_id == k && is_approval e.event_type)

-- Every approved claim has an entry INSURER_APPROVED in the audit log.
abbrev pub Signed : Db → Type 0
Signed db =
    (k : ℕ) (c : Claim)
    → get_claim k db ≡ some c
    → c.status ≡ ClaimStatus.approved
    → signed_off k db.audit ≡ true

pub signed_off-append :
    (k : ℕ) (as' bs : List AuditLog) → signed_off k as' ≡ true → signed_off k (as' ++ bs) ≡ true
unfolding signed_off
signed_off-append k [] bs h = cc
signed_off-append k (a ∷ as') bs h = ground (arith, signed_off-append k as' bs)

-- A changed row keeps the property if the row is not approved, or was signed off.
pub put_claim-Signed :
    (c : Claim) (db : Db)
    → Signed db
    → (c.status ≡ ClaimStatus.approved → signed_off c.id db.audit ≡ true)
    → Signed (put_claim c db)
unfolding put_claim
put_claim-Signed c db h own k d found approved = elim (Bool-cases (c.id == k)) [
  | inl e ↦
      let same : c.id ≡ k = ground arith in
      let here =
        put_claim-is c d db (subst (λ j. get_claim j (put_claim c db) ≡ some d) (sym same) found) in
      subst (λ j. signed_off j db.audit ≡ true) same
        (own (ap (λ (x : Claim). x.status) (sym here) ∙ approved))
  | inr e ↦
      let differ : c.id ≢ k = λ s. ground arith in
      h k d (sym (put_claim-ne c k db differ) ∙ found) approved
]

pub log_audit-Signed :
    (j : ℕ) (e : EventType) (p : Option Merged) (db : Db) → Signed db → Signed (log_audit j e p db)
unfolding get_claim
log_audit-Signed j e p db h k c found approved =
    signed_off-append k db.audit _ (h k c found approved)

-- The entry that an approval adds.
pub signed_off-new :
    (k : ℕ) (p : Option Merged) (as' : List AuditLog)
    → signed_off k (as' ++ record { claim_id = k; event_type = insurer_approved; payload = p } ∷ [])
      ≡ true
unfolding signed_off
signed_off-new k p [] = ground arith
signed_off-new k p (a ∷ as') = ground (arith, signed_off-new k p as')
