-- ===== src/Pipeline/Run.antt =====
-- How a run starts and how it fails: `_mark_processing` of backend/crew/flow.py, which
-- `run_claim_pipeline` repeats, and `_handle_pipeline_failure`.
use insurance_claim_approval.Prelude.{
  ℕ, Option, none, some, ◌≢◌, arith, ◌≡◌, refl, inl, inr, Option-cases,
}
use insurance_claim_approval.Schema.Status.{ClaimStatus}
use insurance_claim_approval.Schema.Claim.{Claim}
use insurance_claim_approval.Schema.Approvals.{Signed, put_claim-Signed}
use insurance_claim_approval.Schema.Outcome.{ClaimDecision}
use insurance_claim_approval.Experts.Effect.{HasStatus}
use insurance_claim_approval.Schema.Db.{
  find_claim-put_row_self, Db, Step, get_claim, put_claim, find_decision, publish, failed,
  completed, submitted_step,
}

set_status : ClaimStatus → Option Claim → Db → Db
set_status s none db = db
set_status s (some c) db = put_claim (record c { status = s }) db

-- The first lines of `run_claim_pipeline` and of `run_claim_flow`.
unfoldable pub start_run : ℕ → Db → Db
unfolding set_status
start_run k db =
    publish k submitted_step completed (set_status ClaimStatus.processing (get_claim k db) db)

undecided : Option Claim → Db → Option Claim
undecided none db = none
undecided (some c) db = elim (find_decision c.id db.decisions) [ none ↦ some c | some d ↦ none ]

unfoldable pub handle_pipeline_failure : ℕ → Step → Db → Db
unfolding set_status undecided
handle_pipeline_failure k step db0 =
    let db = publish k step failed db0 in
    set_status ClaimStatus.pending (undecided (get_claim k db) db) db

set_status-Signed :
    (s : ClaimStatus) (c : Option Claim) (db : Db)
    → s ≢ ClaimStatus.approved
    → Signed db
    → Signed (set_status s c db)
unfolding set_status
set_status-Signed s none db ne h = h
set_status-Signed s (some c) db ne h =
    put_claim-Signed (record c { status = s }) db h (λ e. absurd (ne e))

-- The start of a run approves no claim.
pub start_run-Signed : (k : ℕ) (db : Db) → Signed db → Signed (start_run k db)
unfolding start_run get_claim
start_run-Signed k db h =
    set_status-Signed ClaimStatus.processing (get_claim k db) db (λ e. ground arith) h

-- A failed run approves no claim.
pub failure-Signed :
    (k : ℕ) (step : Step) (db : Db) → Signed db → Signed (handle_pipeline_failure k step db)
unfolding handle_pipeline_failure get_claim
failure-Signed k step db h =
    set_status-Signed ClaimStatus.pending _ (publish k step failed db) (λ e. ground arith) h

pub start_run-policies : (k : ℕ) (db : Db) → (start_run k db).policies ≡ db.policies
unfolding start_run set_status put_claim
start_run-policies k db = ground arith

-- What a failed run leaves of a claim: PENDING without a decision, and PROCESSING with one.
pub data IsLeft (k : ℕ) (db : Db) : Type 0 where
  to_retry : find_decision k db.decisions ≡ none → HasStatus k ClaimStatus.pending db → IsLeft k db
  stuck :
      (d : ClaimDecision)
      → find_decision k db.decisions ≡ some d
      → HasStatus k ClaimStatus.processing db
      → IsLeft k db

pub failure-IsLeft :
    (step : Step) (c : Claim) (db : Db)
    → get_claim c.id db ≡ some c
    → c.status ≡ ClaimStatus.processing
    → IsLeft c.id (handle_pipeline_failure c.id step db)
unfolding handle_pipeline_failure undecided set_status get_claim put_claim
failure-IsLeft step c db h busy = elim (Option-cases (find_decision c.id db.decisions)) [
  | inl e ↦
      rw (h, undecided, e, set_status)
        (to_retry e (
          _,
          find_claim-put_row_self (record c { status = ClaimStatus.pending }) c db.claims h,
          refl,
        ))
  | inr (d, e) ↦ rw (h, undecided, e, set_status) (stuck d e (c, h, busy))
]
