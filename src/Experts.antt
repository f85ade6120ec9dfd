-- ===== src/Experts.antt =====
-- backend/services/expert_queue_service.py: a claim that is ready for a person goes to the active
-- expert with the fewest open claims, the one of lowest id among equals.
pub mod Choice
pub mod Effect
use insurance_claim_approval.Prelude.{
  ℕ, Bool, true, false, ◌&&◌, ◌||◌, not, Option, none, some, List, [], ◌∷◌, ◌++◌, ltb, leb, ◌==◌,
  is_some, if◌then◌else◌, keep, count_if, any_of, ◌+◌,
}
use insurance_claim_approval.Prelude.Text.{Text}
use insurance_claim_approval.Prelude.Time.{DateTime}
use insurance_claim_approval.Schema.Status.{ClaimStatus, HumanReviewStatus, review_in_progress}
use insurance_claim_approval.Schema.Customer.{PolicyAgent}
use insurance_claim_approval.Schema.Claim.{Claim}
use insurance_claim_approval.Schema.Outcome.{HumanReview, auto_assigned, claim_auto_assigned}
use insurance_claim_approval.Schema.Db.{Db, put_claim, log_audit, get_claim}

-- OPEN_QUEUE_STATUSES
abbrev pub is_open : ClaimStatus → Bool
is_open ClaimStatus.analysis_complete = true
is_open ClaimStatus.pending_review = true
is_open ClaimStatus.submission_ready = true
is_open ClaimStatus.request_more_info = true
is_open _ = false

abbrev pub is_assignable : ClaimStatus → Bool
is_assignable ClaimStatus.analysis_complete = true
is_assignable ClaimStatus.pending_review = true
is_assignable _ = false

abbrev pub is_assigned_to : ℕ → Option ℕ → Bool
is_assigned_to k none = false
is_assigned_to k (some a) = a == k

-- `coalesce(open_count, 0)` of an expert.
unfoldable pub load : List Claim → PolicyAgent → ℕ
load cs a = count_if (λ c. is_assigned_to a.id c.assigned_agent_id && is_open c.status) cs

-- Before in the order by load, then by id.
abbrev pub is_before : List Claim → PolicyAgent → PolicyAgent → Bool
is_before cs a b = ltb (load cs a) (load cs b) || (load cs a == load cs b && leb a.id b.id)

-- `order_by(…).first()` of the active experts.
unfoldable pub least_loaded : List Claim → List PolicyAgent → Option PolicyAgent
least_loaded cs [] = none
least_loaded cs (a ∷ as') =
    let rest = least_loaded cs as' in
    if not a.is_active
    then rest
    else elim rest [ none ↦ some a | some b ↦ if is_before cs a b then some a else some b ]

-- The newest review of a claim is changed; without one, a new one is added.
unfoldable pub touch_review :
    ℕ → (HumanReview → HumanReview) → HumanReview → List HumanReview → List HumanReview
touch_review k f fresh [] = fresh ∷ []
touch_review k f fresh (r ∷ rs) =
    if any_of (λ x. x.claim_id == k) rs
    then r ∷ touch_review k f fresh rs
    else if r.claim_id == k
    then f r ∷ rs
    else r ∷ touch_review k f fresh rs

pub assign_to : DateTime → PolicyAgent → Claim → Db → Db
assign_to now a c db =
    let d = record c {
      assigned_agent_id = some a.id;
      assigned_agent = some a.full_name;
      assigned_at = some now;
    } in
    let db1 = put_claim d db in
    let db2 = record db1 {
      reviews =
          touch_review c.id
            (λ r. record r { assigned_to = some a.full_name; status = review_in_progress })
            (record {
              claim_id = c.id;
              reason = auto_assigned;
              assigned_to = some a.full_name;
              status = review_in_progress;
              reviewer_notes = none;
              decision_override = none;
            })
            db1.reviews;
    } in
    log_audit c.id claim_auto_assigned none db2

-- `assign_least_loaded_expert`: the expert who was chosen, and the database after it.
unfoldable pub assign_least_loaded_expert : DateTime → Claim → Db → Option PolicyAgent × Db
unfolding assign_to
assign_least_loaded_expert now c db =
    if is_some c.assigned_agent_id || not (is_assignable c.status)
    then (none, db)
    else elim (least_loaded db.claims db.agents) [
      | none ↦ (none, db)
      | some a ↦ (some a, assign_to now a c db)
    ]

backfill_from : DateTime → List Claim → ℕ × Db → ℕ × Db
backfill_from now [] acc = acc
backfill_from now (c ∷ cs) (n, db) =
    let (chosen, db') = assign_least_loaded_expert now c db in
    backfill_from now cs (if is_some chosen then (n + 1) else n, db')

-- `backfill_unassigned_queue_claims`
unfoldable pub backfill : DateTime → Db → ℕ × Db
unfolding backfill_from
backfill now db =
    backfill_from now
      (keep (λ c. not (is_some c.assigned_agent_id) && is_assignable c.status) db.claims) (0, db)
