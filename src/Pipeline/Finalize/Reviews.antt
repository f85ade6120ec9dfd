-- ===== src/Pipeline/Finalize/Reviews.antt =====
-- That a claim which needs a person has a review.
use mathlib.Core.Path.{sym, ◌∙◌}
use insurance_claim_approval.Prelude.{
  ℕ, ◌≡◌, refl, Bool, true, false, List, [], ◌∷◌, ◌++◌, arith, ◌==◌, any_of, some, if◌then◌else◌,
}
use insurance_claim_approval.Schema.Status.{ClaimStatus}
use insurance_claim_approval.Schema.Claim.{Claim}
use insurance_claim_approval.Schema.Outcome.{Merged, HumanReview, ReviewReason}
use insurance_claim_approval.Schema.Db.{Db, get_claim}
use insurance_claim_approval.Decision.{DecisionResult, decide}
use insurance_claim_approval.Escalation.{EscalationResult}
use insurance_claim_approval.Pipeline.Merge.{merge}
use insurance_claim_approval.Pipeline.Finalize.{
  Services, Final, finished, finalize_claim, record_decision, assessed, close, escalation_of,
  add_review, notify,
}
use insurance_claim_approval.Pipeline.Finalize.Laws.{audited, finalize_claim-Concluded}

-- A review of claim `k`.
abbrev pub has_review : ℕ → List HumanReview → Bool
has_review k = any_of (λ r. r.claim_id == k)

has_review-last :
    (k : ℕ) (rs : List HumanReview) (r : HumanReview)
    → r.claim_id ≡ k
    → has_review k (rs ++ r ∷ []) ≡ true
has_review-last k [] r h = ground arith
has_review-last k (x ∷ rs) r h = ground (arith, has_review-last k rs r h)

notify-reviews : (k : ℕ) (s : ClaimStatus) (db : Db) → (notify k s db).reviews ≡ db.reviews
unfolding notify
notify-reviews k s db = ground arith

added_review :
    (k : ℕ) (reason : ReviewReason) (b : Bool) (db : Db)
    → b ≡ true
    → has_review k (if b then add_review k reason db else db).reviews ≡ true
unfolding add_review
added_review k reason true db h = has_review-last k db.reviews _ refl
added_review k reason false db h = cc

close-reviews :
    (v : Services) (k : ℕ) (d : DecisionResult) (e : EscalationResult) (m : Merged) (db : Db)
    → d.human_review_required ≡ true
    → has_review k (close v k d e m db).reviews ≡ true
unfolding close
close-reviews v k d e m db h =
    rw (notify-reviews k d.status _) (added_review k _ d.human_review_required _ h)

-- A finished claim whose result asks for a human review has a review in the database.
pub finalize_claim-review :
    (v : Services) (c : Claim) (results : List Merged) (db : Db) (f : Final)
    → get_claim c.id db ≡ some c
    → (finalize_claim v c.id results db).0 ≡ finished f
    → f.human_review_required ≡ true
    → has_review c.id (finalize_claim v c.id results db).1.reviews ≡ true
unfolding record_decision
finalize_claim-review v c results db f h e needed =
    let db1 = audited c.id results db in
    let (i, m) = assessed v c db1 (merge results) in
    let (_, _, same, after) = finalize_claim-Concluded v c results db f h e in
    rw after (close-reviews v c.id (decide i) (escalation_of i) m _ (sym same ∙ needed))
