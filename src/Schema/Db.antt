-- ===== src/Schema/Db.antt =====
-- The database as one value: a list of rows for each table, oldest first.
use insurance_claim_approval.Prelude.{
  ℕ, ◌≡◌, ◌≢◌, refl, Option, none, some, List, [], ◌∷◌, ◌++◌, arith, ◌==◌, if◌then◌else◌, keep,
  find_first,
}
use insurance_claim_approval.Schema.Status.{ClaimStatus}
use insurance_claim_approval.Schema.Policy.{Policy, PremiumPayment}
use insurance_claim_approval.Schema.Customer.{
  Customer, CustomerProfile, CustomerProfileSignal, PolicyAgent,
}
use insurance_claim_approval.Schema.Claim.{Claim, ClaimDocument}
use insurance_claim_approval.Schema.Outcome.{
  ClaimDecision, HumanReview, FraudAssessment, AuditLog, EventType, Merged,
}

-- The steps of `ProgressService.STEPS` and STEP_LABELS, and an event's status.
pub data Step : Type 0 where
  submitted_step policy_validation rag_retrieval customer_profile evidence_analysis : Step
  fraud_detection decision_engine payout_calculation completed_step pipeline_reset : Step
  human_review_step : Step

pub data Phase : Type 0 where
  running completed failed : Phase

-- A progress event, with what tells one event of a stage from another.
pub record Event : Type 0 where
  pub claim_id : ℕ
  pub step : Step
  pub phase : Phase

pub record Db : Type 0 where
  pub claims : List Claim
  pub documents : List ClaimDocument
  pub policies : List Policy
  pub payments : List PremiumPayment
  pub customers : List Customer
  pub profiles : List CustomerProfile
  pub profile_signals : List CustomerProfileSignal
  pub agents : List PolicyAgent
  pub decisions : List ClaimDecision
  pub reviews : List HumanReview
  pub assessments : List FraudAssessment
  pub audit : List AuditLog
  pub events : List Event
  pub notified : List (ℕ × ClaimStatus)

-- `query(Claim).filter(Claim.id == k).first()`
unfoldable pub find_claim : ℕ → List Claim → Option Claim
find_claim k [] = none
find_claim k (c ∷ cs) = if c.id == k then some c else find_claim k cs

-- A commit of a changed row: the row of that id is written over.
unfoldable pub put_row : Claim → List Claim → List Claim
put_row c [] = []
put_row c (d ∷ ds) = if d.id == c.id then c ∷ ds else d ∷ put_row c ds

unfoldable pub get_claim : ℕ → Db → Option Claim
get_claim k db = find_claim k db.claims

unfoldable pub put_claim : Claim → Db → Db
put_claim c db = record db { claims = put_row c db.claims }

unfoldable pub find_decision : ℕ → List ClaimDecision → Option ClaimDecision
find_decision k [] = none
find_decision k (d ∷ ds) = if d.claim_id == k then some d else find_decision k ds

-- The decision of a claim is unique: it is written over, or added.
unfoldable pub put_decision : ClaimDecision → List ClaimDecision → List ClaimDecision
put_decision x [] = x ∷ []
put_decision x (d ∷ ds) = if d.claim_id == x.claim_id then x ∷ ds else d ∷ put_decision x ds

abbrev pub log_audit : ℕ → EventType → Option Merged → Db → Db
log_audit k e p db = record db {
  audit = db.audit ++ record { claim_id = k; event_type = e; payload = p } ∷ [];
}

abbrev pub publish : ℕ → Step → Phase → Db → Db
publish k s p db = record db {
  events = db.events ++ record { claim_id = k; step = s; phase = p } ∷ [];
}

-- `claim.documents`
unfoldable pub documents_of : ℕ → Db → List ClaimDocument
documents_of k db = keep (λ d. d.claim_id == k) db.documents

-- `claim.policy`
unfoldable pub policy_of : Claim → Db → Option Policy
policy_of c db = elim c.policy_id [ none ↦ none | some k ↦ find_first (λ p. p.id == k) db.policies ]

unfoldable pub customer_of : Claim → Db → Option Customer
customer_of c db = find_first (λ x. x.id == c.customer_id) db.customers

pub find_claim-put_row_self :
    (c d : Claim) (cs : List Claim)
    → find_claim c.id cs ≡ some d
    → find_claim c.id (put_row c cs) ≡ some c
unfolding find_claim put_row
find_claim-put_row_self c d [] h = cc
find_claim-put_row_self c d (e ∷ cs) h = ground (arith, find_claim-put_row_self c d cs)

pub find_claim-put_row_ne :
    (c : Claim) (k : ℕ) (cs : List Claim) → c.id ≢ k → find_claim k (put_row c cs) ≡ find_claim k cs
unfolding find_claim put_row
find_claim-put_row_ne c k [] h = refl
find_claim-put_row_ne c k (e ∷ cs) h = ground (arith, find_claim-put_row_ne c k cs h)

-- A row found under an id has that id.
pub find_claim-id : (k : ℕ) (c : Claim) (cs : List Claim) → find_claim k cs ≡ some c → c.id ≡ k
unfolding find_claim
find_claim-id k c [] h = cc
find_claim-id k c (e ∷ cs) h = ground (arith, find_claim-id k c cs)

pub find_decision-put_self :
    (x : ClaimDecision) (ds : List ClaimDecision)
    → find_decision x.claim_id (put_decision x ds) ≡ some x
unfolding find_decision put_decision
find_decision-put_self x [] = ground arith
find_decision-put_self x (d ∷ ds) = ground (arith, find_decision-put_self x ds)

pub find_decision-id :
    (k : ℕ) (d : ClaimDecision) (ds : List ClaimDecision)
    → find_decision k ds ≡ some d
    → d.claim_id ≡ k
unfolding find_decision
find_decision-id k d [] h = cc
find_decision-id k d (e ∷ ds) h = ground (arith, find_decision-id k d ds)

pub find_decision-put_at :
    (k : ℕ) (x : ClaimDecision) (ds : List ClaimDecision)
    → x.claim_id ≡ k
    → find_decision k (put_decision x ds) ≡ some x
find_decision-put_at k x ds h = rw (← h) (find_decision-put_self x ds)

pub get_claim-id : (k : ℕ) (c : Claim) (db : Db) → get_claim k db ≡ some c → c.id ≡ k
unfolding get_claim
get_claim-id k c db h = find_claim-id k c db.claims h

pub put_claim-get :
    (c d : Claim) (db : Db) → get_claim c.id db ≡ some d → get_claim c.id (put_claim c db) ≡ some c
unfolding get_claim put_claim
put_claim-get c d db h = find_claim-put_row_self c d db.claims h

find_claim-put_row-is :
    (c d : Claim) (cs : List Claim) → find_claim c.id (put_row c cs) ≡ some d → d ≡ c
unfolding find_claim put_row
find_claim-put_row-is c d [] h = cc
find_claim-put_row-is c d (e ∷ cs) h = ground (arith, find_claim-put_row-is c d cs)

pub put_claim-is : (c d : Claim) (db : Db) → get_claim c.id (put_claim c db) ≡ some d → d ≡ c
unfolding get_claim put_claim
put_claim-is c d db h = find_claim-put_row-is c d db.claims h

pub put_claim-ne :
    (c : Claim) (k : ℕ) (db : Db) → c.id ≢ k → get_claim k (put_claim c db) ≡ get_claim k db
unfolding get_claim put_claim
put_claim-ne c k db h = find_claim-put_row_ne c k db.claims h
