-- ===== src/Workflow/Approval.antt =====
-- The steps that a claim can take, and who can approve it.

use insurance_claim_approval.Prelude.{ℕ, ◌≡◌, Option, List}
use insurance_claim_approval.Prelude.Text.{Text}
use insurance_claim_approval.Prelude.Time.{DateTime}
use insurance_claim_approval.Schema.Customer.{PolicyAgent}
use insurance_claim_approval.Schema.Outcome.{Merged}
use insurance_claim_approval.Schema.Approvals.{Signed}
use insurance_claim_approval.Schema.Db.{Db, Step}
use insurance_claim_approval.Pipeline.Finalize.{Services, finalize_claim}
use insurance_claim_approval.Pipeline.Finalize.Approvals.{finalize_claim-Signed}
use insurance_claim_approval.Pipeline.Stages.{Sources, run_claim_pipeline}
use insurance_claim_approval.Pipeline.Stages.Outcomes.{run_claim_pipeline-Signed}
use insurance_claim_approval.Pipeline.Run.{
  start_run, handle_pipeline_failure, start_run-Signed, failure-Signed,
}
use insurance_claim_approval.Workflow.{
  committed, Consultation, InsurerDecision, submit_draft_claim, retry_claim_processing,
  assign_claim_agent, agent_submit_consultation, agent_submit_to_insurer, insurer_submit_decision,
}
use insurance_claim_approval.Workflow.Signing.{
  submit-Signed, retry-Signed, assign-Signed, consultation-Signed, to_insurer-Signed,
  insurer-Signed,
}
use insurance_claim_approval.Workflow.Papers.{
  NewDraft, DraftUpdate, Evidence, Upload, create_draft, update_draft, upload_evidence,
  add_documents,
}
use insurance_claim_approval.Workflow.EvidenceService.{replace_document, acknowledge_document}
use insurance_claim_approval.Workflow.PaperLaws.{
  draft-Signed, update-Signed, upload-Signed, add-Signed, replace-Signed, acknowledge-Signed,
}
use insurance_claim_approval.Evidence.{Readers}
use insurance_claim_approval.Pipeline.Resume.{run_claim_pipeline_from}
use insurance_claim_approval.Pipeline.Resume.Laws.{run_claim_pipeline_from-Signed}

-- What can happen to the database: a handler commits, or a run is made as a whole, or starts, is
-- finished with any stage results, or fails.
pub data Move : Db → Db → Type 0 where
  submits :
      (customer k : ℕ) (db db' : Db)
      → submit_draft_claim customer k db ≡ committed db'
      → Move db db'
  retries :
      (customer k : ℕ) (db db' : Db)
      → retry_claim_processing customer k db ≡ committed db'
      → Move db db'
  assigns :
      (now : DateTime) (customer k : ℕ) (j : Option ℕ) (name : Text) (db db' : Db)
      → assign_claim_agent now customer k j name db ≡ committed db'
      → Move db db'
  consults :
      (agent : PolicyAgent) (k : ℕ) (body : Consultation) (db db' : Db)
      → agent_submit_consultation agent k body db ≡ committed db'
      → Move db db'
  hands_over :
      (agent : PolicyAgent) (k : ℕ) (db db' : Db)
      → agent_submit_to_insurer agent k db ≡ committed db'
      → Move db db'
  concludes :
      (insurer : Text) (k : ℕ) (body : InsurerDecision) (db db' : Db)
      → insurer_submit_decision insurer k body db ≡ committed db'
      → Move db db'
  drafts :
      (now : DateTime) (fresh customer : ℕ) (body : NewDraft) (db db' : Db)
      → create_draft now fresh customer body db ≡ committed db'
      → Move db db'
  updates :
      (customer k : ℕ) (u : DraftUpdate) (db db' : Db)
      → update_draft customer k u db ≡ committed db'
      → Move db db'
  uploads :
      (now : DateTime) (fresh customer k : ℕ) (e : Evidence) (db db' : Db)
      → upload_evidence now fresh customer k e db ≡ committed db'
      → Move db db'
  adds :
      (now : DateTime) (fresh customer k : ℕ) (t : Text) (files : List Upload) (db db' : Db)
      → add_documents now fresh customer k t files db ≡ committed db'
      → Move db db'
  replaces :
      (now : DateTime) (fresh customer k : ℕ) (u : Upload) (j : Option ℕ) (t : Option Text)
      (db db' : Db)
      → replace_document now fresh customer k u j t db ≡ committed db'
      → Move db db'
  acknowledges :
      (v : Readers) (customer k j : ℕ) (db db' : Db)
      → acknowledge_document v customer k j db ≡ committed db'
      → Move db db'
  starts : (k : ℕ) (db : Db) → Move db (start_run k db)
  finishes :
      (v : Services) (k : ℕ) (results : List Merged) (db : Db)
      → Move db (finalize_claim v k results db).1
  runs : (v : Services) (x : Sources) (k : ℕ) (db : Db) → Move db (run_claim_pipeline v x k db).1
  resumes :
      (v : Services) (x : Sources) (from : Step) (k : ℕ) (db : Db)
      → Move db (run_claim_pipeline_from v x from k db).1
  fails : (k : ℕ) (step : Step) (db : Db) → Move db (handle_pipeline_failure k step db)

pub data Reach : Db → Db → Type 0 where
  here : (db : Db) → Reach db db
  then_move : (db db' db'' : Db) → Reach db db' → Move db' db'' → Reach db db''

Move-Signed : (db db' : Db) → Move db db' → Signed db → Signed db'
Move-Signed db db' (submits customer k _ _ e) s = (submit-Signed customer k db s).law db' e
Move-Signed db db' (retries customer k _ _ e) s = (retry-Signed customer k db s).law db' e
Move-Signed db db' (assigns now customer k j name _ _ e) s =
    (assign-Signed now customer k j name db s).law db' e
Move-Signed db db' (consults agent k body _ _ e) s =
    (consultation-Signed agent k body db s).law db' e
Move-Signed db db' (hands_over agent k _ _ e) s = (to_insurer-Signed agent k db s).law db' e
Move-Signed db db' (concludes insurer k body _ _ e) s =
    (insurer-Signed insurer k body db s).law db' e
Move-Signed db db' (drafts now fresh customer body _ _ e) s =
    (draft-Signed now fresh customer body db s).law db' e
Move-Signed db db' (updates customer k u _ _ e) s = (update-Signed customer k u db s).law db' e
Move-Signed db db' (uploads now fresh customer k ev _ _ e) s =
    (upload-Signed now fresh customer k ev db s).law db' e
Move-Signed db db' (adds now fresh customer k t files _ _ e) s =
    (add-Signed now fresh customer k t files db s).law db' e
Move-Signed db db' (replaces now fresh customer k u j t _ _ e) s =
    (replace-Signed now fresh customer k u j t db s).law db' e
Move-Signed db db' (acknowledges v customer k j _ _ e) s =
    (acknowledge-Signed v customer k j db s).law db' e
Move-Signed db _ (starts k _) s = start_run-Signed k db s
Move-Signed db _ (finishes v k results _) s = finalize_claim-Signed v k results db s
Move-Signed db _ (runs v x k _) s = run_claim_pipeline-Signed v x k db s
Move-Signed db _ (resumes v x from k _) s = run_claim_pipeline_from-Signed v x from k db s
Move-Signed db _ (fails k step _) s = failure-Signed k step db s

-- However the handlers and the runs of the pipeline follow one another, a claim is only ever
-- approved with an entry INSURER_APPROVED of its own in the audit log, if this was so at the start.
pub Reach-Signed : (db db' : Db) → Reach db db' → Signed db → Signed db'
Reach-Signed db _ (here _) s = s
Reach-Signed db _ (then_move _ db1 db2 path m) s =
    Move-Signed db1 db2 m (Reach-Signed db db1 path s)
