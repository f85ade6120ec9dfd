-- ===== src/Lib.antt =====
-- The adjudication of motor insurance claims of this repository (backend/), its second-opinion model
-- (guardrails/, gate/, serve/, ci/) and its customer matching (cde/), modelled and proved.
--
-- A customer submits a claim (routers/claims.py); the pipeline (services/claim_pipeline.py) validates
-- the policy, profiles the customer, detects fraud and reads the documents, merges the results, and
-- decides. A decided claim goes to an expert (services/expert_queue_service.py), who advises the
-- customer and hands the claim to the insurer (routers/agent.py), who alone approves or rejects it
-- (routers/insurer.py).
--
-- Prelude: Boolean tests, lists measured by native numbers, integers, half-even rounding, texts as
-- code points, and calendar days. Config: the thresholds of backend/config.py.
-- Schema: backend/models as records. The database (Schema.Db) is one value with a list of rows for
-- each table, oldest first; `get_claim` and `put_claim` are the query by id and the commit of a changed
-- row. Schema.Approvals is about the approvals in the audit log.
-- Decision: backend/services/decision_engine.py. Validation: policy_validation.py. Kyc: kyc_service.py.
-- Trust: customer_trust_service.py. Profile: customer_profile.py. Fraud: fraud_detection.py, with a
-- function for each rule in Fraud.Rules, and the combiner of claim_pipeline.py. Payout:
-- payout_calculation.py, and Payout.Llm: llm_payout_service.py. Confidence: the computed part of
-- explainability.py. Escalation: escalation_service.py, with a function for each flag in
-- Escalation.Rules. Evidence: evidence_analysis.py, with the checks of one document in
-- Evidence.Validate. Experts: expert_queue_service.py. Documents: document_request_service.py, with the
-- fulfilled requests in Documents.Fulfilment.
-- Pipeline: claim_pipeline.py; Pipeline.Merge is the merged dictionary, Pipeline.Persist the decision
-- row with analysis_service.py, Pipeline.Finalize `finalize_claim`, Pipeline.Run the start and the
-- failure of a run, Pipeline.Stages the five stages and `run_claim_pipeline`, with the stages that the
-- source runs in threads one after the other, as in crew/flow.py, and Pipeline.Resume the run from a
-- step (`run_claim_pipeline_from`) with the early steps that it reads from the audit log.
-- Workflow: the handlers of routers/claims.py, agent.py and insurer.py that change a claim's status,
-- as functions from a database to an HTTP error or the committed database; Workflow.Papers those that
-- write a claim and its documents (drafts, uploads, added documents), Workflow.EvidenceService
-- evidence_service.py. Workflow.Approval makes a step relation of them and of the pipeline, with the
-- lemmas on each handler in Workflow.Lawful, Workflow.Signing and Workflow.PaperLaws;
-- Workflow.Transitions and Workflow.PaperTransitions are about single handlers.
-- Mdm: the matching of cde/jobs/build_mdm.py; Mdm.Distance is `edit_distance`, with the edit scripts in
-- Mdm.Distance.Scripts, Mdm.Names `names_match`, Mdm.Clusters the union-find, Mdm.Matching
-- `cluster_customers`, as the list of its calls of `union`, Mdm.Bureau
-- `link_bureau`, and Mdm.Golden `survive`.
-- Guardrails: guardrails/input_checks.py and output_policy.py with the scoring of serve/scoring.py.
-- Lifecycle: gate/kpi_gate.py and serve/deploy_champion.py, on the directories of a head;
-- Lifecycle.Modes: serve/promote_champion.py; Lifecycle.Retrain: ci/retrain_trigger.py.
-- Progress: services/progress_service.py, without the subscription.
-- Tests: a small database, and runs of the model on it.
--
-- Scores are in ten-thousandths and amounts in cents; intermediate values are exact, and rounded where
-- the source rounds. The floating-point error of the source is not modelled. Recursion is
-- structural, but for the loop of `find`, whose fuel is one more than the number of keys: each round
-- goes on at a smaller key. Dictionaries become records of optional fields, texts that the
-- services compose become constructors of their templates, and the clock is an argument. The answers
-- of the language model (backend/services/llm_service.py), of retrieval, of OCR and of the regular
-- expressions are arguments of any value, and so is the Unicode table of letters and digits. Amounts
-- are not negative, also those of a draft, which its schema does not check.
--
-- Not modelled: exceptions but those of a malformed confidence or rationale of the language model,
-- the interleavings of the four threads, policy papers and the human review, the shadow model, the
-- assistants, authentication, the rest of the data platform (cde/, stream/, train/, monitor/), and the
-- frontend. The models of the heads and the distance to their training data are functions of any
-- values.
pub mod Prelude
pub mod Config
pub mod Schema
pub mod Decision
pub mod Validation
pub mod Kyc
pub mod Mdm
pub mod Guardrails
pub mod Lifecycle
pub mod Trust
pub mod Profile
pub mod Fraud
pub mod Payout
pub mod Confidence
pub mod Escalation
pub mod Experts
pub mod Pipeline
pub mod Documents
pub mod Workflow
mod Tests
pub mod Evidence
pub mod Progress
