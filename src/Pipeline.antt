-- ===== src/Pipeline.antt =====
-- backend/services/claim_pipeline.py: how the results of the five stages become a decision, and
-- what a run of the pipeline writes.
pub mod Merge
pub mod Persist
pub mod Finalize
pub mod Run
pub mod Stages
pub mod Resume
