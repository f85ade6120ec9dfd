-- ===== src/Schema.antt =====
-- The tables of backend/models and the values that the services pass to one another.
pub mod Status
pub mod Policy
pub mod Customer
pub mod Claim
pub mod Messages
pub mod Outcome
pub mod Db
pub mod Approvals
