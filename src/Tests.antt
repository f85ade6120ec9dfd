-- ===== src/Tests.antt =====
-- Concrete runs of the model, and an instance of each theorem that has hypotheses or binders.
pub mod Data
mod Rules
mod Money
mod Flow
mod Handlers
mod Papers
mod Runs
mod Masters
mod Models
mod Forms
