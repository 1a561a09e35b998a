-- ===== src/Ledger.antt =====
-- The double-entry ledger of a tenant.
pub mod Accounts
pub mod Entries
pub mod Reversal
pub mod Chart
pub mod Outcome
pub mod Acceptance
pub mod Balance
pub mod Idempotent
pub mod Cancellation
pub mod Journals
mod Scenarios
pub mod Refinement
