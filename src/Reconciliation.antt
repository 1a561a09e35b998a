-- ===== src/Reconciliation.antt =====
-- The reconciliation of payments with the ledger.
pub mod Records
pub mod Resolution
pub mod Sequences
mod Scenarios
pub mod Once
