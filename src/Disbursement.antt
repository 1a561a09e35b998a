-- ===== src/Disbursement.antt =====
-- The disbursement of a loan.
pub mod Records
pub mod Transaction
pub mod Requests
pub mod Stages
pub mod Money
pub mod Payment
pub mod Actors
pub mod Effects
pub mod Retries
mod Scenarios
pub mod Readiness
pub mod Flow
mod FlowScenarios
