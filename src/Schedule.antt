-- ===== src/Schedule.antt =====
-- The repayment schedule of a disbursed loan.
pub mod Amortization
pub mod Sums
pub mod Totals
pub mod Handler
pub mod Regeneration
mod Scenarios
