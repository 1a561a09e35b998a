-- ===== src/Accrual.antt =====
-- The interest that accrues on a loan.
pub mod Balances
pub mod Interest
pub mod Repeats
mod Scenarios
