-- ===== src/Delinquency.antt =====
-- The delinquency of a loan.
pub mod Engine
pub mod Overdue
pub mod Recalculation
mod Scenarios
pub mod Figures
pub mod Repeats
