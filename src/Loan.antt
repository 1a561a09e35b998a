-- ===== src/Loan.antt =====
-- The life of a loan application: its status, the transitions and who may make them.
pub mod Status
pub mod Roles
pub mod Permissions
pub mod Lifecycle
mod Scenarios
