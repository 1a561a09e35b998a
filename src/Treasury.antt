-- ===== src/Treasury.antt =====
-- The treasury: the pools of capital, and the capital allocated to loans.
pub mod Allocations
pub mod Pools
pub mod Funds
pub mod Deployments
pub mod Exposure
mod Scenarios
