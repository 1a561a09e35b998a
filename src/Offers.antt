-- ===== src/Offers.antt =====
-- The offers of the loan products: their schedule, and the endpoint that computes them.
pub mod Engine
pub mod Parts
pub mod Totals
pub mod Interest
pub mod Endpoint
mod Scenarios
