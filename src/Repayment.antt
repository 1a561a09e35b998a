-- ===== src/Repayment.antt =====
-- Repayments: their allocation to the schedule, and their posting.
pub mod Allocation
pub mod Conservation
pub mod Order
pub mod Posting
pub mod Transaction
mod Lines
mod Stages
pub mod Overpayment
pub mod Rows
pub mod Closing
pub mod Settlement
pub mod Actors
mod Scenarios
