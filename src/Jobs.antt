-- ===== src/Jobs.antt =====
-- The queue of background jobs.
pub mod Queue
pub mod Validity
pub mod Lifecycle
pub mod Reachable
pub mod Failures
pub mod Claims
pub mod Order
pub mod Operations
pub mod Interventions
pub mod Holders
mod Scenarios
pub mod Runner
pub mod Draining
pub mod Rounds
pub mod Termination
