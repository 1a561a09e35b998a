-- ===== src/Idempotency.antt =====
-- The idempotency keys around the requests that move money.
pub mod Keys
pub mod Replays
mod Scenarios
