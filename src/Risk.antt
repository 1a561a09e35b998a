-- ===== src/Risk.antt =====
-- The risk decisions and holds that stand before a loan's transitions.
pub mod Gate
