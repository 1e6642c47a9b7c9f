-- ===== src/Rules.antt =====
-- The crate ovecc-rules.
pub mod Specifier
pub mod Contract
pub mod DeadCode
