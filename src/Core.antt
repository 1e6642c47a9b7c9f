-- ===== src/Core.antt =====
-- The crate ovecc-core: record types, languages, targets and queries, exit codes, coverage, the
-- architecture contract.
pub mod Legacy
pub mod Language
pub mod Exit
pub mod Query
pub mod Facts
pub mod Ids
pub mod Findings
pub mod Coverage
pub mod Architecture
mod Tests
