-- ===== src/Graph.antt =====
-- The crate ovecc-graph.
pub mod Traversal
pub mod Blast
pub mod Impact
pub mod Cycles
pub mod Resolution
