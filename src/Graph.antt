-- ===== src/Graph.antt =====
-- mobility_agent/graph: the stages, their contracts and the rules of a resume.
pub mod Stages
pub mod Resume
pub mod Cleanup
pub mod Merge
pub mod Status
pub mod Events
