-- ===== src/Tools.antt =====
-- mobility_agent/tools: the deterministic steps of the physics backbone.
pub mod VaspFailure
pub mod RelaxRetry
