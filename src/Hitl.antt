-- ===== src/Hitl.antt =====
-- mobility_agent/hitl: decisions taken with a human in the loop.
pub mod ManualFix
