-- ===== src/Runtime/Controller.antt =====
-- mobility_agent/runtime/agentic_controller.py: the decisions of the controller between two actions.
pub mod Retries
pub mod Accounted
pub mod Plan
pub mod Chain
pub mod Council
pub mod Strictness
pub mod Reason
