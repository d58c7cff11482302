-- ===== src/Runtime.antt =====
-- mobility_agent/runtime: the deliberation runtime and its policies.
pub mod Actions
pub mod Registry
pub mod Legality
pub mod Board
pub mod Queue
pub mod Controller
pub mod Sampling
pub mod Validation
