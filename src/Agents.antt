-- ===== src/Agents.antt =====
-- mobility_agent/agents: the orchestrator, which arbitrates between the proposals of the agents.
pub mod Params
pub mod Proposals
pub mod Guardrail
pub mod Arbitrate
