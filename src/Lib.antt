-- ===== src/Lib.antt =====
-- 2D mobility: a verified model of the decision core of mobility_agent/, the runtime that computes
-- carrier mobilities of two-dimensional materials with VASP under the control of several agents.
--
-- The parts, and how they interact. A material passes through the stages prepare, relax, scf, band,
-- effective_mass, strain_loop, mobility, validation and report. The runtime keeps a board of tasks,
-- one for each capability; in every round the agents make proposals, a guardrail drops the illegal
-- ones, and an arbitration turns the answer of a language model into the action to execute. The
-- relax stage retries by itself, under a budget that a checkpoint file keeps. Where that fails, a
-- person can fix input files, and resume rules decide from which stage to go on and what to clean.
-- A run that waits for an external job goes on with the event of the job. Many workers take their
-- materials from one queue, a MongoDB collection, and mark them there at the end.
--
-- The files:
--   Prelude, Prelude/*    shared names, Boolean tests, lists, the stable sort of `sorted`;
--                         `dedupe_keep_order` of mobility_agent/utils.py
--   Graph/Stages          mobility_agent/graph/stage_contracts.py: stages and stage contracts
--   Graph/Resume          the same file: `resolve_resume_contract`, `validate_resume_request`,
--                         `invalidated_stages_for` and the functions that they call
--   Graph/Cleanup         the same file: `build_cleanup_preview`
--   Graph/Merge           mobility_agent/graph/state.py: `deep_merge`
--   Graph/Status          mobility_agent/graph/state.py and termination.py: the derived status
--   Hitl/ManualFix        mobility_agent/hitl/manual_fix.py and resume_rules.py:
--                         `build_manual_fix_instruction`
--   Runtime/Actions       mobility_agent/graph/state.py: capabilities and their dependencies
--   Runtime/Registry      mobility_agent/runtime/action_registry.py: the families of actions
--   Runtime/Legality      mobility_agent/runtime/agent_tools.py: `check_legality_tool`, with the tests
--                         of graph/state.py and runtime/refinement_policy.py that it calls
--   Runtime/Queue         mobility_agent/runtime/mongo_batch.py: `claim_next_material`,
--                         `mark_completed`, `mark_failed`
--   Runtime/Controller    mobility_agent/runtime/agentic_controller.py: retry counts, plans, councils
--                         and the reason for a deliberation
--   Graph/Events          mobility_agent/graph/runtime_nodes.py and state.py:
--                         `_consume_pending_external_event`, `_derive_run_status`
--   Runtime/Board         mobility_agent/runtime/deliberation_loop.py: the board and its operations
--   Runtime/Sampling      mobility_agent/runtime/refinement_policy.py: the points of a refinement
--   Runtime/Validation    mobility_agent/runtime/validation_policy.py: channel reviews and report
--   Tools/VaspFailure     mobility_agent/tools/vasp_common.py: `classify_vasp_failure_text`
--   Tools/RelaxRetry      mobility_agent/tools/relax_retry.py: `run_relax_vasp_with_retry`
--   Agents/Params         mobility_agent/agents/orchestrator.py: `_canonicalize_action_parameters`
--   Agents/Proposals      the same file: the canonical form of proposals and selected actions, whose
--                         models are in mobility_agent/agents/schemas.py
--   Agents/Guardrail      the same file: `_guardrail_arbitration`
--   Agents/Arbitrate      the same file: `arbitrate`
-- The modules below these hold the proofs, named for what they prove; Checks/* holds the theorems
-- at concrete inputs.
--
-- How state and errors are modelled. An operation that changes a dictionary in place is a function
-- from the old value to the new one; the working directory of the relax stage is a record of the
-- checkpoint and the retry log. An exception is a value: `raised` of `Result` for the resume rules,
-- `fatal` and `contcar_not_found` of `Outcome` for the relax stage, and `none` for the arbitration,
-- which wraps every exception into one `RuntimeError`. A text that a table holds (a stage, a policy)
-- is a constructor; other texts are refused where the source refuses them, or are the constructor
-- `unlisted`. The call on an event gives nothing where the model of observations refuses the action
-- family of the event. The legality check gives nothing where `float` raises on a number of the diagnostics,
-- and its guards are a list of tests with the reasons that they append.
--
-- Bounds and fuel. The loop of the relax stage runs on the number of rounds of its `range`, that is
-- `max_retries + 1 - retry_n0`, and with the raise behind the loop once none is left. All other
-- loops are structural.
--
-- What is a parameter: the file system of the cleanup preview; what an attempt of VASP leaves
-- behind (exit code, convergence, logs, the backup that the promotion of CONTCAR makes); the
-- legality check (of the arbitration) and the call of the language model; the MongoDB collection,
-- with its documented operations `find_one_and_update` and `update_one`; the time; floating-point numbers, a type with a
-- strict order and an equality that agree with a rank (no NaN); the numbers of the sampling, with
-- their comparisons and midpoint; the marker by which lists are joined; the text of a task id.
--
-- What is not modelled: prompts, terminal and file dialogues, the process group and the tailing of
-- logs, database and HTTP services, the numerical fits, the retrieval of documents and the parsing
-- of the model's answers. Of an arbitration record, the disagreement summary, the content for
-- display and the confidence are left out.
mod Prelude
pub mod Graph
pub mod Hitl
pub mod Runtime
pub mod Tools
pub mod Agents
mod Checks
