-- ===== src/Runtime/Legality/Types.antt =====
-- mobility_agent/runtime/agent_tools.py: what `check_legality_tool` reads of the state and of its
-- payload, and its result. A missing text of the state is the empty text, as after `str(x or "")`.
use d_mobility.Prelude.{ℕ, String, Bool, List, Option}
use d_mobility.Agents.Params.{Value, Params}
use d_mobility.Graph.Status.{StageStatus}
use d_mobility.Runtime.Board.{Board, Status}
use d_mobility.Runtime.Sampling.{Numbers, Direction, Field, Fit}

pub record ExternalJob : Type 0 where
  pub job_id : String
  pub target_capability : String
  pub status : String

-- A value of the validation report, as `_payload_has_substance` tells them apart.
pub data Entry : Type 0 where
  null other : Entry
  text : String → Entry
  collection : ℕ → Entry

-- The numbers of the checks: zero, the bounds 0.90 of a fit and 0.75 of a confidence.
pub record Bounds (numbers : Numbers) : Type 0 where
  pub zero_number : numbers.N
  pub fit_bound : numbers.N
  pub confidence_bound : numbers.N

pub record State (numbers : Numbers) : Type 0 where
  pub task_board : Board
  pub run_status : String
  pub stage_status : StageStatus
  pub retry_counts : String → ℕ
  pub retry_budget : ℕ
  pub refinement_rounds : ℕ
  pub max_refinement_rounds : ℕ
  pub has_pending_human_payload : Bool
  pub has_latest_human_decision : Bool
  pub full_autonomy : Bool
  pub allow_external_wait : Bool
  pub pending_events : ℕ  -- how many there are
  pub external_jobs : List ExternalJob
  pub latest_target : String  -- of `latest_execution_observation`, as the next one
  pub latest_status : String
  pub last_error : String
  pub risk_flags : List String
  pub anomaly_flags : List String
  pub results : List String  -- the keys of the results
  pub rejected_channels : List String
  pub accepted_channels : Value
  pub validation_report : List (String × Entry)
  pub confidence_score : Field numbers.N
  pub has_fit_diagnostics : Bool
  pub effective_fit_quality : Field numbers.N
  pub fit : Fit numbers
  pub planned : Direction → List (Option numbers.N)

-- `LegalityCheckInput`; the suggested points of the parameters stand on their own.
pub record Request (numbers : Numbers) : Type 0 where
  pub action_family : String
  pub target_capability : Option String
  pub parameters : Params
  pub suggested_points : Direction → List (Option numbers.N)
  pub submit_external_job : Bool
  pub wait_for_event_after_submission : Bool

-- A refusal reason; the source formats them as texts.
pub data Refusal : Type 0 where
  human_override_pending external_wait_not_allowed waiting_external_event : Refusal
  missing_target_capability missing_target_channels no_fresh_refinement_points : Refusal
  finalize_requires_all_tasks_resolved cannot_finalize_while_waiting_external : Refusal
  unknown_action_family terminal_run_status unknown_target_capability : String → Refusal
  already_completed already_active external_job_already_pending abandoned_target : String → Refusal
  completed_task_does_not_require_escalation missing_required_evidence : String → Refusal
  missing_dependencies : List String → Refusal
  retry_budget_exhausted : String → ℕ → ℕ → Refusal
  refinement_budget_exhausted : ℕ → ℕ → Refusal

pub data TaskStatus : Type 0 where
  no_target unlisted : TaskStatus
  on : Status → TaskStatus

-- `LegalityCheckResult`
pub record Verdict : Type 0 where
  pub allowed : Bool
  pub action_family : String
  pub target_capability : Option String
  pub refusal_reasons : List Refusal
  pub dependency_status : List (String × Bool)
  pub required_evidence_status : List (String × Bool)
  pub task_board_status : TaskStatus
  pub fallback_action : String
  pub warnings : List String
