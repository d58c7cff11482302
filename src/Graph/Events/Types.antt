-- ===== src/Graph/Events/Types.antt =====
-- mobility_agent/graph/state.py: an external event, and the parts of the state that it changes.
use d_mobility.Prelude.{ℕ, String, Bool, List, [], ◌∷◌, Option}
use d_mobility.Agents.Params.{Params}
use d_mobility.Runtime.Board.{Board}

-- `ExternalEventRecord`; `result_summary` and the two flags are only carried along, and the
-- summary by its text.
pub record ExternalEvent : Type 0 where
  pub event_id : String
  pub event_type : String
  pub thread_id : Option String
  pub run_id : Option String
  pub job_id : Option String
  pub target_capability : Option String
  pub action_family : Option String
  pub timestamp : String
  pub payload : Params
  pub result_summary : String
  pub error_summary : Option String
  pub artifact_paths : List (String × String)
  pub provenance : String
  pub status : Option String

-- An entry of `execution.external_jobs`.
pub record Job : Type 0 where
  pub job_id : String
  pub status : String
  pub last_event_id : Option String
  pub last_event : Option ExternalEvent
  pub updated_at : String

-- `execution.latest_execution_observation`, without its constant confidence and agent name.
pub record Observation : Type 0 where
  pub round_id : ℕ
  pub target_task_id : String
  pub action_family : String
  pub target_capability : Option String
  pub status : String
  pub error_summary : Option String
  pub artifact_paths : List (String × String)
  pub result_summary : String
  pub external_event : Option ExternalEvent
  pub current_stage : String

-- An entry of `diagnostics.recovery_history`, and `diagnostics.recovery_summary`.
pub record Recovery : Type 0 where
  pub action : String
  pub target_stage : String
  pub reason : String

pub record RecoverySummary : Type 0 where
  pub stage : String
  pub current_stage : String

-- `ActionFamily` of mobility_agent/agents/schemas.py
abbrev pub action_families : List String
action_families =
    "run_capability" ∷ "retry_capability" ∷ "rerun_from_capability" ∷ "repair_execution_context"
    ∷ "refine_sampling" ∷ "revalidate_result" ∷ "invalidate_channel" ∷ "skip_channel"
    ∷ "escalate_human" ∷ "finalize_material" ∷ "abort_material" ∷ []

pub data Code : Type 0 where
  stale_ignored consumed : Code

-- An entry of `services.framework_diagnostics`.
pub record Diagnostic : Type 0 where
  pub code : Code
  pub event : ExternalEvent
  pub timestamp : String

-- The entries of the state that the events change, and those that they read.
pub record Run : Type 0 where
  pub thread_id : String
  pub task_id : String
  pub round_index : ℕ
  pub pending_events : List ExternalEvent
  pub latest_event : Option ExternalEvent
  pub event_history : List ExternalEvent
  pub consumed_event_ids : List String
  pub external_jobs : List Job
  pub awaiting_capability : String  -- of `resume_markers`
  pub latest_observation : Observation
  pub task_board : Board
  pub run_status : String
  pub wait_reason : Option String
  pub termination_reason : Option String
  pub current_stage : String
  pub next_action : String
  pub termination_requested : Bool
  pub latest_human_decision : Params
  pub last_error : Option String
  pub errors : List String
  pub recovery_summary : RecoverySummary
  pub recovery_history : List Recovery
  pub framework_diagnostics : List Diagnostic
