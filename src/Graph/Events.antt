-- ===== src/Graph/Events.antt =====
-- mobility_agent/graph/runtime_nodes.py and state.py: the external events, which end the wait for
-- a job or carry a decision of the user. A text of the state that may be missing is an `Option`
-- where the code keeps it, and the empty text after `str(x or "")`.
pub mod Types
mod Normalize
mod Reading
pub mod Progress
pub mod Effects
unfoldable pub use Normalize.*
unfoldable pub use Reading.*
use d_mobility.Prelude.{
  ℕ, String, Bool, true, false, not, ◌&&◌, ◌||◌, List, [], ◌∷◌, ◌++◌, map, Option, none, some, ◌==◌,
  contains, is_empty, any, filter_by, strip, or_text, dedupe_texts, dedupe_keep_order,
  if◌then◌else◌,
}
use d_mobility.Agents.Params.{Value, Params, get}
use d_mobility.Graph.Merge.{append_text}
use d_mobility.Graph.Status.{terminal_run_statuses}
use d_mobility.Runtime.Actions.{capability_sequence}
use d_mobility.Runtime.Board.{
  mark_task_blocked, mark_task_completed, reset_from_capability, all_tasks_resolved,
  has_blocked_or_abandoned_tasks,
}
use d_mobility.Graph.Events.Types.{
  ExternalEvent, Job, Observation, Recovery, Code, Diagnostic, stale_ignored, consumed, Run,
  action_families,
}

-- The time is the argument `now`, and `event_marker` and `diagnostic_marker` are what
-- `dedupe_keep_order` compares.
module _ (label : String → String) (now : String) (event_marker : ExternalEvent → String)
    (diagnostic_marker : Diagnostic → String) where
  unfoldable pub update_job : ExternalEvent → Job → Job
  update_job e j =
      if is_job (or_text e.job_id "") j
      then record j {
        status = status_of e;
        last_event_id = some e.event_id;
        last_event = some e;
        updated_at = now;
      }
      else j

  -- `_append_framework_diagnostic`
  unfoldable pub append_diagnostic : Code → ExternalEvent → Run → Run
  append_diagnostic code e r =
      let entry : Diagnostic = record { code = code; event = e; timestamp = now } in
      record r {
        framework_diagnostics =
            dedupe_keep_order (λ a b. diagnostic_marker a == diagnostic_marker b)
              (r.framework_diagnostics ++ entry ∷ []);
      }

  -- `_apply_resume_strategy`
  unfoldable pub apply_resume_strategy : Run → String → String → Run
  apply_resume_strategy r capability reason =
      let entry : Recovery = record {
        action = "resume";
        target_stage = capability;
        reason = reason;
      } in
      record r {
        task_board = reset_from_capability label r.task_board capability;
        current_stage = capability;
        next_action = capability;
        recovery_history = dedupe_keep_order same_recovery (r.recovery_history ++ entry ∷ []);
      }

  -- The event leaves the queue, enters the history and changes its job.
  unfoldable pub take_event : Run → ExternalEvent → List ExternalEvent → Run
  unfolding update_job
  take_event r e rest = record r {
    pending_events = rest;
    latest_event = some e;
    event_history =
        dedupe_keep_order (λ a b. event_marker a == event_marker b) (r.event_history ++ e ∷ []);
    consumed_event_ids =
        if e.event_id == ""
        then r.consumed_event_ids
        else dedupe_texts (r.consumed_event_ids ++ e.event_id ∷ []);
    external_jobs = map (update_job e) r.external_jobs;
  }

  -- `_build_execution_observation` of an event; the run is the one before the wait reason and the
  -- markers are cleared, of which it reads neither.
  unfoldable pub event_observation : Run → ExternalEvent → String → Observation
  event_observation r e target = record {
    round_id = r.round_index;
    target_task_id = r.task_id;
    action_family = family_of e;
    target_capability = or_nothing target;
    status = normalized_status e;
    error_summary = or_nothing (or_text e.error_summary "");
    artifact_paths = filter_by (λ (p : String × String). not (p.1 == "")) e.artifact_paths;
    result_summary = e.result_summary;
    external_event = some e;
    current_stage = r.current_stage;
  }

  -- `none` where the model of observations refuses the family of the event, and so raises.
  unfoldable pub checked_observation : Run → ExternalEvent → String → Option Observation
  unfolding event_observation
  checked_observation r e target =
      if contains (family_of e) action_families then some (event_observation r e target) else none

  -- The resume of a manual override, at the stage that it names or at its target.
  unfoldable pub resume_manually : Run → ExternalEvent → String → Run
  unfolding apply_resume_strategy
  resume_manually r e target =
      let resume_stage = or_string (value_text (get "resume_stage" e.payload)) target in
      if is_capability resume_stage
      then apply_resume_strategy r resume_stage "manual_override"
      else r

  unfoldable pub apply_manual : Run → ExternalEvent → String → Run
  unfolding manual_action resume_manually
  apply_manual r e target =
      let decided = record r { latest_human_decision = e.payload } in
      let action = manual_action e.payload in
      if action == "skip_material"
      then record decided {
        termination_requested = true;
        run_status = "skipped";
        termination_reason = some "manual_override:skip_material";
      }
      else if action == "abort_task"
      then record decided {
        termination_requested = true;
        run_status = "aborted";
        termination_reason = some "manual_override:abort_task";
      }
      else record (resume_manually decided e target) { run_status = "running" }

  unfoldable pub apply_failure : Run → ExternalEvent → String → Run
  apply_failure r e target = record r {
    task_board =
        if is_capability target
        then mark_task_blocked label r.task_board target (error_of e)
        else r.task_board;
    run_status = "needs_recovery";
    last_error = some (error_of e);
  }

  unfoldable pub apply_success : Run → ExternalEvent → String → Run
  apply_success r e target =
      clear_resolved_error_state
        (record r {
          task_board =
              if is_capability target
              then mark_task_completed label r.task_board target
              else r.task_board;
          run_status = "running";
        })
        target

  -- The four cases of the type and the status of an event.
  unfoldable pub apply_event : Run → ExternalEvent → String → Run
  unfolding apply_manual apply_failure apply_success
  apply_event r e target =
      if e.event_type == "manual_override"
      then apply_manual r e target
      else if e.event_type == "resume_requested"
      then record r { run_status = "running" }
      else if normalized_status e == "failed"
      then apply_failure r e target
      else apply_success r e target

  -- The run once the observation is written.
  unfoldable pub observed : Run → ExternalEvent → String → Observation → Run
  unfolding apply_event append_diagnostic
  observed taken e target o =
      let noted = record taken {
        wait_reason = none;
        awaiting_capability = "";
        latest_observation = o;
      } in
      append_diagnostic consumed e (apply_event noted e target)

  -- The run after a stale event.
  unfoldable pub ignored : Run → ExternalEvent → Run
  unfolding append_diagnostic
  ignored taken e =
      append_diagnostic stale_ignored e (record taken { run_status = "waiting_external" })

  -- `_consume_pending_external_event`, for a normalized event; `none` where it raises.
  unfoldable pub consume : Run → ExternalEvent → List ExternalEvent → Option Run
  unfolding take_event checked_observation append_diagnostic observed ignored is_stale
  consume r e rest =
      let target = target_of r e in
      let taken = take_event r e rest in
      if is_stale e r.external_jobs
      then some (ignored taken e)
      else elim (checked_observation taken e target) [
        | none ↦ none
        | some o ↦ some (observed taken e target o)
      ]

  unfoldable pub consume_pending_external_event : Run → Option Run
  unfolding consume
  consume_pending_external_event r = elim r.pending_events [
    | [] ↦ some r
    | raw ∷ rest ↦ consume r (normalize_external_event r.thread_id r.task_id raw) rest
  ]

-- `_derive_run_status`, with whether a human is asked; the wait reason is the second component.
unfoldable pub derive_run_status : Run → Bool → Bool → String × Option String
derive_run_status r has_pending_human_payload has_latest_human_decision =
    let current_status = or_string r.run_status "running" in
    let reason = or_text r.wait_reason "" in
    if has_pending_human_payload && not has_latest_human_decision
    then ("needs_human", some "awaiting_human_decision")
    else if contains current_status terminal_run_statuses
    then (current_status, or_nothing reason)
    else if current_status == "waiting_external"
    then (if is_empty r.pending_events
        then ("waiting_external", some (or_string reason "external_job_pending"))
        else ("running", none))
    else if r.latest_observation.status == "failed" || has_blocked_or_abandoned_tasks r.task_board
    then ("needs_recovery", none)
    else if all_tasks_resolved r.task_board
    then ("ready_to_finalize", none)
    else ("running", none)
