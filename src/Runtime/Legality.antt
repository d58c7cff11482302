-- ===== src/Runtime/Legality.antt =====
-- mobility_agent/runtime/agent_tools.py: `check_legality_tool`, which says whether an action is
-- allowed on a state, and why not.
pub mod Types
pub mod Evidence
mod Parameters
pub mod Allowed
pub mod Retry
pub mod Rules
pub mod Fallback
pub mod Channels
pub mod Agreement
pub mod Refinement
unfoldable pub use Parameters.*
use d_mobility.Prelude.{
  ℕ, String, Bool, true, false, not, ◌&&◌, ◌||◌, List, [], ◌∷◌, ◌++◌, map, Option, none, some, ◌==◌,
  contains, is_empty, any, leb, eqb, filter_by, if◌then◌else◌,
}
use d_mobility.Graph.Stages.{stage_order, stage_name}
use d_mobility.Graph.Status.{terminal_run_statuses}
use d_mobility.Agents.Params.{Value, Params, get, truthy, is_channel_family}
use d_mobility.Runtime.Actions.{capability_dependencies}
use d_mobility.Runtime.Registry.{ActionSpec, get_action_spec, targeted_families, has_target}
use d_mobility.Runtime.Board.{
  Status, pending, active, completed, blocked, abandoned, Task, Board, column, all_tasks_resolved,
}
use d_mobility.Runtime.Sampling.{Numbers, Direction}
use d_mobility.Runtime.Legality.Types.{
  ExternalJob, Bounds, State, Request, Refusal, human_override_pending, external_wait_not_allowed,
  waiting_external_event, missing_target_capability, missing_target_channels,
  no_fresh_refinement_points, finalize_requires_all_tasks_resolved,
  cannot_finalize_while_waiting_external, unknown_action_family, terminal_run_status,
  unknown_target_capability, already_completed, already_active, external_job_already_pending,
  abandoned_target, completed_task_does_not_require_escalation, missing_required_evidence,
  missing_dependencies, retry_budget_exhausted, refinement_budget_exhausted, TaskStatus, no_target,
  unlisted, on, Verdict,
}
use d_mobility.Runtime.Legality.Evidence.{
  validation_report_supports_finalize, required_evidence_status, has_applied_points,
  refinement_plan, validation_requires_refinement,
}

-- `target or ""`
abbrev pub target_text : Option String → String
target_text none = ""
target_text (some t) = t

abbrev pub holds : Status → Board → String → Bool
holds status b capability = any (λ (t : Task). t.capability == capability) (column status b)

-- `_task_status_for_capability`
unfoldable pub task_status_for_capability : Board → String → TaskStatus
task_status_for_capability b capability =
    if capability == ""
    then no_target
    else if holds pending b capability
    then on pending
    else if holds active b capability
    then on active
    else if holds completed b capability
    then on completed
    else if holds blocked b capability
    then on blocked
    else if holds abandoned b capability
    then on abandoned
    else unlisted

abbrev pub is_on_active : TaskStatus → Bool
is_on_active (on active) = true
is_on_active _ = false

abbrev pub is_on_completed : TaskStatus → Bool
is_on_completed (on completed) = true
is_on_completed _ = false

abbrev pub is_on_abandoned : TaskStatus → Bool
is_on_abandoned (on abandoned) = true
is_on_abandoned _ = false

abbrev pub live_job_statuses : List String
live_job_statuses = "submitted" ∷ "running" ∷ "waiting" ∷ []

unfoldable pub has_live_job : List ExternalJob → String → Bool
has_live_job jobs target =
    any (λ (j : ExternalJob). j.target_capability == target && contains j.status live_job_statuses)
      jobs

-- `spec.fallback_actions[0]`, where there is one
abbrev pub first_fallback : ActionSpec → String
first_fallback spec = elim spec.fallback_actions [ [] ↦ "abort_material" | f ∷ fs ↦ f ]

abbrev pub stage_names : List String
stage_names = map stage_name stage_order

-- A guard of the check and the reason that it appends, and the reasons of those that hold.
abbrev pub Guard : Type 0
Guard = Bool × Refusal

unfoldable pub reasons_of : List Guard → List Refusal
reasons_of [] = []
reasons_of (g ∷ gs) = let rest = reasons_of gs in if g.0 then g.1 ∷ rest else rest

abbrev pub evidence_guards : List (String × Bool) → List Guard
evidence_guards statuses = map (λ e. (not e.1, missing_required_evidence e.0)) statuses

module _ (numbers : Numbers) (bounds : Bounds numbers) where
  -- The guards on the state of the run.
  unfoldable pub run_guards : State numbers → Request numbers → List Guard
  run_guards s q =
      (
        s.has_pending_human_payload
            && not s.has_latest_human_decision
            && not (q.action_family == "escalate_human"),
        human_override_pending,
      )
      ∷ (contains s.run_status terminal_run_statuses, terminal_run_status s.run_status)
      ∷ (
        (q.submit_external_job || q.wait_for_event_after_submission)
            && s.full_autonomy
            && not s.allow_external_wait,
        external_wait_not_allowed,
      )
      ∷ (
        s.run_status == "waiting_external"
            && eqb s.pending_events 0
            && not (contains q.action_family ("abort_material" ∷ "escalate_human" ∷ [])),
        waiting_external_event,
      )
      ∷ []

  -- The guards on the target and its task; the parameters are canonical.
  unfoldable pub target_guards : State numbers → String → String → Params → TaskStatus → List Guard
  target_guards s family target p status =
      let has_no_target = target == "" in
      let deps = capability_dependencies target in
      let missing = filter_by (λ d. not (holds completed s.task_board d)) deps in
      let is_run = family == "run_capability" in
      let is_retry = family == "retry_capability" in
      (contains family targeted_families && has_no_target, missing_target_capability)
      ∷ (
        is_channel_family family && not (truthy (get "target_channels" p)),
        missing_target_channels,
      )
      ∷ (not has_no_target && not (contains target stage_names), unknown_target_capability target)
      ∷ (
        (is_run || is_retry) && not has_no_target && not (is_empty missing),
        missing_dependencies missing,
      )
      ∷ (is_run && not has_no_target && is_on_completed status, already_completed target)
      ∷ ((is_run || is_retry) && not has_no_target && is_on_active status, already_active target)
      ∷ (
        not has_no_target
            && has_live_job s.external_jobs target
            && contains family targeted_families,
        external_job_already_pending target,
      )
      ∷ (
        is_retry && not has_no_target && leb s.retry_budget (s.retry_counts target),
        retry_budget_exhausted target (s.retry_counts target) s.retry_budget,
      )
      ∷ []

  -- The guards on a refinement, on the end of a run, and the last ones on the task.
  unfoldable pub family_guards :
      State numbers
      → String
      → String
      → Params
      → (Direction → List (Option numbers.N))
      → TaskStatus
      → List Guard
  family_guards s family target p suggested status =
      let is_refine = family == "refine_sampling" in
      let is_finalize = family == "finalize_material" in
      (
        is_refine && leb s.max_refinement_rounds s.refinement_rounds,
        refinement_budget_exhausted s.refinement_rounds s.max_refinement_rounds,
      )
      ∷ (
        is_refine
            && not
                (has_applied_points numbers bounds (refinement_plan numbers bounds s suggested p)),
        no_fresh_refinement_points,
      )
      ∷ (
        is_finalize
            && not (
                validation_report_supports_finalize s.validation_report
                  (s.stage_status "validation") s.latest_target s.latest_status)
            && not (all_tasks_resolved s.task_board),
        finalize_requires_all_tasks_resolved,
      )
      ∷ (is_finalize && s.run_status == "waiting_external", cannot_finalize_while_waiting_external)
      ∷ (
        (family == "run_capability" || family == "retry_capability") && is_on_abandoned status,
        abandoned_target target,
      )
      ∷ (
        family == "escalate_human" && is_on_completed status,
        completed_task_does_not_require_escalation target,
      )
      ∷ []

  abbrev pub guards_of : State numbers → Request numbers → List (String × Bool) → List Guard
  guards_of s q evidence =
      let target = target_text q.target_capability in
      let p = canonicalize_channel_action_parameters q.action_family q.parameters in
      let status = task_status_for_capability s.task_board target in
      run_guards s q
      ++ target_guards s q.action_family target p status
      ++ family_guards s q.action_family target p q.suggested_points status
      ++ evidence_guards evidence

  -- The warnings, which do not refuse.
  unfoldable pub warnings_of : State numbers → Request numbers → List String
  warnings_of s q =
      (if target_text q.target_capability == "validation"
          && contains q.action_family ("run_capability" ∷ "revalidate_result" ∷ [])
          && validation_requires_refinement numbers bounds s
        then "validation_has_available_refinement_followup" ∷ []
        else [])
      ++ (if q.action_family == "abort_material"
            && not (
                contains s.run_status
                  ("failed" ∷ "needs_recovery" ∷ "needs_human" ∷ "skipped" ∷ "aborted" ∷ []))
            && not (contains s.latest_status ("failed" ∷ "skipped" ∷ []))
          then "abort_without_terminal_failure" ∷ []
          else [])

  -- The result for a family that the registry does not hold.
  unfoldable pub unknown_family : State numbers → Request numbers → Verdict
  unknown_family s q = record {
    allowed = false;
    action_family = q.action_family;
    target_capability = q.target_capability;
    refusal_reasons = unknown_action_family q.action_family ∷ [];
    dependency_status = [];
    required_evidence_status = [];
    task_board_status = task_status_for_capability s.task_board (target_text q.target_capability);
    fallback_action = "abort_material";
    warnings = [];
  }

  -- The result, once the evidence is known.
  unfoldable pub checked :
      State numbers → Request numbers → ActionSpec → List (String × Bool) → Verdict
  checked s q spec evidence =
      let target = target_text q.target_capability in
      let reasons = reasons_of (guards_of s q evidence) in
      record {
        allowed = is_empty reasons;
        action_family = q.action_family;
        target_capability = q.target_capability;
        refusal_reasons = reasons;
        dependency_status =
            map (λ d. (d, holds completed s.task_board d)) (capability_dependencies target);
        required_evidence_status = evidence;
        task_board_status = task_status_for_capability s.task_board target;
        fallback_action = first_fallback spec;
        warnings = warnings_of s q;
      }

  unfoldable pub with_spec :
      State numbers → Request numbers → ActionSpec → Option (List (String × Bool)) → Option Verdict
  with_spec s q spec none = none
  with_spec s q spec (some evidence) = some (checked s q spec evidence)

  -- `none` where the evidence holds a number that cannot be read, on which the source raises.
  unfoldable pub check_legality_tool : State numbers → Request numbers → Option Verdict
  check_legality_tool s q = elim (get_action_spec q.action_family) [
    | none ↦ some (unknown_family s q)
    | some spec ↦
        with_spec s q spec (required_evidence_status numbers bounds s spec.required_evidence)
  ]

  -- Whether an action gets a result that allows it.
  unfoldable pub is_allowed : State numbers → Request numbers → Bool
  is_allowed s q = elim (check_legality_tool s q) [ none ↦ false | some v ↦ v.allowed ]
