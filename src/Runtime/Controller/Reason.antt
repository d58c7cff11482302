-- ===== src/Runtime/Controller/Reason.antt =====
-- mobility_agent/runtime/agentic_controller.py: why the agents deliberate before the next action,
-- and when the plan goes on without them.
use d_mobility.Prelude.{
  ℕ, String, Bool, true, false, not, ◌&&◌, ◌||◌, List, [], ◌∷◌, Option, none, some, ◌==◌, contains,
  is_empty, eqb, if◌then◌else◌,
}
use d_mobility.Graph.Merge.{append_text}
use d_mobility.Runtime.Board.{Board, all_tasks_resolved}
use d_mobility.Runtime.Sampling.{Numbers, Field, absent, null, unreadable, number}
use d_mobility.Runtime.Legality.Types.{Bounds}
use d_mobility.Runtime.Legality.Evidence.{effective_fit}
use d_mobility.Runtime.Controller.Plan.{next_capability_after}

-- What the reason is read from; the checkpoint's reason is none where it is blank.
pub record View (numbers : Numbers) : Type 0 where
  pub planned_capabilities : Option (List String)  -- of the contract, if there is one
  pub pending_events : ℕ
  pub run_status : String
  pub needs_deliberation : Bool
  pub checkpoint_reason : Option String
  pub latest_status : String
  pub latest_target : String
  pub latest_risk_flags : List String
  pub current_stage : String
  pub fit_entry : Field numbers.N
  pub fit_r2_threshold : Field numbers.N  -- of the services
  pub anomaly_flags : List String
  pub completed_stages : List String
  pub task_board : Board

abbrev pub succeeded_statuses : List String
succeeded_statuses = "success" ∷ "completed" ∷ []

abbrev pub failure_target : String → String → String
failure_target target stage =
    if target == "" then (if stage == "" then "unknown" else stage) else target

abbrev pub first_of : Bool → Option String → Option String
first_of true (some r) = some r
first_of _ _ = none

module _ (numbers : Numbers) (bounds : Bounds numbers) where
  open numbers use {same, lt}
  open bounds use {zero_number, fit_bound}

  -- `float(services.get("fit_r2_threshold") or 0.90)`, or 0.90 where that raises
  unfoldable pub review_threshold : Field numbers.N → numbers.N
  review_threshold absent = fit_bound
  review_threshold null = fit_bound
  review_threshold unreadable = fit_bound
  review_threshold (number v) = if same v zero_number then fit_bound else v

  -- `_requires_post_mobility_quality_review`
  unfoldable pub requires_quality_review : View numbers → Bool
  unfolding review_threshold
  requires_quality_review s =
      if not (s.latest_target == "mobility")
      then false
      else if not (contains s.latest_status succeeded_statuses)
      then false
      else if not (is_empty s.latest_risk_flags)
      then true
      else lt (effective_fit numbers bounds s.fit_entry) (review_threshold s.fit_r2_threshold)

  -- The tests of `_deliberation_reason` behind the checkpoint.
  unfoldable pub progress_reason : View numbers → List String → Option String
  unfolding requires_quality_review
  progress_reason s planned =
      let succeeded = contains s.latest_status succeeded_statuses in
      if s.latest_status == "failed" || s.run_status == "needs_recovery"
      then some (append_text "failure:" (failure_target s.latest_target s.current_stage))
      else if requires_quality_review s
      then some "post_mobility_quality_review"
      else if not (is_empty s.anomaly_flags)
          && contains s.latest_target ("strain_loop" ∷ "mobility" ∷ "validation" ∷ [])
      then some (append_text "anomaly:" s.latest_target)
      else if s.latest_target == "validation" && succeeded
      then some "validation_followup"
      else if s.latest_target == "strain_loop" && succeeded
      then some "milestone:strain_loop"
      else (elim (next_capability_after s.completed_stages planned) [
        | none ↦ some "contract_completed"
        | some c ↦
            if all_tasks_resolved s.task_board || s.run_status == "ready_to_finalize"
            then some "contract_completed"
            else none
      ])

  -- `_deliberation_reason`
  unfoldable pub deliberation_reason : View numbers → Option String
  unfolding progress_reason
  deliberation_reason s = elim s.planned_capabilities [
    | none ↦ some "initial_plan"
    | some planned ↦
        if not (eqb s.pending_events 0)
        then some "resume_event"
        else if contains s.run_status ("waiting_external" ∷ "needs_human" ∷ [])
        then none
        else (elim (first_of s.needs_deliberation s.checkpoint_reason) [
          | some r ↦ some r
          | none ↦ progress_reason s planned
        ])
  ]
