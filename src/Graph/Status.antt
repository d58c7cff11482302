-- ===== src/Graph/Status.antt =====
-- mobility_agent/graph/state.py and termination.py: the status of a run that is derived from its
-- results and its stages.
pub mod Completed
use d_mobility.Prelude.{
  String, Bool, true, false, not, ◌&&◌, ◌||◌, List, [], ◌∷◌, Option, none, some, ◌==◌, contains,
  any, filter_by, is_empty, strip, or_text, if◌then◌else◌,
}
use d_mobility.Runtime.Actions.{capability_sequence}

-- `COMPUTE_CAPABILITIES`
abbrev pub compute_capabilities : List String
compute_capabilities = filter_by (λ c. not (c == "validation")) capability_sequence

abbrev pub terminal_run_statuses : List String
terminal_run_statuses = "completed" ∷ "failed" ∷ "aborted" ∷ "skipped" ∷ []

abbrev pub waiting_run_statuses : List String
waiting_run_statuses = "waiting_external" ∷ "needs_human" ∷ []

-- A stage status is looked up by its stage; a missing one is the empty text.
abbrev pub StageStatus : Type 0
StageStatus = String → String

unfoldable pub has_failed_compute_stage : StageStatus → Bool
has_failed_compute_stage stage_status = any (λ c. stage_status c == "failed") compute_capabilities

-- The results are given by the directions of `results_by_direction`.
unfoldable pub has_mobility_results : List String → Bool
has_mobility_results results = not (is_empty results)

unfoldable pub has_completed_compute : List String → StageStatus → Bool
has_completed_compute results stage_status =
    has_mobility_results results && not (has_failed_compute_stage stage_status)

-- `str(run_status or "").strip() or "pending"`
unfoldable pub raw_status_of : Option String → String
raw_status_of run_status =
    let text = strip (or_text run_status "") in if text == "" then "pending" else text

unfoldable pub derive_compute_status : Option String → List String → StageStatus → String
derive_compute_status run_status results stage_status =
    let raw_status = raw_status_of run_status in
    if "ready_to_finalize" == raw_status
    then "running"
    else if contains raw_status waiting_run_statuses
        || contains raw_status ("pending" ∷ "running" ∷ [])
    then raw_status
    else if has_completed_compute results stage_status
    then "completed"
    else if has_failed_compute_stage stage_status || contains raw_status ("failed" ∷ "aborted" ∷ [])
    then "failed"
    else if contains raw_status ("completed" ∷ "skipped" ∷ [])
    then "skipped"
    else raw_status

-- The entries of an outcome that the status is derived from.
pub record Outcome : Type 0 where
  pub status : Option String
  pub final_status : Option String
  pub results : List String
  pub stage_status : StageStatus

-- `derive_compute_status_from_outcome_payload`
unfoldable pub derive_compute_status_from_outcome : Outcome → String
derive_compute_status_from_outcome o =
    let explicit_status = strip (or_text o.status "") in
    let explicit_final_status = strip (or_text o.final_status "") in
    let derived =
      derive_compute_status
        (some (
          if explicit_final_status == ""
          then (if explicit_status == "" then "pending" else explicit_status)
          else explicit_final_status))
        o.results o.stage_status in
    if not (explicit_status == "") && explicit_final_status == ""
    then (if explicit_status == "ready_to_finalize"
        then "running"
        else if contains explicit_status waiting_run_statuses
            || contains explicit_status terminal_run_statuses
            || contains explicit_status ("pending" ∷ "running" ∷ [])
        then explicit_status
        else derived)
    else derived

-- `resolve_terminal_status`
unfoldable pub resolve_terminal_status :
    Option String → Option String → List String → Option String → String
resolve_terminal_status final_acceptance termination_reason errors current_status =
    let acceptance = or_text final_acceptance "" in
    let reason = or_text termination_reason "" in
    if or_text current_status "" == "skipped"
    then "skipped"
    else if contains reason ("abort_task" ∷ "abort_batch" ∷ [])
    then "failed"
    else if contains reason ("skip_material" ∷ "skip_point" ∷ [])
    then "skipped"
    else if contains acceptance ("pass" ∷ "accepted" ∷ [])
    then "completed"
    else if contains acceptance ("pass_with_warning" ∷ "accepted_with_warning" ∷ [])
    then "completed"
    else if contains acceptance ("fail" ∷ "rejected" ∷ [])
    then "failed"
    else if not (is_empty errors)
    then "failed"
    else "completed"
