-- ===== src/Checks/Status.antt =====
-- The derived status at concrete inputs.
use d_mobility.Prelude.{String, ◌≡◌, ◌==◌, not, ◌&&◌, all, is_empty, some, contains, [], ◌∷◌}
use d_mobility.Graph.Status.{StageStatus, raw_status_of, derive_compute_status}
use d_mobility.Graph.Status.Completed.{
  unfinished_statuses, stages_to_compute, derive_compute_status-completed,
}

abbrev stage_status : StageStatus
stage_status stage = "success"

derive_compute_status-completed_example :
    (derive_compute_status (some "aborted") ("x" ∷ []) stage_status == "completed") ≡ (
      not (contains (raw_status_of (some "aborted")) unfinished_statuses)
      && (not (is_empty {A = String} ("x" ∷ []))
          && all (λ c. not (stage_status c == "failed")) stages_to_compute))
derive_compute_status-completed_example =
    derive_compute_status-completed (some "aborted") ("x" ∷ []) stage_status
