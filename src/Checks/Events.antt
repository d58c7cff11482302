-- ===== src/Checks/Events.antt =====
-- External events at concrete inputs.
use d_mobility.Prelude.{
  strip, String, ◌≡◌, refl, true, false, [], ◌∷◌, none, some, ◌==◌, contains, All, ◌↔◌,
}
use d_mobility.Graph.Status.{terminal_run_statuses}
use d_mobility.Runtime.Board.{all_tasks_resolved}
use d_mobility.Graph.Events.Types.{ExternalEvent, Diagnostic, Run}
use d_mobility.Graph.Events.{
  consume, checked_observation, take_event, normalize_record, stripped_fields, with_id, stripped,
  is_stale, derive_run_status, or_string,
}
use d_mobility.Graph.Events.Progress.{id_of, consume_all, every_event_is_consumed}
use d_mobility.Graph.Events.Effects.{success_event_keeps_errors, ready_to_finalize_iff}
use d_mobility.Checks.Board.{label, b2}

abbrev done : ExternalEvent
done = record {
  event_id = "ev1";
  event_type = "job_completed";
  thread_id = none;
  run_id = none;
  job_id = some "j1";
  target_capability = some "relax";
  action_family = none;
  timestamp = "";
  payload = [];
  result_summary = "";
  error_summary = none;
  artifact_paths = [];
  provenance = "external";
  status = none;
}

abbrev unknown_job : ExternalEvent
unknown_job = record done { event_id = "ev2"; job_id = some "j2" }

abbrev run : Run
run = record {
  thread_id = "t";
  task_id = "m";
  round_index = 1;
  pending_events = done ∷ unknown_job ∷ [];
  latest_event = none;
  event_history = [];
  consumed_event_ids = "ev0" ∷ [];
  external_jobs =
      record {
        job_id = "j1";
        status = "running";
        last_event_id = none;
        last_event = none;
        updated_at = "";
      }
      ∷ [];
  awaiting_capability = "relax";
  latest_observation = record {
    round_id = 0;
    target_task_id = "m";
    action_family = "run_capability";
    target_capability = some "relax";
    status = "failed";
    error_summary = some "not converged";
    artifact_paths = [];
    result_summary = "";
    external_event = none;
    current_stage = "relax";
  };
  task_board = b2;
  run_status = "waiting_external";
  wait_reason = some "external_job_pending";
  termination_reason = none;
  current_stage = "relax";
  next_action = "relax";
  termination_requested = false;
  latest_human_decision = [];
  last_error = some "not converged";
  errors = "not converged" ∷ [];
  recovery_summary = record { stage = ""; current_stage = "" };
  recovery_history = [];
  framework_diagnostics = [];
}

abbrev event_marker : ExternalEvent → String
event_marker e = e.event_id

abbrev diagnostic_marker : Diagnostic → String
diagnostic_marker d = d.event.event_id

every_event_is_consumed_example :
    (r' : Run) × (consume_all label "now" event_marker diagnostic_marker 2 run ≡ some r')
    × (r'.pending_events ≡ [])
    × ((k : String) → contains k ("ev0" ∷ []) ≡ true → contains k r'.consumed_event_ids ≡ true)
    × All (λ raw. contains (id_of raw) r'.consumed_event_ids ≡ true) (done ∷ unknown_job ∷ [])
unfolding normalize_record stripped_fields with_id stripped strip
every_event_is_consumed_example =
    every_event_is_consumed label "now" event_marker diagnostic_marker run (refl, (refl, tt))

success_event_keeps_errors_example :
    (r' : Run) × (consume label "now" event_marker diagnostic_marker run done [] ≡ some r')
    × (r'.last_error ≡ some "not converged")
    × (r'.errors ≡ "not converged" ∷ [])
    × (r'.run_status ≡ "running")
unfolding is_stale
success_event_keeps_errors_example =
    success_event_keeps_errors label "now" event_marker diagnostic_marker run done [] refl refl refl
      refl refl refl refl

-- An event of an unknown action family makes the call raise.
unknown_family_raises :
    consume label "now" event_marker diagnostic_marker run
      (record done { action_family = some "restart" })
      []
    ≡ none
unfolding consume is_stale checked_observation take_event
unknown_family_raises = refl

ready_to_finalize_iff_example :
    (((derive_run_status run false false).0 == "ready_to_finalize") ≡ true) ↔ (
      (false ≡ false)
      × (contains (or_string "waiting_external" "running") terminal_run_statuses ≡ false)
      × ((or_string "waiting_external" "running" == "waiting_external") ≡ false)
      × (("failed" == "failed") ≡ false)
      × (all_tasks_resolved b2 ≡ true))
ready_to_finalize_iff_example = ready_to_finalize_iff run false false
