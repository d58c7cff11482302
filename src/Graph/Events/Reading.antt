-- ===== src/Graph/Events/Reading.antt =====
-- mobility_agent/graph/runtime_nodes.py and state.py: what the code reads off an event, and the
-- errors that are cleared with the stage that they belong to.
use d_mobility.Prelude.{
  String, Bool, not, ◌&&◌, ◌||◌, List, [], ◌∷◌, Option, none, some, ◌==◌, contains, is_empty, any,
  or_text, if◌then◌else◌,
}
use d_mobility.Agents.Params.{Value, Params, get}
use d_mobility.Runtime.Actions.{capability_sequence}
use d_mobility.Graph.Events.Types.{ExternalEvent, Job, Recovery, Run}

-- `clear_resolved_error_state`, for the stage that is resolved (none where it is empty).
unfoldable pub should_clear : Run → String → Bool
should_clear r stage =
    let recovery_stage =
      if r.recovery_summary.stage == ""
      then r.recovery_summary.current_stage
      else r.recovery_summary.stage in
    let o = r.latest_observation in
    let has_errors = not (or_text r.last_error "" == "") || not (is_empty r.errors) in
    has_errors
    && (stage == ""
        || recovery_stage == stage
        || (o.status == "failed" && or_text o.target_capability "" == stage))

unfoldable pub clear_resolved_error_state : Run → String → Run
unfolding should_clear
clear_resolved_error_state r stage =
    let recovery_stage =
      if r.recovery_summary.stage == ""
      then r.recovery_summary.current_stage
      else r.recovery_summary.stage in
    let cleared = record r { last_error = none; errors = [] } in
    let no_summary = record cleared {
      recovery_summary = record { stage = ""; current_stage = "" };
    } in
    if should_clear r stage
    then (if stage == "" || recovery_stage == stage then no_summary else cleared)
    else r

-- `event_status in {...}`
abbrev pub success_statuses : List String
success_statuses =
    "completed" ∷ "success" ∷ "job_completed" ∷ "resume_requested" ∷ "manual_override" ∷ []

abbrev pub job_event_types : List String
job_event_types = "job_completed" ∷ "job_failed" ∷ "job_timeout" ∷ "artifact_missing" ∷ []

-- `str(event.get("status") or event_type or "completed")`
abbrev pub status_of : ExternalEvent → String
status_of e = or_text e.status e.event_type

abbrev pub normalized_status : ExternalEvent → String
normalized_status e = if contains (status_of e) success_statuses then "success" else "failed"

abbrev pub is_job : String → Job → Bool
is_job job_id j = not (job_id == "") && j.job_id == job_id

-- The event of a job that the run does not know.
unfoldable pub is_stale : ExternalEvent → List Job → Bool
is_stale e jobs =
    let job_id = or_text e.job_id "" in
    not (job_id == "") && contains e.event_type job_event_types && not (any (is_job job_id) jobs)

-- The text of a value; that of a list is none of the names it is compared with.
abbrev pub value_text : Value → String
value_text Value.null = ""
value_text (Value.text t) = t
value_text (Value.items xs) = "["

abbrev pub or_string : String → String → String
or_string a b = if a == "" then b else a

-- `payload.get("action") or payload.get("decision") or "continue"`
unfoldable pub manual_action : Params → String
manual_action payload =
    or_string (value_text (get "action" payload))
      (or_string (value_text (get "decision" payload)) "continue")

abbrev pub same_recovery : Recovery → Recovery → Bool
same_recovery a b = a.action == b.action && a.target_stage == b.target_stage && a.reason == b.reason

-- The family of an event, for its observation.
abbrev pub family_of : ExternalEvent → String
family_of e = or_text e.action_family "run_capability"

-- The target of an event, and the text of its failure.
abbrev pub target_of : Run → ExternalEvent → String
target_of r e = or_string (or_text e.target_capability "") r.awaiting_capability

abbrev pub error_of : ExternalEvent → String
error_of e = or_text e.error_summary (status_of e)

abbrev pub or_nothing : String → Option String
or_nothing t = if t == "" then none else some t

-- `target and target in capability_sequence()`
abbrev pub is_capability : String → Bool
is_capability target = not (target == "") && contains target capability_sequence
