-- ===== src/Graph/Events/Normalize.antt =====
-- mobility_agent/graph/state.py: the normal form of an external event.
use d_mobility.Prelude.{
  String, not, Option, none, some, ◌==◌, filter_by, strip, or_text, if◌then◌else◌,
}
use d_mobility.Graph.Merge.{append_text}
use d_mobility.Graph.Events.Types.{ExternalEvent}

-- `str(text or "").strip() or None`
unfoldable pub stripped : Option String → Option String
stripped text = let t = strip (or_text text "") in if t == "" then none else some t

abbrev pub or_else : Option String → String → String
or_else none other = other
or_else (some t) other = t

-- The identifier that the model makes for an event without one.
unfoldable pub made_id : ExternalEvent → String
made_id e = append_text (or_else e.thread_id "unknown-thread") (
    append_text "::" (
      append_text e.event_type (
        append_text "::" (
          append_text (or_else e.job_id (or_else e.target_capability "no-target"))
            (append_text "::" (if e.timestamp == "" then "no-timestamp" else e.timestamp))))))

-- The fields, as `ExternalEventRecord._normalize` leaves them.
unfoldable pub stripped_fields : ExternalEvent → ExternalEvent
unfolding stripped
stripped_fields raw =
    let event_type = strip raw.event_type in
    let provenance = strip raw.provenance in
    record raw {
      event_type = if event_type == "" then "resume_requested" else event_type;
      thread_id = stripped raw.thread_id;
      run_id = stripped raw.run_id;
      job_id = stripped raw.job_id;
      target_capability = stripped raw.target_capability;
      action_family = stripped raw.action_family;
      provenance = if provenance == "" then "external" else provenance;
      artifact_paths = filter_by (λ (p : String × String). not (p.1 == "")) raw.artifact_paths;
      status = stripped raw.status;
    }

unfoldable pub with_id : ExternalEvent → ExternalEvent
unfolding made_id
with_id e = if e.event_id == "" then record e { event_id = made_id e } else e

-- `ExternalEventRecord._normalize`, on an event whose `event_type` is there
unfoldable pub normalize_record : ExternalEvent → ExternalEvent
unfolding stripped_fields with_id
normalize_record raw = with_id (stripped_fields raw)

abbrev with_default : Option String → String → Option String
with_default (some t) default = some t
with_default none default = if default == "" then none else some default

-- `normalize_external_event`, which validates once: a validated event has an identifier.
unfoldable pub normalize_external_event : String → String → ExternalEvent → ExternalEvent
unfolding normalize_record
normalize_external_event thread run raw =
    let e = normalize_record raw in
    record e { thread_id = with_default e.thread_id thread; run_id = with_default e.run_id run }
