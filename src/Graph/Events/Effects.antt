-- ===== src/Graph/Events/Effects.antt =====
-- What an event changes of the board, of the errors and of the status of the run.
use d_mobility.Prelude.{
  String, ◌≡◌, Option, some, refl, subst, ◌↔◌, Bool, true, false, not, ◌&&◌, ◌||◌, List, ◌==◌,
  contains, Bool-cases, inl, inr, arith, eq_iff, if◌then◌else◌, is_empty,
}
use d_mobility.Graph.Status.{terminal_run_statuses}
use d_mobility.Runtime.Board.{all_tasks_resolved, has_blocked_or_abandoned_tasks}
use d_mobility.Graph.Events.Types.{ExternalEvent, Diagnostic, RecoverySummary, Run}
use d_mobility.Graph.Events.{
  clear_resolved_error_state, should_clear, observed, checked_observation, event_observation,
  normalized_status, is_stale, take_event, append_diagnostic, apply_success, apply_event, target_of,
  consume, derive_run_status, or_string,
}
use d_mobility.Graph.Events.Progress.{IsAccepted}

module _ (label : String → String) (now : String) (event_marker : ExternalEvent → String)
    (diagnostic_marker : Diagnostic → String) where
  abbrev consumes : Run → ExternalEvent → List ExternalEvent → Option Run
  consumes = consume label now event_marker diagnostic_marker

  -- The stage that the recovery summary names.
  abbrev pub recovery_stage : RecoverySummary → String
  recovery_stage s = if s.stage == "" then s.current_stage else s.stage

  nothing_to_clear :
      (r : Run) (stage : String)
      → (r.latest_observation.status == "failed") ≡ false
      → (stage == "") ≡ false
      → (recovery_stage r.recovery_summary == stage) ≡ false
      → clear_resolved_error_state r stage ≡ r
  unfolding clear_resolved_error_state
  nothing_to_clear r stage a b c =
      let off : should_clear r stage ≡ false = unfold should_clear in ground (arith, a, b, c) in
      rw off refl

  -- An event of a success with a target and an accepted action family, which is no manual
  -- override, no resume request and not stale, is consumed; it leaves the last error and the
  -- errors as they are and sets the run to running, unless the recovery summary names its target;
  -- also where the observation before it was the failure of that target.
  pub success_event_keeps_errors :
      (r : Run) (e : ExternalEvent) (rest : List ExternalEvent)
      → is_stale e r.external_jobs ≡ false
      → IsAccepted e
      → (e.event_type == "manual_override") ≡ false
      → (e.event_type == "resume_requested") ≡ false
      → (normalized_status e == "failed") ≡ false
      → (target_of r e == "") ≡ false
      → (recovery_stage r.recovery_summary == target_of r e) ≡ false
      → (r' : Run) × (consumes r e rest ≡ some r')
        × (r'.last_error ≡ r.last_error)
        × (r'.errors ≡ r.errors)
        × (r'.run_status ≡ "running")
  unfolding consume observed append_diagnostic take_event checked_observation event_observation
      apply_event apply_success
  success_event_keeps_errors r e rest stale family manual resume ok named other =
      let taken = take_event label now event_marker diagnostic_marker r e rest in
      let target = target_of r e in
      let o = event_observation label now event_marker diagnostic_marker taken e target in
      (
        observed label now event_marker diagnostic_marker taken e target o,
        rw (stale, family) refl,
        rw (manual, resume, ok, nothing_to_clear _ target ok named other) refl,
        rw (manual, resume, ok, nothing_to_clear _ target ok named other) refl,
        rw (manual, resume, ok, nothing_to_clear _ target ok named other) refl,
      )

-- The tests of the derived status, for a current status that is not empty.
not_ready :
    (c : String) → contains c terminal_run_statuses ≡ true → (c == "ready_to_finalize") ≡ false
not_ready c h = elim (Bool-cases (c == "ready_to_finalize")) [
  | inl e ↦ absurd (
      cc (
        subst (λ (s : String). contains s terminal_run_statuses ≡ true)
          ((eq_iff c "ready_to_finalize").0 e) h))
  | inr e ↦ e
]

-- A resolved board has no blocked and no abandoned tasks.
recovering :
    (r : Run)
    → (r.latest_observation.status == "failed" || has_blocked_or_abandoned_tasks r.task_board)
      ≡ true
    → (r.latest_observation.status == "failed") ≡ false
    → all_tasks_resolved r.task_board ≡ true
    → ⊥
unfolding has_blocked_or_abandoned_tasks all_tasks_resolved
recovering r f a b = ground (arith, f, a, b)

-- The derived status is ready_to_finalize exactly where nobody is asked, the run has not ended and
-- does not wait, the latest observation is not a failure, and all tasks are resolved.
pub ready_to_finalize_iff :
    (r : Run) (asked decided : Bool)
    → (((derive_run_status r asked decided).0 == "ready_to_finalize") ≡ true) ↔ (
        ((asked && not decided) ≡ false)
        × (contains (or_string r.run_status "running") terminal_run_statuses ≡ false)
        × ((or_string r.run_status "running" == "waiting_external") ≡ false)
        × ((r.latest_observation.status == "failed") ≡ false)
        × (all_tasks_resolved r.task_board ≡ true))
unfolding derive_run_status
ready_to_finalize_iff r asked decided =
    let c = or_string r.run_status "running" in
    elim (Bool-cases (asked && not decided)) [
      | inl a ↦ (λ h. absurd (cc (rw a at h)), λ h. absurd (cc (a, h.0)))
      | inr a ↦ elim (Bool-cases (contains c terminal_run_statuses)) [
        | inl t ↦ (λ h. absurd (cc (rw (a, t) at h, not_ready c t)), λ h. absurd (cc (t, h.1)))
        | inr t ↦ elim (Bool-cases (c == "waiting_external")) [
          | inl w ↦ elim (Bool-cases (is_empty r.pending_events)) [
            | inl n ↦ (λ h. absurd (cc (rw (a, t, w, n) at h)), λ h. absurd (cc (w, h.2)))
            | inr n ↦ (λ h. absurd (cc (rw (a, t, w, n) at h)), λ h. absurd (cc (w, h.2)))
          ]
          | inr w ↦
              elim (Bool-cases (
                r.latest_observation.status == "failed"
                || has_blocked_or_abandoned_tasks r.task_board)) [
                  | inl f ↦ (
                    λ h. absurd (cc (rw (a, t, w, f) at h)),
                    λ h. absurd (recovering r f h.3 h.4),
                  )
                  | inr f ↦ elim (Bool-cases (all_tasks_resolved r.task_board)) [
                    | inl d ↦ (λ h. (a, t, w, ground (arith, f), d), λ h. rw (a, t, w, f, d) refl)
                    | inr d ↦
                        (λ h. absurd (cc (rw (a, t, w, f, d) at h)), λ h. absurd (cc (d, h.4)))
                  ]
                ]
        ]
      ]
    ]
