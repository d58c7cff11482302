-- ===== src/Graph/Events/Progress.antt =====
-- Each call consumes one event, and the events that wait are all consumed.
use Prim.Native.Char.{Char}
use d_mobility.Prelude.{
  ℕ, zero, suc, String, ◌≡◌, Option, none, some, refl, ap, ◌∙◌, Bool, true, false, List, [], ◌∷◌,
  ◌++◌, ◌==◌, contains, length, Bool-cases, inl, inr, dedupe_texts, dedupe_texts-contains, All,
  arith, any-append, eq_refl, eq_iff,
}
use d_mobility.Graph.Merge.{append_text}
use d_mobility.Graph.Events.Types.{action_families, ExternalEvent, Diagnostic, Job, Run}
use d_mobility.Graph.Events.{
  normalize_external_event, normalize_record, stripped_fields, with_id, made_id, or_else,
  clear_resolved_error_state, observed, ignored, event_observation, checked_observation, target_of,
  family_of, manual_action, resume_manually, apply_manual, apply_resume_strategy, apply_failure,
  apply_success, apply_event, append_diagnostic, is_stale, take_event, consume,
  consume_pending_external_event,
}

-- What the queue keeps of a run.
abbrev pub Queue : Type 0
Queue = List ExternalEvent × List String × List Job × String × String

abbrev pub queue : Run → Queue
queue r = (r.pending_events, r.consumed_event_ids, r.external_jobs, r.thread_id, r.task_id)

-- The model of the observation accepts the family of the event.
abbrev pub IsAccepted : ExternalEvent → Type 0
IsAccepted e = contains (family_of e) action_families ≡ true

queue-clear : (r : Run) (stage : String) → queue (clear_resolved_error_state r stage) ≡ queue r
unfolding clear_resolved_error_state
queue-clear r stage = ground arith

module _ (label : String → String) (now : String) (event_marker : ExternalEvent → String)
    (diagnostic_marker : Diagnostic → String) where
  abbrev applied : Run → ExternalEvent → String → Run
  applied = apply_event label now event_marker diagnostic_marker

  queue-resume_manually :
      (r : Run) (e : ExternalEvent) (target : String)
      → queue (resume_manually label now event_marker diagnostic_marker r e target) ≡ queue r
  unfolding resume_manually apply_resume_strategy
  queue-resume_manually r e target = ground arith

  queue-apply_manual :
      (r : Run) (e : ExternalEvent) (target : String)
      → queue (apply_manual label now event_marker diagnostic_marker r e target) ≡ queue r
  unfolding apply_manual
  queue-apply_manual r e target = elim (Bool-cases (manual_action e.payload == "skip_material")) [
    | inl skip ↦ rw skip refl
    | inr other ↦ elim (Bool-cases (manual_action e.payload == "abort_task")) [
      | inl abort ↦ rw (other, abort) refl
      | inr resume ↦ rw (other, resume) (queue-resume_manually _ e target)
    ]
  ]

  queue-apply_success :
      (r : Run) (e : ExternalEvent) (target : String)
      → queue (apply_success label now event_marker diagnostic_marker r e target) ≡ queue r
  unfolding apply_success
  queue-apply_success r e target = queue-clear _ target

  queue-apply_failure :
      (r : Run) (e : ExternalEvent) (target : String)
      → queue (apply_failure label now event_marker diagnostic_marker r e target) ≡ queue r
  unfolding apply_failure
  queue-apply_failure r e target = refl

  queue-apply_event :
      (r : Run) (e : ExternalEvent) (target : String) → queue (applied r e target) ≡ queue r
  unfolding apply_event
  queue-apply_event r e target = ground (
    arith,
    queue-apply_manual r e target,
    queue-apply_success r e target,
    queue-apply_failure r e target,
  )

  abbrev consumes : Run → ExternalEvent → List ExternalEvent → Option Run
  consumes = consume label now event_marker diagnostic_marker

  queue-consume :
      (r : Run) (e : ExternalEvent) (rest : List ExternalEvent)
      → IsAccepted e
      → (r' : Run) × (consumes r e rest ≡ some r')
        × (queue r' ≡ queue (take_event label now event_marker diagnostic_marker r e rest))
  unfolding consume append_diagnostic observed ignored checked_observation
  queue-consume r e rest ok = elim (Bool-cases (is_stale e r.external_jobs)) [
    | inl stale ↦ (
      ignored label now event_marker diagnostic_marker
          (take_event label now event_marker diagnostic_marker r e rest) e,
      rw stale refl,
      refl,
    )
    | inr live ↦
        let taken = take_event label now event_marker diagnostic_marker r e rest in
        let target = target_of r e in
        let o = event_observation label now event_marker diagnostic_marker taken e target in
        (
          observed label now event_marker diagnostic_marker taken e target o,
          rw (live, ok) refl,
          queue-apply_event _ e target,
        )
  ]

-- The identifier of an event of the queue, once it is normalized, is not empty.
abbrev pub id_of : ExternalEvent → String
id_of raw = (normalize_record raw).event_id

is_nil : String → Bool
is_nil String.[] = true
is_nil (String.◌∷◌ c s) = false

cons-empty : (c : Char) (s : String) → (String.◌∷◌ c s == "") ≡ false
unfolding is_nil
cons-empty c s = elim (Bool-cases (String.◌∷◌ c s == "")) [
  | inl e ↦ absurd (cc (ap is_nil ((eq_iff (String.◌∷◌ c s) "").0 e)))
  | inr e ↦ e
]

append_text-empty : (a b : String) → (b == "") ≡ false → (append_text a b == "") ≡ false
append_text-empty String.[] b h = h
append_text-empty (String.◌∷◌ c a) b h = cons-empty c (append_text a b)

made_id-empty : (e : ExternalEvent) → (made_id e == "") ≡ false
unfolding made_id
made_id-empty e = append_text-empty (or_else e.thread_id "unknown-thread") _ (cons-empty _ _)

with_id-empty : (e : ExternalEvent) → ((with_id e).event_id == "") ≡ false
unfolding with_id
with_id-empty e = elim (Bool-cases (e.event_id == "")) [
  | inl none_given ↦ rw none_given (made_id-empty e)
  | inr given ↦ rw given given
]

id_of-empty : (raw : ExternalEvent) → (id_of raw == "") ≡ false
unfolding normalize_record
id_of-empty raw = with_id-empty (stripped_fields raw)

contains-snoc : (k : String) (xs : List String) → contains k (xs ++ k ∷ []) ≡ true
contains-snoc k xs = rw (any-append (λ x. x == k) xs (k ∷ [])) (ground (arith, eq_refl k))

contains-append :
    (k : String) (xs ys : List String) → contains k xs ≡ true → contains k (xs ++ ys) ≡ true
contains-append k xs ys h = rw (any-append (λ x. x == k) xs ys) (ground (arith, h))

module _ (label : String → String) (now : String) (event_marker : ExternalEvent → String)
    (diagnostic_marker : Diagnostic → String) where
  abbrev step : Run → Option Run
  step = consume_pending_external_event label now event_marker diagnostic_marker

  abbrev ids_after : Run → ExternalEvent → List String
  ids_after r raw = dedupe_texts (r.consumed_event_ids ++ id_of raw ∷ [])

  -- A call consumes the first event.
  step-cons :
      (r : Run) (raw : ExternalEvent) (rest : List ExternalEvent)
      → r.pending_events ≡ raw ∷ rest
      → step r
        ≡ consume label now event_marker diagnostic_marker r
            (normalize_external_event r.thread_id r.task_id raw)
            rest
  unfolding consume_pending_external_event
  step-cons r raw rest h =
      ap
        (λ (es : List ExternalEvent). elim es [
          | [] ↦ some r
          | raw' ∷ rest' ↦
              consume label now event_marker diagnostic_marker r
                (normalize_external_event r.thread_id r.task_id raw') rest'
        ])
        h

  step-queue :
      (r : Run) (raw : ExternalEvent) (rest : List ExternalEvent)
      → r.pending_events ≡ raw ∷ rest
      → IsAccepted (normalize_record raw)
      → (r' : Run) × (step r ≡ some r')
        × (r'.pending_events ≡ rest)
        × (r'.consumed_event_ids ≡ ids_after r raw)
  unfolding take_event normalize_external_event
  step-queue r raw rest h ok =
      let e = normalize_external_event r.thread_id r.task_id raw in
      let (r', s, q) = queue-consume label now event_marker diagnostic_marker r e rest ok in
      (
        r',
        step-cons r raw rest h ∙ s,
        ap (λ (v : Queue). v.0) q,
        ap (λ (v : Queue). v.1) q ∙ (rw (id_of-empty raw) refl),
      )

  -- The events are consumed one after the other, until a call raises.
  unfoldable pub consume_all : ℕ → Run → Option Run
  consume_all zero r = some r
  consume_all (suc n) r = elim (step r) [ none ↦ none | some r' ↦ consume_all n r' ]

  -- What is left of a run of calls on events that are accepted.
  abbrev IsConsumed : List String → List ExternalEvent → Option Run → Type 0
  IsConsumed before es o =
      (r' : Run) × (o ≡ some r')
      × (r'.pending_events ≡ [])
      × ((k : String) → contains k before ≡ true → contains k r'.consumed_event_ids ≡ true)
      × All (λ raw. contains (id_of raw) r'.consumed_event_ids ≡ true) es

  consume_all_lem :
      (es : List ExternalEvent) (r : Run)
      → r.pending_events ≡ es
      → All (λ raw. IsAccepted (normalize_record raw)) es
      → IsConsumed r.consumed_event_ids es (consume_all (length es) r)
  unfolding consume_all
  consume_all_lem [] r h ok = (r, refl, h, λ k c. c, tt)
  consume_all_lem (raw ∷ rest) r h ok =
      let (r1, s, left, ids) = step-queue r raw rest h ok.0 in
      let (r2, done, empty, kept, others) = consume_all_lem rest r1 left ok.1 in
      let older = λ (k : String) (c : contains k r.consumed_event_ids ≡ true).
        kept k (rw ids (dedupe_texts-contains k _ (contains-append k r.consumed_event_ids _ c))) in
      let here : contains (id_of raw) r1.consumed_event_ids ≡ true =
        rw ids
          (dedupe_texts-contains (id_of raw) _ (contains-snoc (id_of raw) r.consumed_event_ids)) in
      let later = λ (o : Option Run). elim o as (λ _. Option Run) [
        | none ↦ none
        | some r' ↦ consume_all (length rest) r'
      ] in
      (r2, ap later s ∙ done, empty, older, (kept (id_of raw) here, others))

  -- Where the model of observations accepts the action family of each event that waits, as many
  -- calls as events wait raise nothing, and after them no event waits any more, and the identifier
  -- of each of the events is among the consumed ones, with those consumed before.
  pub every_event_is_consumed :
      (r : Run)
      → All (λ raw. IsAccepted (normalize_record raw)) r.pending_events
      → (r' : Run) × (consume_all (length r.pending_events) r ≡ some r')
        × (r'.pending_events ≡ [])
        × ((k : String)
            → contains k r.consumed_event_ids ≡ true
            → contains k r'.consumed_event_ids ≡ true)
        × All (λ raw. contains (id_of raw) r'.consumed_event_ids ≡ true) r.pending_events
  every_event_is_consumed r ok = consume_all_lem r.pending_events r refl ok
