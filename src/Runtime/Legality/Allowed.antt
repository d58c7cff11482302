-- ===== src/Runtime/Legality/Allowed.antt =====
-- An action is allowed where every guard of the check is off; what that says of runs.
use d_mobility.Prelude.{
  String, ◌≡◌, refl, sym, subst, ◌∙◌, ◌↔◌, Bool, true, false, not, ◌&&◌, ◌||◌, List, [], ◌∷◌,
  Option, some, ◌==◌, contains, is_empty, all, eqb, filter_by, Bool-cases, inl, inr, All, eq_iff,
  arith,
}
use d_mobility.Graph.Status.{terminal_run_statuses}
use d_mobility.Agents.Params.{Params}
use d_mobility.Runtime.Actions.{capability_dependencies}
use d_mobility.Runtime.Board.{pending, active, completed, blocked, abandoned, Board}
use d_mobility.Runtime.Sampling.{Numbers, Direction}
use d_mobility.Runtime.Legality.Types.{Bounds, State, Request}
use d_mobility.Runtime.Registry.{get_action_spec}
use d_mobility.Runtime.Legality.Evidence.{required_evidence_status}
use d_mobility.Runtime.Legality.{
  with_spec, checked, Guard, reasons_of, check_legality_tool, is_allowed, run_guards, target_guards,
  family_guards, holds, has_live_job, task_status_for_capability, stage_names, guards_of,
}

abbrev pub AllOff : List Guard → Type 0
AllOff gs = All (λ (g : Guard). g.0 ≡ false) gs

pub reasons_of-AllOff : (gs : List Guard) → is_empty (reasons_of gs) ≡ true → AllOff gs
unfolding reasons_of
reasons_of-AllOff [] h = tt
reasons_of-AllOff (g ∷ gs) h = elim (Bool-cases g.0) [
  | inl e ↦ absurd (cc (rw e at h))
  | inr e ↦ (e, reasons_of-AllOff gs (rw e at h))
]

pub AllOff-reasons_of : (gs : List Guard) → AllOff gs → is_empty (reasons_of gs) ≡ true
unfolding reasons_of
AllOff-reasons_of [] h = refl
AllOff-reasons_of (g ∷ gs) h = rw h.0 (AllOff-reasons_of gs h.1)

-- A request for the target, with its two flags last: whether it submits an external job, and
-- whether it waits for an event after that.
abbrev pub request_of :
    (numbers : Numbers)
    → String
    → String
    → Params
    → (Direction → List (Option numbers.N))
    → Bool
    → Bool
    → Request numbers
request_of numbers family target p suggested submits waits = record {
  action_family = family;
  target_capability = some target;
  parameters = p;
  suggested_points = suggested;
  submit_external_job = submits;
  wait_for_event_after_submission = waits;
}

-- What runs and retries of a target have to meet.
pub record IsOpen (numbers : Numbers) (s : State numbers) (target : String) (submits waits : Bool)
    : Type 0 where
  pub decided : (s.has_pending_human_payload && not s.has_latest_human_decision) ≡ false
  pub unfinished : contains s.run_status terminal_run_statuses ≡ false
  pub may_wait : ((submits || waits) && s.full_autonomy && not s.allow_external_wait) ≡ false
  pub has_event : (s.run_status == "waiting_external" && eqb s.pending_events 0) ≡ false
  pub known : contains target stage_names ≡ true
  pub ready : all (λ d. holds completed s.task_board d) (capability_dependencies target) ≡ true
  pub free : has_live_job s.external_jobs target ≡ false

-- The first task of the target, in the order of the columns, is one that may be run or retried.
abbrev pub is_startable : Board → String → Bool
is_startable b t =
    holds pending b t
    || (not (holds active b t)
        && not (holds completed b t)
        && (holds blocked b t || not (holds abandoned b t)))

abbrev pub is_retriable : Board → String → Bool
is_retriable b t =
    holds pending b t
    || (not (holds active b t)
        && (holds completed b t || holds blocked b t || not (holds abandoned b t)))

pub no_missing :
    {A : Type 0} (p : A → Bool) (xs : List A)
    → not (is_empty (filter_by (λ x. not (p x)) xs)) ≡ false
    → all p xs ≡ true
no_missing p [] h = refl
no_missing p (x ∷ xs) h = ground (arith, h, no_missing p xs)

pub none_missing :
    {A : Type 0} (p : A → Bool) (xs : List A)
    → all p xs ≡ true
    → not (is_empty (filter_by (λ x. not (p x)) xs)) ≡ false
none_missing p [] h = refl
none_missing p (x ∷ xs) h = ground (arith, h, none_missing p xs)

-- A name of a stage is not empty.
pub named : (t : String) → contains t stage_names ≡ true → (t == "") ≡ false
named t h = elim (Bool-cases (t == "")) [
  | inl e ↦
      absurd (cc (subst (λ (u : String). contains u stage_names ≡ true) ((eq_iff t "").0 e) h))
  | inr e ↦ e
]

module _ (numbers : Numbers) (bounds : Bounds numbers) (s : State numbers) (t : String) (p : Params)
    (suggested : Direction → List (Option numbers.N)) (submits waits : Bool) where
  abbrev runs : Request numbers
  runs = request_of numbers "run_capability" t p suggested submits waits

  run-guards_of :
      is_allowed numbers bounds s runs ≡ is_empty (reasons_of (guards_of numbers bounds s runs []))
  unfolding is_allowed check_legality_tool get_action_spec required_evidence_status with_spec
      checked
  run-guards_of = refl

  run-IsOpen :
      is_allowed numbers bounds s runs ≡ true
      → IsOpen numbers s t submits waits × (is_startable s.task_board t ≡ true)
  unfolding run_guards target_guards family_guards task_status_for_capability
  run-IsOpen h =
      let g = reasons_of-AllOff (guards_of numbers bounds s runs []) (sym run-guards_of ∙ h) in
      (
        record {
          decided = ground (arith, g.0);
          unfinished = g.1.0;
          may_wait = ground (arith, g.1.1.0);
          has_event = ground (arith, g.1.1.1.0);
          known = ground (arith, g.1.1.1.1.0, g.1.1.1.1.1.1.0);
          ready =
              no_missing (λ d. holds completed s.task_board d) (capability_dependencies t)
                (ground (arith, g.1.1.1.1.0, g.1.1.1.1.1.1.1.0));
          free = ground (arith, g.1.1.1.1.0, g.1.1.1.1.1.1.1.1.1.1.0);
        },
        ground (
          arith, g.1.1.1.1.0, g.1.1.1.1.1.1.1.1.0, g.1.1.1.1.1.1.1.1.1.0,
          g.1.1.1.1.1.1.1.1.1.1.1.1.1.1.1.1.0,
        ),
      )

  IsOpen-run :
      IsOpen numbers s t submits waits
      → is_startable s.task_board t ≡ true
      → is_allowed numbers bounds s runs ≡ true
  unfolding run_guards target_guards family_guards task_status_for_capability
  IsOpen-run o h =
      let e = named t o.known in
      let m =
        none_missing (λ d. holds completed s.task_board d) (capability_dependencies t) o.ready in
      let q0 = o.decided in
      let q2 = o.may_wait in
      let q3 = o.has_event in
      let q10 = o.free in
      let k = o.known in
      run-guards_of
      ∙ AllOff-reasons_of (guards_of numbers bounds s runs []) (
        ground (arith, q0),
        (
          o.unfinished,
          (
            ground (arith, q2),
            (
              ground (arith, q3),
              (
                ground (arith, e),
                (
                  refl,
                  (
                    ground (arith, e, k),
                    (
                      ground (arith, e, m),
                      (
                        ground (arith, e, h),
                        (
                          ground (arith, e, h),
                          (
                            ground (arith, q10),
                            (
                              refl,
                              (refl, (refl, (refl, (refl, (ground (arith, e, h), (refl, tt)))))),
                            ),
                          ),
                        ),
                      ),
                    ),
                  ),
                ),
              ),
            ),
          ),
        ),
      )

-- The check allows the run of a capability exactly where the run and the capability are open to
-- it, and the first task of the capability is not an active, a completed or an abandoned one. They
-- are open where no human decision is awaited, the run has not ended, a request that submits a job
-- or waits for an event may do so, a run that waits has an event, the capability is a stage whose
-- dependencies are completed, and no external job of it is live.
pub run_allowed_iff :
    (numbers : Numbers) (bounds : Bounds numbers) (s : State numbers) (t : String) (p : Params)
    (suggested : Direction → List (Option numbers.N)) (submits waits : Bool)
    → (is_allowed numbers bounds s (request_of numbers "run_capability" t p suggested submits waits)
        ≡ true)
      ↔ (IsOpen numbers s t submits waits × (is_startable s.task_board t ≡ true))
run_allowed_iff numbers bounds s t p suggested submits waits = (
  run-IsOpen numbers bounds s t p suggested submits waits,
  λ (o, h). IsOpen-run numbers bounds s t p suggested submits waits o h,
)
