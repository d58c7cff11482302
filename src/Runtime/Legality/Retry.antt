-- ===== src/Runtime/Legality/Retry.antt =====
-- When the check allows a retry.
use d_mobility.Prelude.{
  ◌<◌, String, ◌≡◌, refl, sym, ◌∙◌, ◌↔◌, Bool, true, List, [], ◌∷◌, Option, ◌==◌, is_empty, arith,
}
use d_mobility.Agents.Params.{Params}
use d_mobility.Runtime.Actions.{capability_dependencies}
use d_mobility.Runtime.Board.{completed}
use d_mobility.Runtime.Sampling.{Numbers, Direction}
use d_mobility.Runtime.Legality.Types.{Bounds, State, Request}
use d_mobility.Runtime.Registry.{get_action_spec}
use d_mobility.Runtime.Legality.Evidence.{required_evidence_status}
use d_mobility.Runtime.Legality.{
  with_spec, checked, reasons_of, check_legality_tool, is_allowed, run_guards, target_guards,
  family_guards, holds, task_status_for_capability, guards_of,
}
use d_mobility.Runtime.Legality.Allowed.{
  reasons_of-AllOff, AllOff-reasons_of, request_of, IsOpen, is_retriable, no_missing, none_missing,
  named,
}

module _ (numbers : Numbers) (bounds : Bounds numbers) (s : State numbers) (t : String) (p : Params)
    (suggested : Direction → List (Option numbers.N)) (submits waits : Bool) where
  abbrev retries : Request numbers
  retries = request_of numbers "retry_capability" t p suggested submits waits

  abbrev retry_evidence : List (String × Bool)
  retry_evidence = ("latest_failure", s.latest_status == "failed") ∷ []

  retry-guards_of :
      is_allowed numbers bounds s retries
      ≡ is_empty (reasons_of (guards_of numbers bounds s retries retry_evidence))
  unfolding is_allowed check_legality_tool get_action_spec required_evidence_status with_spec
      checked
  retry-guards_of = refl

  abbrev IsRetry : Type 0
  IsRetry =
      IsOpen numbers s t submits waits
      × (is_retriable s.task_board t ≡ true)
      × (s.retry_counts t < s.retry_budget)
      × ((s.latest_status == "failed") ≡ true)

  retry-IsOpen : is_allowed numbers bounds s retries ≡ true → IsRetry
  unfolding run_guards target_guards family_guards task_status_for_capability
  retry-IsOpen h =
      let g =
        reasons_of-AllOff (guards_of numbers bounds s retries retry_evidence)
          (sym retry-guards_of ∙ h) in
      (
        record {
          decided = ground (arith, g.0);
          unfinished = g.1.0;
          may_wait = ground (arith, g.1.1.0);
          has_event = ground (arith, g.1.1.1.0);
          known = ground (arith, g.1.1.1.1.0, g.1.1.1.1.1.1.0);
          ready =
              no_missing (λ d. holds completed s.task_board d) (capability_dependencies t)
                (ground (arith, g.1.1.1.1.0, g.1.1.1.1.1.1.1.0));
          free = ground (arith, g.1.1.1.1.0, g.1.1.1.1.1.1.1.1.1.1.0);
        },
        ground (arith, g.1.1.1.1.0, g.1.1.1.1.1.1.1.1.1.0, g.1.1.1.1.1.1.1.1.1.1.1.1.1.1.1.1.0),
        ground (arith, g.1.1.1.1.0, g.1.1.1.1.1.1.1.1.1.1.1.0),
        ground (arith, g.1.1.1.1.1.1.1.1.1.1.1.1.1.1.1.1.1.1.0),
      )

  IsOpen-retry : IsRetry → is_allowed numbers bounds s retries ≡ true
  unfolding run_guards target_guards family_guards task_status_for_capability
  IsOpen-retry (o, h, w, l) =
      let e = named t o.known in
      let m =
        none_missing (λ d. holds completed s.task_board d) (capability_dependencies t) o.ready in
      let q0 = o.decided in
      let q2 = o.may_wait in
      let q3 = o.has_event in
      let q10 = o.free in
      let k = o.known in
      retry-guards_of
      ∙ AllOff-reasons_of (guards_of numbers bounds s retries retry_evidence) (
        ground (arith, q0),
        (
          o.unfinished,
          (
            ground (arith, q2),
            (
              ground (arith, q3),
              (
                ground (arith, e),
                (
                  refl,
                  (
                    ground (arith, e, k),
                    (
                      ground (arith, e, m),
                      (
                        refl,
                        (
                          ground (arith, e, h),
                          (
                            ground (arith, q10),
                            (
                              ground (arith, e, w),
                              (
                                refl,
                                (
                                  refl,
                                  (
                                    refl,
                                    (refl, (ground (arith, e, h), (refl, (ground (arith, l), tt)))),
                                  ),
                                ),
                              ),
                            ),
                          ),
                        ),
                      ),
                    ),
                  ),
                ),
              ),
            ),
          ),
        ),
      )

-- The check allows a retry of a capability exactly where the run and the capability are open to it
-- as for a run, the first task of the capability is not an active or an abandoned one, its retries
-- are below the budget, and the latest observation is a failure.
pub retry_allowed_iff :
    (numbers : Numbers) (bounds : Bounds numbers) (s : State numbers) (t : String) (p : Params)
    (suggested : Direction → List (Option numbers.N)) (submits waits : Bool)
    → (is_allowed numbers bounds s
          (request_of numbers "retry_capability" t p suggested submits waits)
        ≡ true)
      ↔ (IsOpen numbers s t submits waits
          × (is_retriable s.task_board t ≡ true)
          × (s.retry_counts t < s.retry_budget)
          × ((s.latest_status == "failed") ≡ true))
retry_allowed_iff numbers bounds s t p suggested submits waits = (
  retry-IsOpen numbers bounds s t p suggested submits waits,
  IsOpen-retry numbers bounds s t p suggested submits waits,
)
