-- ===== src/Runtime/Legality/Rules.antt =====
-- How the check fits the task board, the registry of actions and the refinement policy.
use d_mobility.Prelude.{
  String, ◌≡◌, refl, subst, true, false, not, ◌&&◌, List, [], ◌∷◌, Option, some, ◌==◌, contains,
  all, any, arith,
}
use d_mobility.Graph.Status.{terminal_run_statuses}
use d_mobility.Agents.Params.{Params}
use d_mobility.Runtime.Actions.{capability_sequence, capability_dependencies}
use d_mobility.Runtime.Board.{
  completed, Task, Board, next_pending_task, done_capabilities, build_initial_task_board,
}
use d_mobility.Runtime.Board.Next.{first_ready_lem}
use d_mobility.Runtime.Board.Known.{IsKnown, Reach, Reach-HasKnownTasks}
use d_mobility.Runtime.Sampling.{Numbers, Direction}
use d_mobility.Runtime.Legality.Types.{Bounds, State}
use d_mobility.Runtime.Legality.{is_allowed, holds, has_live_job, stage_names}
use d_mobility.Runtime.Legality.Allowed.{request_of, run_allowed_iff}

-- A completed capability is held by the column of the completed tasks.
holds_done :
    (d : String) (ts : List Task)
    → contains d (done_capabilities ts) ≡ true
    → any (λ (t : Task). t.capability == d) ts ≡ true
holds_done d [] h = h
holds_done d (t ∷ ts) h = ground (arith, h, holds_done d ts)

all_hold :
    (ds : List String) (b : Board)
    → all (λ d. contains d (done_capabilities b.completed_tasks)) ds ≡ true
    → all (λ d. holds completed b d) ds ≡ true
all_hold [] b h = refl
all_hold (d ∷ ds) b h = ground (arith, h, holds_done d b.completed_tasks, all_hold ds b)

sequence-stage_names :
    (t : String) → contains t capability_sequence ≡ true → contains t stage_names ≡ true
sequence-stage_names t h = ground (arith, h)

-- A run that goes on: nobody is asked, the run has not ended, and it does not wait for an event.
pub record IsGoing (numbers : Numbers) (s : State numbers) : Type 0 where
  pub nobody_asked : (s.has_pending_human_payload && not s.has_latest_human_decision) ≡ false
  pub unfinished : contains s.run_status terminal_run_statuses ≡ false
  pub no_wait : (s.run_status == "waiting_external") ≡ false

-- On a board that any starts, completions, blocks, abandonments and resets reach from the initial
-- one, where only capabilities of the sequence are completed, the check allows the run of the next
-- pending task by a request that neither submits an external job nor waits for an event; where
-- nobody is asked, the run has not ended and does not wait, and no external job of the capability
-- is live.
pub next_task_allowed :
    (numbers : Numbers) (bounds : Bounds numbers) (label : String → String) (s : State numbers)
    (t : Task) (p : Params) (suggested : Direction → List (Option numbers.N))
    → Reach label (build_initial_task_board label) s.task_board
    → next_pending_task s.task_board ≡ some t
    → IsGoing numbers s
    → has_live_job s.external_jobs t.capability ≡ false
    → is_allowed numbers bounds s
        (request_of numbers "run_capability" t.capability p suggested false false)
      ≡ true
unfolding next_pending_task
next_task_allowed numbers bounds label s t p suggested r h v free =
    let b = s.task_board in
    let done = done_capabilities b.completed_tasks in
    let known = (Reach-HasKnownTasks r).pending_known in
    let (ready, (listed, tab), has) = first_ready_lem IsKnown done b.pending_tasks t known h in
    let deps = subst (λ (ds : List String). all (λ d. contains d done) ds ≡ true) tab ready in
    let no_wait = v.no_wait in
    (run_allowed_iff numbers bounds s t.capability p suggested false false).1 (
      record {
        decided = v.nobody_asked;
        unfinished = v.unfinished;
        may_wait = refl;
        has_event = ground (arith, no_wait);
        known = sequence-stage_names t.capability listed;
        ready = all_hold (capability_dependencies t.capability) b deps;
        free = free;
      },
      ground (arith, has),
    )
