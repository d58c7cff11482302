-- ===== src/Runtime/Board/Order.antt =====
-- The tasks are worked in the order of their dependencies, also over resets.
use d_mobility.Prelude.{
  String, ◌≡◌, refl, sym, subst, Bool, true, List, [], ◌∷◌, ◌++◌, some, all, contains, filter_by,
  index_text, Bool-cases, inl, inr, All, All-append, All-mono,
}
use d_mobility.Runtime.Actions.{capability_sequence, capability_dependencies}
use d_mobility.Runtime.Board.{
  Status, completed, active, Task, Board, take_task, moved, keeps, mark_task_started,
  mark_task_completed, mark_task_blocked, mark_task_abandoned, reset_from_capability, reset_at,
  move_task, done_capabilities, next_pending_task, build_initial_task_board,
}
use d_mobility.Runtime.Board.Moves.{has_task}
use d_mobility.Runtime.Board.Next.{
  IsReady, IsReady-append, IsTabled, first_ready_lem, take_task-rest, take_task-some,
}
use d_mobility.Runtime.Board.Kept.{keeps-IsReady}
use d_mobility.Runtime.Board.Known.{
  IsKnown, HasKnownTasks, initial-HasKnownTasks, start-HasKnownTasks, complete-HasKnownTasks,
  block-HasKnownTasks, abandon-HasKnownTasks, moved-IsTabled, moved-capability, All-filter_by,
  reset-HasKnownTasks,
}

-- All that a capability depends on is completed.
abbrev pub is_open : Board → String → Bool
is_open b c =
    all (λ d. contains d (done_capabilities b.completed_tasks)) (capability_dependencies c)

-- The steps in which nothing is started or completed too early: the next pending task, or another
-- capability with completed dependencies, is started; a capability is completed that is active or
-- has completed dependencies; any target is blocked or abandoned, or the board is reset, also
-- right after the start of any capability of the sequence.
pub data OrderedStep (label : String → String) (b : Board) : Board → Type 0 where
  start_next :
      (t : Task)
      → next_pending_task b ≡ some t
      → OrderedStep label b (mark_task_started label b t.capability)
  start_open : (c : String) → is_open b c ≡ true → OrderedStep label b (mark_task_started label b c)
  complete_active :
      (c : String)
      → contains c capability_sequence ≡ true
      → has_task c b.active_tasks ≡ true
      → OrderedStep label b (mark_task_completed label b c)
  complete_open :
      (c : String)
      → contains c capability_sequence ≡ true
      → is_open b c ≡ true
      → OrderedStep label b (mark_task_completed label b c)
  block : (c reason : String) → OrderedStep label b (mark_task_blocked label b c reason)
  abandon : (c reason : String) → OrderedStep label b (mark_task_abandoned label b c reason)
  reset : (c : String) → OrderedStep label b (reset_from_capability label b c)
  start_reset :
      (c : String)
      → contains c capability_sequence ≡ true
      → OrderedStep label b (reset_from_capability label (mark_task_started label b c) c)

pub data OrderedReach (label : String → String) (b : Board) : Board → Type 0 where
  here : OrderedReach label b b
  next : {c d : Board} → OrderedReach label b c → OrderedStep label c d → OrderedReach label b d

record IsOrdered (b : Board) : Type 0 where
  known : HasKnownTasks b
  active_ready : All (IsReady (done_capabilities b.completed_tasks)) b.active_tasks
  completed_ready : All (IsReady (done_capabilities b.completed_tasks)) b.completed_tasks

All-both : (P Q : Task → Type 0) (ts : List Task) → All P ts → All Q ts → All (λ t. P t × Q t) ts
All-both P Q [] h k = tt
All-both P Q (t ∷ ts) h k = ((h.0, k.0), All-both P Q ts h.1 k.1)

-- A task that the table knows is ready where its capability is open.
IsTabled-IsReady :
    (b : Board) (t : Task)
    → IsTabled t
    → is_open b t.capability ≡ true
    → IsReady (done_capabilities b.completed_tasks) t
IsTabled-IsReady b t e k =
    subst
      (λ (ds : List String). all (λ d. contains d (done_capabilities b.completed_tasks)) ds ≡ true)
      (sym e) k

-- The task of an open capability that a move makes is ready.
moved-IsReady :
    (label : String → String) (b : Board) (c : String) (s : Status) (ts : List Task)
    → All IsTabled ts
    → is_open b c ≡ true
    → IsReady (done_capabilities b.completed_tasks) (moved label c s (take_task c ts).0)
moved-IsReady label b c s ts h k =
    IsTabled-IsReady b (moved label c s (take_task c ts).0) (moved-IsTabled label c s ts h)
      (subst (λ (x : String). is_open b x ≡ true) (sym (moved-capability label c s ts)) k)

module _ (label : String → String) (b : Board) (v : IsOrdered b) where
  abbrev done : List String
  done = done_capabilities b.completed_tasks

  abbrev pending_tabled : All IsTabled b.pending_tasks
  pending_tabled = All-mono IsKnown IsTabled b.pending_tasks (λ t k. k.1) v.known.pending_known

  start-IsOrdered : (c : String) → is_open b c ≡ true → IsOrdered (mark_task_started label b c)
  unfolding mark_task_started move_task
  start-IsOrdered c k = record {
    known = unfold mark_task_started move_task in start-HasKnownTasks label b v.known c;
    active_ready =
        All-append (IsReady done) b.active_tasks _ v.active_ready
          (moved-IsReady label b c active b.pending_tasks pending_tabled k, tt);
    completed_ready = v.completed_ready;
  }

  -- The next pending task is of an open capability.
  next-is_open : (t : Task) → next_pending_task b ≡ some t → is_open b t.capability ≡ true
  unfolding next_pending_task
  next-is_open t h =
      let (ready, tabled, _) = first_ready_lem IsTabled done b.pending_tasks t pending_tabled h in
      subst (λ (ds : List String). all (λ d. contains d done) ds ≡ true) tabled ready

  -- A ready task that is completed leaves the completed ones ready, and the active ones.
  completed-IsOrdered :
      (b' : Board) (t : Task)
      → b'.completed_tasks ≡ b.completed_tasks ++ t ∷ []
      → HasKnownTasks b'
      → All (IsReady done) b'.active_tasks
      → IsReady done t
      → IsOrdered b'
  completed-IsOrdered b' t e w a r =
      let after = done_capabilities (b.completed_tasks ++ t ∷ []) in
      let kept = λ (x : Task) (q : IsReady done x). IsReady-append b.completed_tasks (t ∷ []) x q in
      record {
        known = w;
        active_ready = rw e (All-mono (IsReady done) (IsReady after) b'.active_tasks kept a);
        completed_ready = rw e (
            All-append (IsReady after) b.completed_tasks _
              (All-mono (IsReady done) (IsReady after) b.completed_tasks kept v.completed_ready)
              (kept t r, tt));
      }

  complete_active-IsOrdered :
      (c : String)
      → contains c capability_sequence ≡ true
      → has_task c b.active_tasks ≡ true
      → IsOrdered (mark_task_completed label b c)
  complete_active-IsOrdered c l h =
      let w = complete-HasKnownTasks label b v.known c l in
      let (u, e, q, r) = take_task-some (IsReady done) c b.active_tasks v.active_ready h in
      completed-IsOrdered (mark_task_completed label b c)
        (moved label c completed (take_task c b.active_tasks).0)
        (unfold mark_task_completed move_task in rw h refl) w
        (unfold mark_task_completed move_task in
          rw h (take_task-rest (IsReady done) c b.active_tasks v.active_ready))
        (unfold moved in rw e r)

  complete_open-IsOrdered :
      (c : String)
      → contains c capability_sequence ≡ true
      → is_open b c ≡ true
      → IsOrdered (mark_task_completed label b c)
  complete_open-IsOrdered c l k = elim (Bool-cases (has_task c b.active_tasks)) [
    | inl h ↦ complete_active-IsOrdered c l h
    | inr h ↦
        completed-IsOrdered (mark_task_completed label b c)
          (moved label c completed (take_task c b.pending_tasks).0)
          (unfold mark_task_completed move_task in rw h refl)
          (complete-HasKnownTasks label b v.known c l)
          (unfold mark_task_completed move_task in rw h v.active_ready)
          (moved-IsReady label b c completed b.pending_tasks pending_tabled k)
  ]

  block-IsOrdered : (c reason : String) → IsOrdered (mark_task_blocked label b c reason)
  block-IsOrdered c reason = record {
    known = block-HasKnownTasks label b v.known c reason;
    active_ready =
        unfold mark_task_blocked move_task in
        take_task-rest (IsReady done) c b.active_tasks v.active_ready;
    completed_ready = unfold mark_task_blocked move_task in v.completed_ready;
  }

  abandon-IsOrdered : (c reason : String) → IsOrdered (mark_task_abandoned label b c reason)
  abandon-IsOrdered c reason =
      let w = abandon-HasKnownTasks label b v.known c reason in
      unfold mark_task_abandoned move_task in
      elim (Bool-cases (has_task c b.active_tasks)) [
        | inl h ↦ record {
          known = w;
          active_ready = rw h (take_task-rest (IsReady done) c b.active_tasks v.active_ready);
          completed_ready = rw h v.completed_ready;
        }
        | inr h ↦ record {
          known = w;
          active_ready = rw h v.active_ready;
          completed_ready = rw h v.completed_ready;
        }
      ]

-- A reset from the sequence needs nothing of the active tasks, of which it keeps none.
reset-IsOrdered :
    (label : String → String) (b : Board) (c : String)
    → contains c capability_sequence ≡ true
    → HasKnownTasks b
    → All (IsReady (done_capabilities b.completed_tasks)) b.completed_tasks
    → IsOrdered (reset_from_capability label b c)
reset-IsOrdered label b c k w h =
    let n = index_text c capability_sequence in
    let ts = b.completed_tasks in
    let P : Task → Type 0 = λ t. IsKnown t × IsReady (done_capabilities ts) t in
    let after = filter_by (keeps n) ts in
    let kept : All (IsReady (done_capabilities after)) after =
      All-mono (λ t. P t × (keeps n t ≡ true)) (IsReady (done_capabilities after)) after
        (λ t q. keeps-IsReady n ts t q.0 q.1)
        (All-filter_by P (keeps n) ts (All-both IsKnown _ ts w.completed_known h)) in
    record {
      known = reset-HasKnownTasks label b w c;
      active_ready = unfold reset_from_capability reset_at in rw k tt;
      completed_ready = unfold reset_from_capability reset_at in rw k kept;
    }

Step-IsOrdered :
    {label : String → String} {b c : Board} → OrderedStep label b c → IsOrdered b → IsOrdered c
Step-IsOrdered {label} {b} (start_next t h) v =
    start-IsOrdered label b v t.capability (next-is_open label b v t h)
Step-IsOrdered {label} {b} (start_open c k) v = start-IsOrdered label b v c k
Step-IsOrdered {label} {b} (complete_active c l h) v = complete_active-IsOrdered label b v c l h
Step-IsOrdered {label} {b} (complete_open c l k) v = complete_open-IsOrdered label b v c l k
Step-IsOrdered {label} {b} (block c reason) v = block-IsOrdered label b v c reason
Step-IsOrdered {label} {b} (abandon c reason) v = abandon-IsOrdered label b v c reason
Step-IsOrdered {label} {b} (reset c) v = elim (Bool-cases (contains c capability_sequence)) [
  | inl k ↦ reset-IsOrdered label b c k v.known v.completed_ready
  | inr k ↦ unfold reset_from_capability in rw k v
]
Step-IsOrdered {label} {b} (start_reset c k) v =
    reset-IsOrdered label (mark_task_started label b c) c k (start-HasKnownTasks label b v.known c)
      (unfold mark_task_started move_task in v.completed_ready)

initial-IsOrdered : (label : String → String) → IsOrdered (build_initial_task_board label)
initial-IsOrdered label = record {
  known = initial-HasKnownTasks label;
  active_ready = unfold build_initial_task_board in tt;
  completed_ready = unfold build_initial_task_board in tt;
}

Reach-IsOrdered :
    {label : String → String} {b : Board}
    → OrderedReach label (build_initial_task_board label) b
    → IsOrdered b
Reach-IsOrdered {label} here = initial-IsOrdered label
Reach-IsOrdered (next r s) = Step-IsOrdered s (Reach-IsOrdered r)

-- On every board that ordered steps reach from the initial one, the dependencies of each active
-- and of each completed task are completed. Ordered steps are the starts of the next task and of
-- capabilities with completed dependencies, the completions of active tasks and of capabilities
-- with completed dependencies, and any blocks, abandonments, resets, and starts of a capability of
-- the sequence with a reset from it right after.
pub reached_in_order :
    (label : String → String) (b : Board)
    → OrderedReach label (build_initial_task_board label) b
    → All (IsReady (done_capabilities b.completed_tasks)) b.active_tasks
      × All (IsReady (done_capabilities b.completed_tasks)) b.completed_tasks
reached_in_order label b r = let v = Reach-IsOrdered r in (v.active_ready, v.completed_ready)
