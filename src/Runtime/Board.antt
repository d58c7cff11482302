-- ===== src/Runtime/Board.antt =====
-- mobility_agent/runtime/deliberation_loop.py: the task board. A task is the dictionary of the
-- source with its fields typed; a missing text is the empty text.
pub mod Moves
pub mod Next
pub mod Reset
pub mod Known
pub mod Kept
pub mod Order
use d_mobility.Prelude.{
  ℕ, String, Bool, true, false, not, ◌&&◌, ◌||◌, List, [], ◌∷◌, ◌++◌, map, Option, none, some, ◌==◌,
  contains, all, any, is_empty, ltb, filter_by, index_text, drop, if◌then◌else◌,
}
use d_mobility.Runtime.Actions.{capability_sequence, capability_dependencies}

pub data Status : Type 0 where
  pending active completed blocked abandoned : Status

pub record Task : Type 0 where
  pub task_id : String
  pub capability : String
  pub depends_on : List String
  pub status : Status
  pub reason : Option String

pub record Board : Type 0 where
  pub pending_tasks : List Task
  pub active_tasks : List Task
  pub completed_tasks : List Task
  pub blocked_tasks : List Task
  pub abandoned_tasks : List Task

-- The keys `"pending_tasks"` and so on, named by the status of their tasks.
abbrev pub column : Status → Board → List Task
column pending b = b.pending_tasks
column active b = b.active_tasks
column completed b = b.completed_tasks
column blocked b = b.blocked_tasks
column abandoned b = b.abandoned_tasks

abbrev pub with_column : Status → List Task → Board → Board
with_column pending ts b = record b { pending_tasks = ts }
with_column active ts b = record b { active_tasks = ts }
with_column completed ts b = record b { completed_tasks = ts }
with_column blocked ts b = record b { blocked_tasks = ts }
with_column abandoned ts b = record b { abandoned_tasks = ts }

-- `f"capability::{capability}"` is the argument `label`.
unfoldable pub new_task : (String → String) → String → Status → Task
new_task label capability status = record {
  task_id = label capability;
  capability = capability;
  depends_on = capability_dependencies capability;
  status = status;
  reason = none;
}

unfoldable pub build_initial_task_board : (String → String) → Board
unfolding new_task
build_initial_task_board label = record {
  pending_tasks = map (λ c. new_task label c pending) capability_sequence;
  active_tasks = [];
  completed_tasks = [];
  blocked_tasks = [];
  abandoned_tasks = [];
}

-- The capabilities that the completed tasks name.
abbrev pub done_capabilities : List Task → List String
done_capabilities ts =
    map (λ (t : Task). t.capability) (filter_by (λ (t : Task). not (t.capability == "")) ts)

unfoldable pub first_ready : List String → List Task → Option Task
first_ready done [] = none
first_ready done (t ∷ ts) =
    if all (λ d. contains d done) t.depends_on then some t else first_ready done ts

unfoldable pub next_pending_task : Board → Option Task
next_pending_task b = first_ready (done_capabilities b.completed_tasks) b.pending_tasks

-- The loop of `move_task`: the first task of the capability, and the tasks that stay.
unfoldable pub take_task : String → List Task → Option Task × List Task
take_task capability [] = (none, [])
take_task capability (t ∷ ts) =
    let (found, rest) = take_task capability ts in
    if t.capability == capability then (some t, ts) else (found, t ∷ rest)

-- `{**current, "status": status}`, or the task that is made where none was found.
unfoldable pub moved : (String → String) → String → Status → Option Task → Task
moved label capability status none = new_task label capability status
moved label capability status (some t) = record t { status = status }

-- The active tasks are searched first, the pending ones if none is of the capability.
abbrev pub active_or_pending : Board → String → Status
active_or_pending b capability =
    if any (λ (t : Task). t.capability == capability) b.active_tasks then active else pending

-- `tasks[-1]["reason"] = reason`
abbrev pub reason_last : String → List Task → List Task
reason_last reason [] = []
reason_last reason (t ∷ []) = record t { reason = some reason } ∷ []
reason_last reason (t ∷ u ∷ ts) = t ∷ reason_last reason (u ∷ ts)

-- `cap in ordered and ordered.index(cap) < reset_index`
abbrev pub keeps : ℕ → Task → Bool
keeps reset_index t =
    contains t.capability capability_sequence
    && ltb (index_text t.capability capability_sequence) reset_index

abbrev pub requeue : List Task → List Task
requeue ts = map (λ (t : Task). record t { status = pending }) ts

module _ (label : String → String) where
  -- The target column is named by the status that the task gets.
  unfoldable pub move_task : Board → String → Status → Status → Board
  move_task b capability source target =
      let (found, rest) = take_task capability (column source b) in
      let taken = with_column source rest b in
      with_column target (column target taken ++ moved label capability target found ∷ []) taken

  unfoldable pub mark_task_started : Board → String → Board
  mark_task_started b capability = move_task b capability pending active

  unfoldable pub mark_task_completed : Board → String → Board
  mark_task_completed b capability =
      move_task b capability (active_or_pending b capability) completed

  unfoldable pub mark_task_blocked : Board → String → String → Board
  mark_task_blocked b capability reason =
      let updated = move_task b capability active blocked in
      record updated { blocked_tasks = reason_last reason updated.blocked_tasks }

  unfoldable pub mark_task_abandoned : Board → String → String → Board
  mark_task_abandoned b capability reason =
      let updated = move_task b capability (active_or_pending b capability) abandoned in
      record updated { abandoned_tasks = reason_last reason updated.abandoned_tasks }

  -- The capabilities of the tail that no pending task names, as new tasks.
  unfoldable pub missing_tasks : List String → List String → List Task
  missing_tasks names [] = []
  missing_tasks names (c ∷ cs) =
      let rest = missing_tasks names cs in
      if contains c names then rest else new_task label c pending ∷ rest

  unfoldable pub reset_at : Board → ℕ → Board
  reset_at b reset_index =
      let tail = drop reset_index capability_sequence in
      let requeued = requeue (filter_by (λ t. not (keeps reset_index t)) b.completed_tasks) in
      let waiting = b.pending_tasks ++ requeued in
      let fresh = missing_tasks (map (λ (t : Task). t.capability) waiting) tail in
      let in_tail = λ (t : Task). contains t.capability tail in
      record {
        pending_tasks = (waiting ++ fresh) ++ requeue (filter_by in_tail b.active_tasks);
        active_tasks = [];
        completed_tasks = filter_by (keeps reset_index) b.completed_tasks;
        blocked_tasks = filter_by (λ t. not (in_tail t)) b.blocked_tasks;
        abandoned_tasks = filter_by (λ t. not (in_tail t)) b.abandoned_tasks;
      }

  unfoldable pub reset_from_capability : Board → String → Board
  unfolding reset_at
  reset_from_capability b capability =
      if contains capability capability_sequence
      then reset_at b (index_text capability capability_sequence)
      else b

unfoldable pub all_tasks_resolved : Board → Bool
all_tasks_resolved b =
    is_empty b.pending_tasks
    && is_empty b.active_tasks
    && is_empty b.blocked_tasks
    && is_empty b.abandoned_tasks

unfoldable pub has_blocked_or_abandoned_tasks : Board → Bool
has_blocked_or_abandoned_tasks b =
    not (is_empty b.blocked_tasks) || not (is_empty b.abandoned_tasks)
