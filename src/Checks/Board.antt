-- ===== src/Checks/Board.antt =====
-- The task board at concrete inputs.
use Prim.Native.String.{String}
use d_mobility.Prelude.{
  ◌≡◌, refl, ◌+◌, true, false, not, ◌&&◌, none, some, ◌==◌, All, all, contains, index_text, ◌↔◌,
}
use d_mobility.Runtime.Actions.{capability_sequence, capability_dependencies}
use d_mobility.Runtime.Board.{
  Board, pending, active, column, new_task, build_initial_task_board, done_capabilities,
  next_pending_task, move_task, first_ready, take_task, moved, mark_task_started,
  mark_task_completed, reset_from_capability,
}
use d_mobility.Runtime.Board.Moves.{total, one_if, has_task, total-move_task}
use d_mobility.Runtime.Board.Next.{IsReady, next_pending_task-none}
use d_mobility.Runtime.Board.Known.{Reach}
use d_mobility.Runtime.Board.Known as Known
use d_mobility.Runtime.Board.Order.{
  OrderedStep, start_next, complete_active, reset, OrderedReach, here, next, reached_in_order,
}
use d_mobility.Runtime.Board.Reset.{IsReset, reset_from_capability-IsReset}

abbrev pub label : String → String
label c = String.◌∷◌ "#" c

abbrev pub b0 : Board
b0 = build_initial_task_board label

abbrev pub b1 : Board
b1 = mark_task_started label b0 "prepare"

abbrev pub b2 : Board
b2 = mark_task_completed label b1 "prepare"

first_task : next_pending_task b0 ≡ some (new_task label "prepare" pending)
unfolding next_pending_task first_ready build_initial_task_board new_task capability_dependencies
first_task = refl

pub second_task : next_pending_task b2 ≡ some (new_task label "relax" pending)
unfolding next_pending_task first_ready build_initial_task_board new_task capability_dependencies
    mark_task_started mark_task_completed move_task take_task moved
second_task = refl

b1_active : has_task "prepare" b1.active_tasks ≡ true
unfolding next_pending_task first_ready build_initial_task_board new_task capability_dependencies
    mark_task_started move_task take_task moved
b1_active = refl

pub reached : Reach label b0 b2
reached = Known.next (Known.next Known.here (Known.start "prepare")) (Known.complete "prepare" refl)

named_start : OrderedStep label b0 b1
unfolding new_task
named_start = start_next (new_task label "prepare" pending) first_task

abbrev b3 : Board
b3 = reset_from_capability label b2 "relax"

in_order : OrderedReach label b0 b3
in_order =
    next (next (next here named_start) (complete_active "prepare" refl b1_active)) (reset "relax")

reached_in_order_example :
    All (IsReady (done_capabilities b3.completed_tasks)) b3.active_tasks
    × All (IsReady (done_capabilities b3.completed_tasks)) b3.completed_tasks
reached_in_order_example = reached_in_order label b3 in_order

next_pending_task-none_example :
    (next_pending_task b1 ≡ none)
    ↔ All
        (λ t. all (λ d. contains d (done_capabilities b1.completed_tasks)) t.depends_on ≡ false)
        b1.pending_tasks
next_pending_task-none_example = next_pending_task-none b1

total-move_task_example :
    total "relax" (move_task label b1 "prepare" active pending)
    ≡ total "relax" b1
      + one_if (not (has_task "prepare" (column active b1)) && ("prepare" == "relax"))
total-move_task_example = total-move_task label b1 "prepare" active pending "relax"

reset_from_capability-IsReset_example :
    IsReset b2
      (reset_from_capability label b2 "prepare")
      (index_text "prepare" capability_sequence)
      "relax"
reset_from_capability-IsReset_example =
    reset_from_capability-IsReset label b2 "prepare" "relax" refl
