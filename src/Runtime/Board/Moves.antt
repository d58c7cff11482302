-- ===== src/Runtime/Board/Moves.antt =====
-- A move loses no task and changes the number of no other capability's tasks.
use d_mobility.Prelude.{
  ℕ, ◌+◌, String, ◌≡◌, refl, Bool, true, false, not, ◌&&◌, List, [], ◌∷◌, ◌++◌, map, ◌==◌, any,
  count_text, arith, eq_iff,
}
use d_mobility.Runtime.Board.{
  Status, pending, active, completed, blocked, abandoned, Task, Board, column, with_column,
  new_task, take_task, moved, move_task,
}

abbrev pub names : List Task → List String
names ts = map (λ (t : Task). t.capability) ts

-- How many tasks of a capability a column, and a board, hold.
abbrev pub count_in : String → List Task → ℕ
count_in c ts = count_text c (names ts)

abbrev pub total : String → Board → ℕ
total c b =
    count_in c b.pending_tasks
    + count_in c b.active_tasks
    + count_in c b.completed_tasks
    + count_in c b.blocked_tasks
    + count_in c b.abandoned_tasks

abbrev pub has_task : String → List Task → Bool
has_task c ts = any (λ (t : Task). t.capability == c) ts

pub count_in-append :
    (c : String) (xs ys : List Task) → count_in c (xs ++ ys) ≡ count_in c xs + count_in c ys
count_in-append c [] ys = omega arith
count_in-append c (x ∷ xs) ys = ground (arith, count_in-append c xs ys)

total-with_column :
    (c : String) (s : Status) (ts : List Task) (b : Board)
    → total c (with_column s ts b) + count_in c (column s b) ≡ total c b + count_in c ts
total-with_column c pending ts b = omega arith
total-with_column c active ts b = omega arith
total-with_column c completed ts b = omega arith
total-with_column c blocked ts b = omega arith
total-with_column c abandoned ts b = omega arith

-- One, if the texts are equal.
abbrev pub one_if : Bool → ℕ
one_if true = 1
one_if false = 0

take_task-found :
    (cap : String) (ts : List Task) (label : String → String) (s : Status)
    → (moved label cap s (take_task cap ts).0).capability ≡ cap
unfolding take_task moved new_task
take_task-found cap [] label s = refl
take_task-found cap (t ∷ ts) label s =
    ground (arith, take_task-found cap ts label s, eq_iff t.capability cap)

count_in-take_task :
    (c cap : String) (ts : List Task)
    → count_in c ts ≡ count_in c (take_task cap ts).1 + one_if (has_task cap ts && (cap == c))
unfolding take_task
count_in-take_task c cap [] = refl
count_in-take_task c cap (t ∷ ts) = ground (
  arith,
  count_in-take_task c cap ts,
  eq_iff t.capability cap,
  eq_iff t.capability c,
  eq_iff cap c,
)

-- For every capability, a move leaves the number of its tasks on the board as it was; but the
-- moved capability gets one task more where its source column holds none.
pub total-move_task :
    (label : String → String) (b : Board) (cap : String) (source target : Status) (c : String)
    → total c (move_task label b cap source target)
      ≡ total c b + one_if (not (has_task cap (column source b)) && (cap == c))
unfolding move_task
total-move_task label b cap source target c =
    let ts = column source b in
    let taken = with_column source (take_task cap ts).1 b in
    let m = moved label cap target (take_task cap ts).0 in
    ground (
      arith,
      total-with_column c source (take_task cap ts).1 b,
      total-with_column c target (column target taken ++ m ∷ []) taken,
      count_in-append c (column target taken) (m ∷ []),
      count_in-take_task c cap ts,
      take_task-found cap ts label target,
    )
