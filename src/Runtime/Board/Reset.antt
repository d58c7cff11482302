-- ===== src/Runtime/Board/Reset.antt =====
-- What a reset does to the tasks of each capability.
use d_mobility.Prelude.{
  IsDistinct, ℕ, zero, suc, ◌+◌, String, ◌≡◌, refl, ap, ◌∙◌, Bool, true, false, not, ◌&&◌, List, [],
  ◌∷◌, ◌++◌, filter_by, contains, count_text, index_text, drop, ltb, eqb, arith, Bool-cases, inl,
  inr, eq_iff, if◌then◌else◌,
}
use d_mobility.Runtime.Actions.{capability_sequence}
use d_mobility.Runtime.Board.{
  Task, Board, new_task, missing_tasks, requeue, reset_at, reset_from_capability, keeps,
}
use d_mobility.Runtime.Board.Moves.{names, count_in, count_in-append, one_if}

-- A filter that looks at the capability keeps all the tasks of a capability, or none.
count_in-filter_by :
    (p : String → Bool) (c : String) (ts : List Task)
    → count_in c (filter_by (λ (t : Task). p t.capability) ts) ≡ (if p c then count_in c ts else 0)
count_in-filter_by p c [] = ground arith
count_in-filter_by p c (t ∷ ts) =
    ground (arith, count_in-filter_by p c ts, eq_iff t.capability c, ap p)

count_in-requeue : (c : String) (ts : List Task) → count_in c (requeue ts) ≡ count_in c ts
count_in-requeue c [] = refl
count_in-requeue c (t ∷ ts) = ground (arith, count_in-requeue c ts)

-- A capability is among the names exactly when it counts a task.
contains-names : (c : String) (ts : List Task) → contains c (names ts) ≡ not (eqb (count_in c ts) 0)
contains-names c [] = refl
contains-names c (t ∷ ts) = ground (arith, contains-names c ts)

if_not {ℓ} : {A : Type ℓ} (x : Bool) (u v : A) → (if not x then u else v) ≡ (if x then v else u)
if_not true u v = refl
if_not false u v = refl

fresh_if :
    (known last : Bool) (n m k : ℕ)
    → known ≡ not (eqb n 0)
    → n ≡ m
    → k ≡ one_if last
    → (if known then 0 else k) ≡ one_if (eqb m 0 && last)
fresh_if known last n m k p q r = ground arith

count_in-missing_tasks :
    (label : String → String) (c : String) (known cs : List String)
    → count_in c (missing_tasks label known cs) ≡ (if contains c known then 0 else count_text c cs)
unfolding missing_tasks new_task
count_in-missing_tasks label c known [] = ground arith
count_in-missing_tasks label c known (d ∷ cs) =
    ground (arith, count_in-missing_tasks label c known cs, eq_iff d c)

pub contains-drop :
    (c : String) (n : ℕ) (xs : List String) → contains c (drop n xs) ≡ true → contains c xs ≡ true
contains-drop c zero xs h = h
contains-drop c (suc n) [] h = h
contains-drop c (suc n) (x ∷ xs) h = ground (arith, contains-drop c n xs h)

-- In a list of different items, what stands in the tail has an index in the tail.
index_text-drop :
    (c : String) (n : ℕ) (xs : List String)
    → IsDistinct xs
    → contains c (drop n xs) ≡ true
    → ltb (index_text c xs) n ≡ false
index_text-drop c zero xs d h = ground arith
index_text-drop c (suc n) [] d h = cc
index_text-drop c (suc n) (x ∷ xs) d h =
    ground (arith, index_text-drop c n xs d.1 h, contains-drop c n xs h, eq_iff x c)

sequence-IsDistinct : IsDistinct capability_sequence
sequence-IsDistinct = (refl, (refl, (refl, (refl, (refl, (refl, (refl, (refl, tt))))))))

index_text-before :
    (c : String) (n : ℕ) (xs : List String)
    → contains c xs ≡ true
    → contains c (drop n xs) ≡ false
    → ltb (index_text c xs) n ≡ true
index_text-before c zero xs h k = cc
index_text-before c (suc n) [] h k = cc
index_text-before c (suc n) (x ∷ xs) h k = ground (arith, index_text-before c n xs)

IsDistinct-drop : (n : ℕ) (xs : List String) → IsDistinct xs → IsDistinct (drop n xs)
IsDistinct-drop zero xs d = d
IsDistinct-drop (suc n) [] d = tt
IsDistinct-drop (suc n) (x ∷ xs) d = IsDistinct-drop n xs d.1

count_text-IsDistinct :
    (c : String) (xs : List String) → IsDistinct xs → count_text c xs ≡ one_if (contains c xs)
count_text-IsDistinct c [] d = refl
count_text-IsDistinct c (x ∷ xs) d = ground (arith, count_text-IsDistinct c xs d.1, eq_iff x c)

-- What has an index before the tail is in the list and not in the tail.
index_text-lt :
    (c : String) (n : ℕ) (xs : List String)
    → IsDistinct xs
    → (contains c xs && ltb (index_text c xs) n) ≡ (contains c xs && not (contains c (drop n xs)))
index_text-lt c n xs d = elim (Bool-cases (contains c (drop n xs))) [
  | inl there ↦ rw (there, index_text-drop c n xs d there) refl
  | inr gone ↦ elim (Bool-cases (contains c xs)) [
    | inl known ↦ rw (gone, known, index_text-before c n xs known gone) refl
    | inr new ↦ rw new
  ]
]

abbrev pub tail : ℕ → List String
tail n = drop n capability_sequence

-- A capability of the sequence that is not in the tail keeps its completed tasks.
abbrev pub is_kept : ℕ → String → Bool
is_kept n c = contains c capability_sequence && not (contains c (tail n))

module _ (label : String → String) (b : Board) (n : ℕ) (c : String) where
  abbrev requeued : List Task
  requeued = requeue (filter_by (λ t. not (keeps n t)) b.completed_tasks)

  keeps_name : Bool
  keeps_name = contains c capability_sequence && ltb (index_text c capability_sequence) n

  keeps_name_lem : keeps_name ≡ is_kept n c
  unfolding keeps_name
  keeps_name_lem = index_text-lt c n capability_sequence sequence-IsDistinct

  count_in-requeued : count_in c requeued ≡ (if keeps_name then 0 else count_in c b.completed_tasks)
  unfolding keeps_name
  count_in-requeued =
      count_in-requeue c (filter_by (λ t. not (keeps n t)) b.completed_tasks)
      ∙ count_in-filter_by
          (λ d. not (contains d capability_sequence && ltb (index_text d capability_sequence) n)) c
          b.completed_tasks
      ∙ if_not (contains c capability_sequence && ltb (index_text c capability_sequence) n) _ _

  count_completed-reset_at :
      count_in c (reset_at label b n).completed_tasks
      ≡ (if keeps_name then count_in c b.completed_tasks else 0)
  unfolding keeps_name reset_at
  count_completed-reset_at =
      count_in-filter_by
        (λ d. contains d capability_sequence && ltb (index_text d capability_sequence) n) c
        b.completed_tasks

  count_fresh :
      count_in c (missing_tasks label (names (b.pending_tasks ++ requeued)) (tail n))
      ≡ one_if (eqb (count_in c b.pending_tasks + count_in c requeued) 0 && contains c (tail n))
  count_fresh =
      count_in-missing_tasks label c (names (b.pending_tasks ++ requeued)) (tail n)
      ∙ fresh_if _ _ _ _ _ (contains-names c (b.pending_tasks ++ requeued))
          (count_in-append c b.pending_tasks requeued)
          (count_text-IsDistinct c (tail n)
            (IsDistinct-drop n capability_sequence sequence-IsDistinct))

  count_pending-reset_at :
      let waiting = count_in c b.pending_tasks + count_in c requeued in
      count_in c (reset_at label b n).pending_tasks
      ≡ waiting
        + one_if (eqb waiting 0 && contains c (tail n))
        + (if contains c (tail n) then count_in c b.active_tasks else 0)
  unfolding reset_at
  count_pending-reset_at =
      let again = filter_by (λ (t : Task). contains t.capability (tail n)) b.active_tasks in
      let fresh = missing_tasks label (names (b.pending_tasks ++ requeued)) (tail n) in
      omega (
        arith,
        count_in-append c ((b.pending_tasks ++ requeued) ++ fresh) (requeue again),
        count_in-append c (b.pending_tasks ++ requeued) fresh,
        count_in-append c b.pending_tasks requeued,
        count_fresh,
        count_in-requeue c again,
        count_in-filter_by (λ d. contains d (tail n)) c b.active_tasks,
      )

  count_stopped :
      (ts : List Task)
      → count_in c (filter_by (λ (t : Task). not (contains t.capability (tail n))) ts)
        ≡ (if contains c (tail n) then 0 else count_in c ts)
  count_stopped ts =
      count_in-filter_by (λ d. not (contains d (tail n))) c ts ∙ if_not (contains c (tail n)) _ _

-- The tasks of a capability after a reset, in each column of the board.
pub record IsReset (b r : Board) (n : ℕ) (c : String) : Type 0 where
  pub pending_count :
      let waiting =
        count_in c b.pending_tasks + (if is_kept n c then 0 else count_in c b.completed_tasks) in
      count_in c r.pending_tasks
      ≡ waiting
        + one_if (eqb waiting 0 && contains c (tail n))
        + (if contains c (tail n) then count_in c b.active_tasks else 0)
  pub active_count : r.active_tasks ≡ []
  pub completed_count :
      count_in c r.completed_tasks ≡ (if is_kept n c then count_in c b.completed_tasks else 0)
  pub blocked_count :
      count_in c r.blocked_tasks ≡ (if contains c (tail n) then 0 else count_in c b.blocked_tasks)
  pub abandoned_count :
      count_in c r.abandoned_tasks
      ≡ (if contains c (tail n) then 0 else count_in c b.abandoned_tasks)

-- A reset from a capability of the sequence leaves, of each capability, these tasks: the completed
-- ones are kept if the capability stands before the one that is reset, and are pending again if
-- not; of the capabilities from the reset one on, the active ones are pending again, the blocked
-- and abandoned ones are dropped, and a task is made if none was pending or completed.
pub reset_from_capability-IsReset :
    (label : String → String) (b : Board) (capability c : String)
    → contains capability capability_sequence ≡ true
    → IsReset b
        (reset_from_capability label b capability)
        (index_text capability capability_sequence)
        c
unfolding reset_from_capability
reset_from_capability-IsReset label b capability c h =
    let n = index_text capability capability_sequence in
    rw h (record {
      pending_count =
          rw (← keeps_name_lem label b n c, ← count_in-requeued label b n c)
            (count_pending-reset_at label b n c);
      active_count = refl;
      completed_count = rw (← keeps_name_lem label b n c) (count_completed-reset_at label b n c);
      blocked_count = count_stopped label b n c b.blocked_tasks;
      abandoned_count = count_stopped label b n c b.abandoned_tasks;
    })
