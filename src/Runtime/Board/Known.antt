-- ===== src/Runtime/Board/Known.antt =====
-- The steps of the runtime on the board, and what every board that they reach knows of its tasks.
use d_mobility.Prelude.{
  ℕ, zero, suc, String, ◌≡◌, refl, Bool, true, false, not, List, [], ◌∷◌, ◌++◌, ◌==◌, contains,
  drop, filter_by, index_text, Bool-cases, inl, inr, All, All-append, All-mono, eq_iff, subst, sym,
}
use d_mobility.Runtime.Actions.{capability_sequence}
use d_mobility.Runtime.Board.{
  Status, active, pending, completed, Task, Board, new_task, take_task, moved, keeps, requeue,
  missing_tasks, reset_at, move_task, mark_task_started, mark_task_completed, mark_task_blocked,
  mark_task_abandoned, reset_from_capability, build_initial_task_board,
}
use d_mobility.Runtime.Board.Moves.{has_task}
use d_mobility.Runtime.Board.Next.{IsTabled, take_task-rest}
use d_mobility.Runtime.Board.Reset.{contains-drop}

-- The operations that the runtime applies to a board. The execution of an action starts its target,
-- also one that is not pending, and resets the board; the reflection and the external events
-- complete a capability of the sequence, active or not, and block or abandon any target.
pub data Step (label : String → String) (b : Board) : Board → Type 0 where
  start : (c : String) → Step label b (mark_task_started label b c)
  complete :
      (c : String)
      → contains c capability_sequence ≡ true
      → Step label b (mark_task_completed label b c)
  block : (c reason : String) → Step label b (mark_task_blocked label b c reason)
  abandon : (c reason : String) → Step label b (mark_task_abandoned label b c reason)
  reset : (c : String) → Step label b (reset_from_capability label b c)

pub data Reach (label : String → String) (b : Board) : Board → Type 0 where
  here : Reach label b b
  next : {c d : Board} → Reach label b c → Step label c d → Reach label b d

-- A task of the sequence that depends on what the table says.
abbrev pub IsKnown : Task → Type 0
IsKnown t = (contains t.capability capability_sequence ≡ true) × IsTabled t

pub record HasKnownTasks (b : Board) : Type 0 where
  pub pending_known : All IsKnown b.pending_tasks
  pub active_tabled : All IsTabled b.active_tasks
  pub completed_known : All IsKnown b.completed_tasks

abbrev to_tabled : (ts : List Task) → All IsKnown ts → All IsTabled ts
to_tabled ts h = All-mono IsKnown IsTabled ts (λ t k. k.1) h

module _ (label : String → String) where
  pub moved-capability :
      (c : String) (s : Status) (ts : List Task)
      → (moved label c s (take_task c ts).0).capability ≡ c
  unfolding moved take_task new_task
  moved-capability c s [] = refl
  moved-capability c s (t ∷ ts) = elim (Bool-cases (t.capability == c)) [
    | inl e ↦ rw e ((eq_iff t.capability c).0 e)
    | inr e ↦ rw e (moved-capability c s ts)
  ]

  pub moved-IsTabled :
      (c : String) (s : Status) (ts : List Task)
      → All IsTabled ts
      → IsTabled (moved label c s (take_task c ts).0)
  unfolding moved take_task new_task
  moved-IsTabled c s [] h = refl
  moved-IsTabled c s (t ∷ ts) h = elim (Bool-cases (t.capability == c)) [
    | inl e ↦ rw e h.0
    | inr e ↦ rw e (moved-IsTabled c s ts h.1)
  ]

  missing_tasks-IsKnown :
      (known cs : List String)
      → All (λ c. contains c capability_sequence ≡ true) cs
      → All IsKnown (missing_tasks label known cs)
  unfolding missing_tasks new_task
  missing_tasks-IsKnown known [] h = tt
  missing_tasks-IsKnown known (c ∷ cs) h = elim (Bool-cases (contains c known)) [
    | inl e ↦ rw e (missing_tasks-IsKnown known cs h.1)
    | inr e ↦ rw e ((h.0, refl), missing_tasks-IsKnown known cs h.1)
  ]

All-requeue :
    (P : Task → Type 0) (ts : List Task)
    → ((t : Task) → P t → P (record t { status = pending }))
    → All P ts
    → All P (requeue ts)
All-requeue P [] f h = tt
All-requeue P (t ∷ ts) f h = (f t h.0, All-requeue P ts f h.1)

-- What a filter keeps has the property of the list, and passes the test.
pub All-filter_by :
    (P : Task → Type 0) (p : Task → Bool) (ts : List Task)
    → All P ts
    → All (λ t. P t × (p t ≡ true)) (filter_by p ts)
All-filter_by P p [] h = tt
All-filter_by P p (t ∷ ts) h = go (p t) refl (All-filter_by P p ts h.1)
  where
    Q : Task → Type 0
    Q u = P u × (p u ≡ true)

    go :
        (x : Bool)
        → p t ≡ x
        → All Q (filter_by p ts)
        → All Q (elim x [ true ↦ t ∷ filter_by p ts | false ↦ filter_by p ts ])
    go true e rest = ((h.0, e), rest)
    go false e rest = rest

pub kept_by :
    (P : Task → Type 0) (p : Task → Bool) (ts : List Task) → All P ts → All P (filter_by p ts)
kept_by P p ts h =
    All-mono (λ t. P t × (p t ≡ true)) P (filter_by p ts) (λ t k. k.0) (All-filter_by P p ts h)

All-drop {ℓ κ} : {A : Type ℓ} (P : A → Type κ) (n : ℕ) (xs : List A) → All P xs → All P (drop n xs)
All-drop P zero xs h = h
All-drop P (suc n) [] h = tt
All-drop P (suc n) (x ∷ xs) h = All-drop P n xs h.1

sequence_listed : All (λ c. contains c capability_sequence ≡ true) capability_sequence
sequence_listed = (refl, (refl, (refl, (refl, (refl, (refl, (refl, (refl, tt))))))))

module _ (label : String → String) (b : Board) (v : HasKnownTasks b) where
  pub reset_at-HasKnownTasks : (n : ℕ) → HasKnownTasks (reset_at label b n)
  unfolding reset_at
  reset_at-HasKnownTasks n =
      let tail = drop n capability_sequence in
      let in_tail = λ (t : Task). contains t.capability tail in
      let requeued =
        All-requeue IsKnown (filter_by (λ t. not (keeps n t)) b.completed_tasks) (λ t k. k)
          (kept_by IsKnown (λ t. not (keeps n t)) b.completed_tasks v.completed_known) in
      let waiting = All-append IsKnown b.pending_tasks _ v.pending_known requeued in
      let fresh =
        missing_tasks-IsKnown label _ tail (All-drop _ n capability_sequence sequence_listed) in
      let again =
        All-requeue IsKnown (filter_by in_tail b.active_tasks) (λ t k. k)
          (All-mono (λ t. IsTabled t × (in_tail t ≡ true)) IsKnown
            (filter_by in_tail b.active_tasks)
            (λ t k. (contains-drop t.capability n capability_sequence k.1, k.0))
            (All-filter_by IsTabled in_tail b.active_tasks v.active_tabled)) in
      record {
        pending_known = All-append IsKnown _ _ (All-append IsKnown _ _ waiting fresh) again;
        active_tabled = tt;
        completed_known = kept_by IsKnown (keeps n) b.completed_tasks v.completed_known;
      }

  pub reset-HasKnownTasks : (c : String) → HasKnownTasks (reset_from_capability label b c)
  unfolding reset_from_capability
  reset-HasKnownTasks c = elim (Bool-cases (contains c capability_sequence)) [
    | inl e ↦ rw e (reset_at-HasKnownTasks (index_text c capability_sequence))
    | inr e ↦ rw e v
  ]

  pub start-HasKnownTasks : (c : String) → HasKnownTasks (mark_task_started label b c)
  unfolding mark_task_started move_task
  start-HasKnownTasks c = record {
    pending_known = take_task-rest IsKnown c b.pending_tasks v.pending_known;
    active_tabled = All-append IsTabled b.active_tasks _ v.active_tabled (
      moved-IsTabled label c active b.pending_tasks (to_tabled b.pending_tasks v.pending_known),
      tt,
    );
    completed_known = v.completed_known;
  }

  completed-IsKnown :
      (c : String) (ts : List Task)
      → contains c capability_sequence ≡ true
      → All IsTabled ts
      → All IsKnown (b.completed_tasks ++ moved label c completed (take_task c ts).0 ∷ [])
  completed-IsKnown c ts k h = All-append IsKnown b.completed_tasks _ v.completed_known (
    (
      subst (λ (d : String). contains d capability_sequence ≡ true)
          (sym (moved-capability label c completed ts)) k,
      moved-IsTabled label c completed ts h,
    ),
    tt,
  )

  pub complete-HasKnownTasks :
      (c : String)
      → contains c capability_sequence ≡ true
      → HasKnownTasks (mark_task_completed label b c)
  unfolding mark_task_completed move_task
  complete-HasKnownTasks c k = elim (Bool-cases (has_task c b.active_tasks)) [
    | inl e ↦ rw e (record {
      pending_known = v.pending_known;
      active_tabled = take_task-rest IsTabled c b.active_tasks v.active_tabled;
      completed_known = completed-IsKnown c b.active_tasks k v.active_tabled;
    })
    | inr e ↦ rw e (record {
      pending_known = take_task-rest IsKnown c b.pending_tasks v.pending_known;
      active_tabled = v.active_tabled;
      completed_known =
          completed-IsKnown c b.pending_tasks k (to_tabled b.pending_tasks v.pending_known);
    })
  ]

  pub block-HasKnownTasks : (c reason : String) → HasKnownTasks (mark_task_blocked label b c reason)
  unfolding mark_task_blocked move_task
  block-HasKnownTasks c reason = record {
    pending_known = v.pending_known;
    active_tabled = take_task-rest IsTabled c b.active_tasks v.active_tabled;
    completed_known = v.completed_known;
  }

  pub abandon-HasKnownTasks :
      (c reason : String) → HasKnownTasks (mark_task_abandoned label b c reason)
  unfolding mark_task_abandoned move_task
  abandon-HasKnownTasks c reason = elim (Bool-cases (has_task c b.active_tasks)) [
    | inl e ↦ rw e (record {
      pending_known = v.pending_known;
      active_tabled = take_task-rest IsTabled c b.active_tasks v.active_tabled;
      completed_known = v.completed_known;
    })
    | inr e ↦ rw e (record {
      pending_known = take_task-rest IsKnown c b.pending_tasks v.pending_known;
      active_tabled = v.active_tabled;
      completed_known = v.completed_known;
    })
  ]

pub Step-HasKnownTasks :
    {label : String → String} {b c : Board} → Step label b c → HasKnownTasks b → HasKnownTasks c
Step-HasKnownTasks {label} {b} (start c) v = start-HasKnownTasks label b v c
Step-HasKnownTasks {label} {b} (complete c k) v = complete-HasKnownTasks label b v c k
Step-HasKnownTasks {label} {b} (block c reason) v = block-HasKnownTasks label b v c reason
Step-HasKnownTasks {label} {b} (abandon c reason) v = abandon-HasKnownTasks label b v c reason
Step-HasKnownTasks {label} {b} (reset c) v = reset-HasKnownTasks label b v c

pub initial-HasKnownTasks :
    (label : String → String) → HasKnownTasks (build_initial_task_board label)
unfolding build_initial_task_board new_task
initial-HasKnownTasks label = record {
  pending_known = (
    (refl, refl),
    (
      (refl, refl),
      (
        (refl, refl),
        ((refl, refl), ((refl, refl), ((refl, refl), ((refl, refl), ((refl, refl), tt))))),
      ),
    ),
  );
  active_tabled = tt;
  completed_known = tt;
}

pub Reach-HasKnownTasks :
    {label : String → String} {b : Board}
    → Reach label (build_initial_task_board label) b
    → HasKnownTasks b
Reach-HasKnownTasks {label} here = initial-HasKnownTasks label
Reach-HasKnownTasks (next r s) = Step-HasKnownTasks s (Reach-HasKnownTasks r)
