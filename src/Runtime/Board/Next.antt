-- ===== src/Runtime/Board/Next.antt =====
-- When there is a next task, and what its selection and its removal from a column keep.
use d_mobility.Prelude.{
  String, ◌≡◌, refl, subst, true, false, List, [], ◌∷◌, ◌++◌, none, some, ◌==◌, ◌↔◌, all, contains,
  arith, Bool-cases, inl, inr, eq_iff, All, any-append,
}
use d_mobility.Runtime.Actions.{capability_dependencies}
use d_mobility.Runtime.Board.{
  Task, Board, take_task, done_capabilities, first_ready, next_pending_task,
}
use d_mobility.Runtime.Board.Moves.{has_task}

-- Every capability that a task depends on is among the completed ones.
abbrev pub IsReady : List String → Task → Type 0
IsReady done t = all (λ d. contains d done) t.depends_on ≡ true

pub first_ready_lem :
    (P : Task → Type 0) (done : List String) (ts : List Task) (t : Task)
    → All P ts
    → first_ready done ts ≡ some t
    → IsReady done t × P t × (has_task t.capability ts ≡ true)
unfolding first_ready
first_ready_lem P done [] t a h = absurd (cc h)
first_ready_lem P done (u ∷ ts) t a h =
    elim (Bool-cases (all (λ d. contains d done) u.depends_on)) [
      | inl now ↦
          let e : u ≡ t = cc (rw now at h) in
          (
            subst (λ (v : Task). IsReady done v) e now,
            subst P e a.0,
            ground (arith, eq_iff u.capability t.capability),
          )
      | inr later ↦
          let (r, p, m) = first_ready_lem P done ts t a.1 (rw later at h) in (r, p, ground arith)
    ]

pub first_ready-none :
    (done : List String) (ts : List Task)
    → first_ready done ts ≡ none
    → All (λ t. all (λ d. contains d done) t.depends_on ≡ false) ts
unfolding first_ready
first_ready-none done [] h = tt
first_ready-none done (u ∷ ts) h = elim (Bool-cases (all (λ d. contains d done) u.depends_on)) [
  | inl now ↦ absurd (cc (rw now at h))
  | inr later ↦ (later, first_ready-none done ts (rw later at h))
]

none-first_ready :
    (done : List String) (ts : List Task)
    → All (λ t. all (λ d. contains d done) t.depends_on ≡ false) ts
    → first_ready done ts ≡ none
unfolding first_ready
none-first_ready done [] h = refl
none-first_ready done (u ∷ ts) h = rw h.0 (none-first_ready done ts h.1)

All-trivial : (ts : List Task) → All (λ _. Unit {0}) ts
All-trivial [] = tt
All-trivial (t ∷ ts) = (tt, All-trivial ts)

-- A task depends on what the table says of its capability.
abbrev pub IsTabled : Task → Type 0
IsTabled t = t.depends_on ≡ capability_dependencies t.capability

module _ (P : Task → Type 0) (cap : String) where
  pub take_task-rest : (ts : List Task) → All P ts → All P (take_task cap ts).1
  unfolding take_task
  take_task-rest [] h = tt
  take_task-rest (t ∷ ts) h = elim (Bool-cases (t.capability == cap)) [
    | inl e ↦ rw e h.1
    | inr e ↦ rw e (h.0, take_task-rest ts h.1)
  ]

  pub take_task-some :
      (ts : List Task)
      → All P ts
      → has_task cap ts ≡ true
      → (t : Task) × ((take_task cap ts).0 ≡ some t) × (t.capability ≡ cap) × P t
  unfolding take_task
  take_task-some [] h k = absurd (cc k)
  take_task-some (t ∷ ts) h k = elim (Bool-cases (t.capability == cap)) [
    | inl e ↦ (t, rw e, (eq_iff t.capability cap).0 e, h.0)
    | inr e ↦ let (u, p, q, r) = take_task-some ts h.1 (rw e at k) in (u, rw e p, q, r)
  ]

contains-append :
    (d : String) (xs ys : List String) → contains d xs ≡ true → contains d (xs ++ ys) ≡ true
contains-append d xs ys h = rw any-append (ground arith)

all-contains-append :
    (xs ys ds : List String)
    → all (λ d. contains d xs) ds ≡ true
    → all (λ d. contains d (xs ++ ys)) ds ≡ true
all-contains-append xs ys [] h = refl
all-contains-append xs ys (d ∷ ds) h =
    ground (arith, contains-append d xs ys, all-contains-append xs ys ds)

done_capabilities-append :
    (xs ys : List Task)
    → done_capabilities (xs ++ ys) ≡ done_capabilities xs ++ done_capabilities ys
done_capabilities-append [] ys = refl
done_capabilities-append (x ∷ xs) ys = ground (arith, done_capabilities-append xs ys)

-- What was ready stays ready when one more task is completed.
pub IsReady-append :
    (ts us : List Task) (t : Task)
    → IsReady (done_capabilities ts) t
    → IsReady (done_capabilities (ts ++ us)) t
IsReady-append ts us t h =
    rw done_capabilities-append
      (all-contains-append (done_capabilities ts) (done_capabilities us) t.depends_on h)

-- There is no next task exactly when each pending task has a dependency that is not completed.
pub next_pending_task-none :
    (b : Board)
    → (next_pending_task b ≡ none)
      ↔ All
          (λ t. all (λ d. contains d (done_capabilities b.completed_tasks)) t.depends_on ≡ false)
          b.pending_tasks
unfolding next_pending_task
next_pending_task-none b = (
  first_ready-none (done_capabilities b.completed_tasks) b.pending_tasks,
  none-first_ready (done_capabilities b.completed_tasks) b.pending_tasks,
)
