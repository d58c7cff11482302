-- ===== src/Checks/Queue.antt =====
-- The material queue at concrete inputs, with a collection of two documents.
use d_mobility.Prelude.{
  ℕ, ◌≡◌, ◌≢◌, refl, ap, subst, ◌∙◌, ◌⊎◌, Bool, true, false, ◌||◌, Option, none, some, eqb,
  Bool-cases, inl, inr, arith, if◌then◌else◌, ◌==◌,
}
use d_mobility.Runtime.Queue.Documents.{text, Document, Filter, Update, updated, Collection}
use d_mobility.Runtime.Queue.{claim_next_material}
use d_mobility.Runtime.Queue.Marks.{
  Report, Completion, completed_update, failed_update, mark_failed,
}
use d_mobility.Runtime.Queue.Fields.{IsConsistent, marks-IsConsistent}

abbrev blank : Document
blank key = none

abbrev Pair : Type 0
Pair = Document × Document

abbrev document_of : Pair → ℕ → Document
document_of s id = if eqb id 0 then s.0 else if eqb id 1 then s.1 else blank

abbrev find : Filter → Update → Pair → Option ℕ × Pair
find f u s =
    if f s.0
    then (some 0, (updated u s.0, s.1))
    else if f s.1
    then (some 1, (s.0, updated u s.1))
    else (none, s)

abbrev update : ℕ → Update → Pair → Pair
update id u s =
    if eqb id 0 then (updated u s.0, s.1) else if eqb id 1 then (s.0, updated u s.1) else s

value : Option ℕ → ℕ
value none = 0
value (some n) = n

found_cases :
    (f : Filter) (u : Update) (s : Pair) (id : ℕ)
    → (find f u s).0 ≡ some id
    → ((0 ≡ id) × (f s.0 ≡ true)) ⊎ ((1 ≡ id) × (f s.0 ≡ false) × (f s.1 ≡ true))
unfolding value
found_cases f u s id h = elim (Bool-cases (f s.0)) [
  | inl a ↦ inl (ap value (rw a at h), a)
  | inr a ↦ elim (Bool-cases (f s.1)) [
    | inl b ↦ inr (ap value (rw (a, b) at h), a, b)
    | inr b ↦ absurd (cc (rw (a, b) at h))
  ]
]

-- Another document than the first, or than the second, is as it was.
keeps_first :
    (d : Document) (s : Pair) (other : ℕ)
    → other ≢ 0
    → document_of (d, s.1) other ≡ document_of s other
keeps_first d s other h = elim (Bool-cases (eqb other 0)) [
  | inl e ↦ absurd (h (ground (arith, e)))
  | inr e ↦ rw e refl
]

keeps_second :
    (d : Document) (s : Pair) (other : ℕ)
    → other ≢ 1
    → document_of (s.0, d) other ≡ document_of s other
keeps_second d s other h = elim (Bool-cases (eqb other 1)) [
  | inl e ↦ absurd (h (ground (arith, e)))
  | inr e ↦ rw e refl
]

found-matches :
    (f : Filter) (u : Update) (s : Pair) (id : ℕ)
    → (find f u s).0 ≡ some id
    → f (document_of s id) ≡ true
found-matches f u s id h = elim (found_cases f u s id h) [
  | inl (p, a) ↦ subst (λ x. f (document_of s x) ≡ true) p a
  | inr (p, a, b) ↦ subst (λ x. f (document_of s x) ≡ true) p b
]

found-updated :
    (f : Filter) (u : Update) (s : Pair) (id : ℕ)
    → (find f u s).0 ≡ some id
    → document_of (find f u s).1 id ≡ updated u (document_of s id)
found-updated f u s id h = elim (found_cases f u s id h) [
  | inl (p, a) ↦
      subst (λ x. document_of (find f u s).1 x ≡ updated u (document_of s x)) p (rw a refl)
  | inr (p, a, b) ↦
      subst (λ x. document_of (find f u s).1 x ≡ updated u (document_of s x)) p (rw (a, b) refl)
]

found-others :
    (f : Filter) (u : Update) (s : Pair) (id other : ℕ)
    → (find f u s).0 ≡ some id
    → other ≢ id
    → document_of (find f u s).1 other ≡ document_of s other
found-others f u s id other h n = elim (found_cases f u s id h) [
  | inl (p, a) ↦ rw a (keeps_first (updated u s.0) s other (λ q. n (q ∙ p)))
  | inr (p, a, b) ↦ rw (a, b) (keeps_second (updated u s.1) s other (λ q. n (q ∙ p)))
]

found_nothing : (f : Filter) (u : Update) (s : Pair) → (find f u s).0 ≡ none → (find f u s).1 ≡ s
found_nothing f u s h = elim (Bool-cases (f s.0)) [
  | inl a ↦ absurd (cc (rw a at h))
  | inr a ↦ elim (Bool-cases (f s.1)) [
    | inl b ↦ absurd (cc (rw (a, b) at h))
    | inr b ↦ rw (a, b) refl
  ]
]

abbrev has_id : Pair → ℕ → Bool
has_id s id = eqb id 0 || eqb id 1

update-document :
    (id : ℕ) (u : Update) (s : Pair)
    → has_id s id ≡ true
    → document_of (update id u s) id ≡ updated u (document_of s id)
update-document id u s h = elim (Bool-cases (eqb id 0)) [
  | inl e ↦ rw e refl
  | inr e ↦ elim (Bool-cases (eqb id 1)) [
    | inl k ↦ rw (e, k) refl
    | inr k ↦ absurd (cc (rw (e, k) at h))
  ]
]

update-missing : (id : ℕ) (u : Update) (s : Pair) → has_id s id ≡ false → update id u s ≡ s
update-missing id u s h = elim (Bool-cases (eqb id 0)) [
  | inl e ↦ absurd (cc (rw e at h))
  | inr e ↦ elim (Bool-cases (eqb id 1)) [
    | inl k ↦ absurd (cc (rw (e, k) at h))
    | inr k ↦ rw (e, k) refl
  ]
]

update-others :
    (id other : ℕ) (u : Update) (s : Pair)
    → other ≢ id
    → document_of (update id u s) other ≡ document_of s other
update-others id other u s n = elim (Bool-cases (eqb id 0)) [
  | inl e ↦ rw e (keeps_first (updated u s.0) s other (λ q. n (ground (arith, e, q))))
  | inr e ↦ elim (Bool-cases (eqb id 1)) [
    | inl k ↦ rw (e, k) (keeps_second (updated u s.1) s other (λ q. n (ground (arith, k, q))))
    | inr k ↦ rw (e, k) refl
  ]
]

abbrev pair : Collection
pair = record {
  Store = Pair;
  document = document_of;
  has = has_id;
  find_one_and_update = find;
  update_one = update;
  found_matches = found-matches;
  found_updated = found-updated;
  found_others = found-others;
  nothing_found = found_nothing;
  update_one_document = update-document;
  update_one_missing = update-missing;
  update_one_others = update-others;
}

abbrev waiting : Document
waiting key = if key == "mobility_calc.status" then some (text "pending") else none

abbrev two : Pair
two = (waiting, waiting)

abbrev report : Report
report = record {
  run_dir = "runs/a";
  decision_engine = none;
  llm_required = none;
  agent_summary = none;
  validation = none;
  confidence_score = none;
  decision_trace_path = none;
  final_summary_path = none;
  final_status = none;
  termination_reason = none;
  final_acceptance = none;
  quality_grade = none;
  accepted_channels = none;
  rejected_channels = none;
  round_index = some "1";
  round_id = none;
  pipeline_run_id = none;
}

abbrev completion : Completion
completion = record {
  report = report;
  results = "r";
  quality_label = some "high-quality";
  potcar_used = none;
  warnings = none;
  recovery_summary = none;
  refinement_summary = none;
}

abbrev after_first : Pair
after_first = (claim_next_material pair none "batch" true 100 50 two).1

abbrev after_fail : Pair
after_fail = mark_failed pair 0 report "crashed" 60 after_first

abbrev after_second : Pair
after_second = (claim_next_material pair none "batch" true 100 70 after_fail).1

marks-IsConsistent_example :
    IsConsistent (completed_update completion 9) × IsConsistent (failed_update report "crashed" 9)
marks-IsConsistent_example = marks-IsConsistent completion report "crashed" 9
