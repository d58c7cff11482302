-- ===== src/Runtime/Queue/Fields.antt =====
-- The keys that an update sets, and those that it unsets.
use d_mobility.Prelude.{
  ℕ, String, ◌≡◌, refl, Bool, true, false, not, ◌&&◌, List, [], ◌∷◌, ◌++◌, Option, none, some, ◌==◌,
  contains, any-append, any, all, All, All-append, arith,
}
use d_mobility.Runtime.Queue.Documents.{Field, find_field, Update, Document, updated}
use d_mobility.Runtime.Queue.Marks.{
  Entries, Choices, entries, missing_keys, Report, Completion, completed_update, failed_update,
  completed_others, calc_choices, failed_others, agent_choices, terminal_success_unset,
  terminal_non_success_unset, completed_values, round_metadata, agent_values, failed_values,
}

abbrev pub names_key : String → Choices → Bool
names_key key cs = any (λ (c : String × Option Field). c.0 == key) cs

pub find_field-entries :
    (key : String) (cs : Choices) → names_key key cs ≡ false → find_field key (entries cs) ≡ none
unfolding entries
find_field-entries key [] h = refl
find_field-entries key ((k, none) ∷ rest) h = find_field-entries key rest (ground (arith, h))
find_field-entries key ((k, some v) ∷ rest) h = ground (arith, h, find_field-entries key rest)

pub contains-missing_keys :
    (key : String) (cs : Choices)
    → names_key key cs ≡ false
    → contains key (missing_keys cs) ≡ false
unfolding missing_keys
contains-missing_keys key [] h = refl
contains-missing_keys key ((k, none) ∷ rest) h = ground (arith, h, contains-missing_keys key rest)
contains-missing_keys key ((k, some v) ∷ rest) h =
    contains-missing_keys key rest (ground (arith, h))

-- MongoDB refuses an update that sets and unsets one key: no key that is set is unset.
abbrev pub IsConsistent : Update → Type 0
IsConsistent u = All (λ (e : String × Field). contains e.0 u.unset ≡ false) u.set

-- The keys are different, and those of a first list are in neither of the others.
abbrev distinct_keys : Choices → Bool
distinct_keys [] = true
distinct_keys ((k, o) ∷ rest) =
    not (names_key k rest)
    && all (λ (c : String × Option Field). not (k == c.0)) rest
    && distinct_keys rest

abbrev apart : List String → Choices → Choices → Bool
apart unset choices others =
    all (λ (c : String × Option Field). not (contains c.0 unset) && not (names_key c.0 choices))
      others

abbrev Unmissed : List String → Entries → Type 0
Unmissed unset es = All (λ (e : String × Field). contains e.0 unset ≡ false) es

differs-entries :
    (k : String) (cs : Choices)
    → all (λ (c : String × Option Field). not (k == c.0)) cs ≡ true
    → All (λ (e : String × Field). (k == e.0) ≡ false) (entries cs)
unfolding entries
differs-entries k [] h = tt
differs-entries k ((c, none) ∷ rest) h = differs-entries k rest (ground (arith, h))
differs-entries k ((c, some v) ∷ rest) h =
    (ground (arith, h), differs-entries k rest (ground (arith, h)))

both :
    (k : String) (unset : List String) (es : Entries)
    → All (λ (e : String × Field). (k == e.0) ≡ false) es
    → Unmissed unset es
    → Unmissed (k ∷ unset) es
both k unset [] h u = tt
both k unset (e ∷ es) (a, h) (b, u) = (ground (arith, a, b), both k unset es h u)

own : (cs : Choices) → distinct_keys cs ≡ true → Unmissed (missing_keys cs) (entries cs)
unfolding entries missing_keys
own [] h = tt
own ((k, none) ∷ rest) h =
    both k (missing_keys rest) (entries rest) (differs-entries k rest (ground (arith, h)))
      (own rest (ground (arith, h)))
own ((k, some v) ∷ rest) h =
    (contains-missing_keys k rest (ground (arith, h)), own rest (ground (arith, h)))

others_apart :
    (unset : List String) (cs others : Choices)
    → apart unset cs others ≡ true
    → Unmissed (unset ++ missing_keys cs) (entries others)
unfolding entries
others_apart unset cs [] h = tt
others_apart unset cs ((k, none) ∷ rest) h = others_apart unset cs rest (ground (arith, h))
others_apart unset cs ((k, some v) ∷ rest) h = (
  rw (any-append (λ x. x == k) unset (missing_keys cs))
      (ground (arith, h, contains-missing_keys k cs)),
  others_apart unset cs rest (ground (arith, h)),
)

prefixed :
    (unset names : List String) (cs : Choices)
    → all (λ (c : String × Option Field). not (contains c.0 unset)) cs ≡ true
    → Unmissed names (entries cs)
    → Unmissed (unset ++ names) (entries cs)
unfolding entries
prefixed unset names [] h u = tt
prefixed unset names ((k, none) ∷ rest) h u = prefixed unset names rest (ground (arith, h)) u
prefixed unset names ((k, some v) ∷ rest) h (a, u) = (
  rw (any-append (λ x. x == k) unset names) (ground (arith, h, a)),
  prefixed unset names rest (ground (arith, h)) u,
)

entries-append : (xs ys : Choices) → entries (xs ++ ys) ≡ entries xs ++ entries ys
unfolding entries
entries-append [] ys = refl
entries-append ((k, none) ∷ xs) ys = entries-append xs ys
entries-append ((k, some v) ∷ xs) ys = rw (entries-append xs ys) refl

consistent :
    (unset : List String) (others cs : Choices)
    → apart unset cs others ≡ true
    → all (λ (c : String × Option Field). not (contains c.0 unset)) cs ≡ true
    → distinct_keys cs ≡ true
    → Unmissed (unset ++ missing_keys cs) (entries (others ++ cs))
consistent unset others cs a b d = rw (entries-append others cs) (
    All-append (λ (e : String × Field). contains e.0 (unset ++ missing_keys cs) ≡ false)
      (entries others) (entries cs) (others_apart unset cs others a)
      (prefixed unset (missing_keys cs) cs b (own cs d)))

-- Neither mark sets and unsets one key, whatever is given.
pub marks-IsConsistent :
    (c : Completion) (r : Report) (error : String) (now : ℕ)
    → IsConsistent (completed_update c now) × IsConsistent (failed_update r error now)
unfolding completed_update failed_update calc_choices completed_values round_metadata agent_values
    agent_choices failed_values
marks-IsConsistent c r error now = (
  consistent terminal_success_unset (completed_others c now) (calc_choices c) refl refl refl,
  consistent terminal_non_success_unset (failed_others r error now) (agent_choices r) refl refl
      refl,
)

pub updated-kept :
    (u : Update) (d : Document) (key : String)
    → contains key u.unset ≡ false
    → find_field key u.set ≡ none
    → updated u d key ≡ d key
updated-kept u d key a b = rw (a, b) refl

pub updated-set :
    (u : Update) (d : Document) (key : String) (v : Field)
    → contains key u.unset ≡ false
    → find_field key u.set ≡ some v
    → updated u d key ≡ some v
updated-set u d key v a b = rw (a, b) refl

pub updated-unset :
    (u : Update) (d : Document) (key : String)
    → contains key u.unset ≡ true
    → updated u d key ≡ none
updated-unset u d key a = rw a refl

pub prefixed-contains :
    (key : String) (xs : List String) (cs : Choices)
    → contains key xs ≡ false
    → names_key key cs ≡ false
    → contains key (xs ++ missing_keys cs) ≡ false
prefixed-contains key xs cs a b =
    rw (any-append (λ x. x == key) xs (missing_keys cs))
      (ground (arith, a, contains-missing_keys key cs b))

-- The marks set the status and leave the batch.
module _ (c : Completion) (now : ℕ) (d : Document) where
  pub completed-status :
      updated (completed_update c now) d "mobility_calc.status" ≡ some (Field.text "completed")
  unfolding completed_update calc_choices completed_values entries
  completed-status =
      updated-set (completed_update c now) d "mobility_calc.status" (Field.text "completed")
        (prefixed-contains "mobility_calc.status" terminal_success_unset (calc_choices c) refl refl)
        refl

  pub completed-batch :
      updated (completed_update c now) d "mobility_calc.batch_tag" ≡ d "mobility_calc.batch_tag"
  unfolding completed_update calc_choices completed_values round_metadata agent_values agent_choices
  completed-batch =
      updated-kept (completed_update c now) d "mobility_calc.batch_tag"
        (prefixed-contains "mobility_calc.batch_tag" terminal_success_unset (calc_choices c) refl
          refl)
        (find_field-entries "mobility_calc.batch_tag" (completed_others c now ++ calc_choices c)
          refl)

module _ (r : Report) (error : String) (now : ℕ) (d : Document) where
  pub failed-status :
      updated (failed_update r error now) d "mobility_calc.status" ≡ some (Field.text "failed")
  unfolding failed_update agent_choices failed_values entries
  failed-status =
      updated-set (failed_update r error now) d "mobility_calc.status" (Field.text "failed")
        (prefixed-contains "mobility_calc.status" terminal_non_success_unset (agent_choices r) refl
          refl)
        refl

  pub failed-batch :
      updated (failed_update r error now) d "mobility_calc.batch_tag" ≡ d "mobility_calc.batch_tag"
  unfolding failed_update agent_choices failed_values round_metadata agent_values
  failed-batch =
      updated-kept (failed_update r error now) d "mobility_calc.batch_tag"
        (prefixed-contains "mobility_calc.batch_tag" terminal_non_success_unset (agent_choices r)
          refl refl)
        (find_field-entries "mobility_calc.batch_tag" (failed_others r error now ++ agent_choices r)
          refl)
