-- ===== src/Runtime/Queue/Documents.antt =====
-- The documents of the material queue that mobility_agent/runtime/mongo_batch.py keeps in a MongoDB
-- collection, and what it uses of the collection.
use d_mobility.Prelude.{
  ℕ, String, ◌≡◌, ◌≢◌, Bool, true, false, List, [], ◌∷◌, Option, none, some, ◌==◌, ltb, ◌+◌,
  contains, if◌then◌else◌,
}

-- A value of a document: a text, a time in seconds, or what the code passes on without a look.
pub data Field : Type 0 where
  text : String → Field
  time : ℕ → Field
  payload : String → Field
  labels : String → Field  -- the channel labels that are projected from a validation

-- A document by its dotted paths.
abbrev pub Document : Type 0
Document = String → Option Field

-- A filter, and an update by `$set` and `$unset`.
abbrev pub Filter : Type 0
Filter = Document → Bool

pub record Update : Type 0 where
  pub set : List (String × Field)
  pub unset : List String

abbrev pub find_field : String → List (String × Field) → Option Field
find_field key [] = none
find_field key ((k, v) ∷ rest) =
    let other = find_field key rest in if k == key then some v else other

-- What an update without conflicts makes of a document, as MongoDB documents it.
abbrev pub or_old : Option Field → Option Field → Option Field
or_old none old = old
or_old (some v) old = some v

abbrev pub updated : Update → Document → Document
updated u d key = if contains key u.unset then none else or_old (find_field key u.set) (d key)

-- The operators of the filters: a missing field, `$ne` and a time `$lt` another, which MongoDB
-- only compares with times.
abbrev pub is_missing : Option Field → Bool
is_missing none = true
is_missing (some v) = false

abbrev pub is_text : String → Option Field → Bool
is_text t (some (text s)) = s == t
is_text t _ = false

abbrev pub is_before : ℕ → ℕ → Option Field → Bool
is_before stale now (some (time t)) = ltb (t + stale) now
is_before stale now _ = false

-- The collection: its documents by their `_id`, and the two operations, which are atomic. An
-- operation that the filter finds nothing for leaves the store as it was.
pub record Collection : Type 1 where
  pub Store : Type 0
  pub document : Store → ℕ → Document
  pub has : Store → ℕ → Bool
  pub find_one_and_update : Filter → Update → Store → Option ℕ × Store
  pub update_one : ℕ → Update → Store → Store
  pub found_matches :
      (f : Filter) (u : Update) (s : Store) (id : ℕ)
      → (find_one_and_update f u s).0 ≡ some id
      → f (document s id) ≡ true
  pub found_updated :
      (f : Filter) (u : Update) (s : Store) (id : ℕ)
      → (find_one_and_update f u s).0 ≡ some id
      → document (find_one_and_update f u s).1 id ≡ updated u (document s id)
  pub found_others :
      (f : Filter) (u : Update) (s : Store) (id other : ℕ)
      → (find_one_and_update f u s).0 ≡ some id
      → other ≢ id
      → document (find_one_and_update f u s).1 other ≡ document s other
  pub nothing_found :
      (f : Filter) (u : Update) (s : Store)
      → (find_one_and_update f u s).0 ≡ none
      → (find_one_and_update f u s).1 ≡ s
  pub update_one_document :
      (id : ℕ) (u : Update) (s : Store)
      → has s id ≡ true
      → document (update_one id u s) id ≡ updated u (document s id)
  pub update_one_missing :
      (id : ℕ) (u : Update) (s : Store) → has s id ≡ false → update_one id u s ≡ s
  pub update_one_others :
      (id other : ℕ) (u : Update) (s : Store)
      → other ≢ id
      → document (update_one id u s) other ≡ document s other
