-- ===== src/Runtime/Queue/Once.antt =====
-- Within a batch no material is claimed twice, however the workers' claims and marks interleave.
use d_mobility.Prelude.{
  ℕ, ◌+◌, ◌≤◌, String, ◌≡◌, ◌⊎◌, Bool, List, [], ◌∷◌, Option, none, some, eqb, All, IsDistinctBy,
}
use d_mobility.Runtime.Queue.Documents.{text, time, Document, Filter, Collection}
use d_mobility.Runtime.Queue.{
  status_key, batch_key, started_key, pending_query, claim_update, claim_filter,
  claim_next_material,
}
use d_mobility.Runtime.Queue.Marks.{Report, Completion, mark_completed, mark_failed}

-- A document that this batch has claimed at a time that is not before `since`, and that has been
-- completed or failed since, or not yet.
abbrev pub IsTaken : String → ℕ → Document → Type 0
IsTaken tag since d =
    (d batch_key ≡ some (text tag))
    × ((d status_key ≡ some (text "completed"))
        ⊎ ((d status_key ≡ some (text "failed"))
            ⊎ ((d status_key ≡ some (text "running"))
                × (n : ℕ) × (d started_key ≡ some (time n))
                × (since ≤ n))))

module _ (collection : Collection) (tag : String) (stale since : ℕ) where
  open collection use {
    Store, document, has, find_one_and_update, found_matches, found_updated, found_others,
    nothing_found, update_one_document, update_one_others, update_one_missing,
  }

  -- The workers of a batch from a store on: the ids that they have claimed, the last one first,
  -- and the store. A claim is made while none of the batch is stale, or with no limit.
  pub data Runs (first : Store) : List ℕ → Store → Type 0 where
    start : Runs first [] first
    claim :
        {ids : List ℕ} {s : Store}
        → Runs first ids s
        → (extra : Option Filter) (retry_failed : Bool) (now id : ℕ) → since ≤ now
        → (stale ≡ 0) ⊎ (now ≤ since + stale)
        → (claim_next_material collection extra tag retry_failed stale now s).0 ≡ some id
        → Runs first
            (id ∷ ids)
            (claim_next_material collection extra tag retry_failed stale now s).1
    claim_nothing :
        {ids : List ℕ} {s : Store}
        → Runs first ids s
        → (extra : Option Filter) (retry_failed : Bool) (now : ℕ)
        → (claim_next_material collection extra tag retry_failed stale now s).0 ≡ none
        → Runs first ids (claim_next_material collection extra tag retry_failed stale now s).1
    complete :
        {ids : List ℕ} {s : Store}
        → Runs first ids s
        → (id : ℕ) (c : Completion) (now : ℕ)
        → Runs first ids (mark_completed collection id c now s)
    fail :
        {ids : List ℕ} {s : Store}
        → Runs first ids s
        → (id : ℕ) (r : Report) (error : String) (now : ℕ)
        → Runs first ids (mark_failed collection id r error now s)

  abbrev Taken : Store → ℕ → Type 0
  Taken s id = IsTaken tag since (document s id)

  abbrev Invariant : List ℕ → Store → Type 0
  Invariant ids s = All (Taken s) ids × IsDistinctBy eqb ids

  module _ (s : Store) (ids : List ℕ) (v : Invariant ids s) (extra : Option Filter)
      (retry_failed : Bool) (now id : ℕ) (early : since ≤ now)
      (w : (stale ≡ 0) ⊎ (now ≤ since + stale)) where
    abbrev query : Filter
    query = claim_filter extra (pending_query tag retry_failed stale now)

    module _ (found : (find_one_and_update query (claim_update tag now) s).0 ≡ some id) where
      abbrev after : Store
      after = (find_one_and_update query (claim_update tag now) s).1
