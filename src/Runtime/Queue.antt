-- ===== src/Runtime/Queue.antt =====
-- mobility_agent/runtime/mongo_batch.py: the claim of the next material of the queue.
pub mod Documents
pub mod Marks
pub mod Fields
pub mod Once
pub mod Terminal
use d_mobility.Prelude.{
  ℕ, String, Bool, true, false, not, ◌&&◌, ◌||◌, List, [], ◌∷◌, Option, none, some, ltb,
  if◌then◌else◌,
}
use d_mobility.Runtime.Queue.Documents.{
  Field, text, time, Document, Filter, Update, is_missing, is_text, is_before, Collection,
}

abbrev pub status_key : String
status_key = "mobility_calc.status"

abbrev pub batch_key : String
batch_key = "mobility_calc.batch_tag"

abbrev pub started_key : String
started_key = "mobility_calc.started_at"

-- `pending_query`. A document without `mobility_calc` has no status either, so the first
-- alternative of the source is the second one. `running_stale_s` is 0 where it does not count.
unfoldable pub pending_query : String → Bool → ℕ → ℕ → Filter
pending_query batch_tag retry_failed running_stale_s now d =
    is_missing (d status_key)
    || is_text "pending" (d status_key)
    || (retry_failed && is_text "failed" (d status_key) && not (is_text batch_tag (d batch_key)))
    || (ltb 0 running_stale_s
        && is_text "running" (d status_key)
        && is_before running_stale_s now (d started_key))

unfoldable pub claim_update : String → ℕ → Update
claim_update batch_tag now = record {
  set = (status_key, text "running") ∷ (batch_key, text batch_tag) ∷ (started_key, time now) ∷ [];
  unset = [];
}

-- The filter with that of the environment.
unfoldable pub claim_filter : Option Filter → Filter → Filter
claim_filter none query d = query d
claim_filter (some extra) query d = extra d && query d

module _ (collection : Collection) where
  open collection use {Store, find_one_and_update}

  -- `claim_next_material`: the `_id` of the document that is returned, and the store. `now` is the
  -- time of the call.
  unfoldable pub claim_next_material :
      Option Filter → String → Bool → ℕ → ℕ → Store → Option ℕ × Store
  claim_next_material extra batch_tag retry_failed running_stale_s now s =
      find_one_and_update
        (claim_filter extra (pending_query batch_tag retry_failed running_stale_s now))
        (claim_update batch_tag now) s
