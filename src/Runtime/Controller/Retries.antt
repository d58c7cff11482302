-- ===== src/Runtime/Controller/Retries.antt =====
-- mobility_agent/runtime/agentic_controller.py: the count of the retries, which the workflow and
-- the execution both keep.
use text.Mathlib.Text.{starts_with}
use d_mobility.Prelude.{
  ℕ, ◌+◌, String, Bool, not, ◌||◌, List, [], ◌∷◌, Option, ◌==◌, leb, strip, or_text, if◌then◌else◌,
}

-- A dictionary of counts; a missing key counts as 0.
abbrev pub Counts : Type 0
Counts = List (String × ℕ)

unfoldable pub count_of : String → Counts → ℕ
count_of key [] = 0
count_of key ((k, n) ∷ rest) = if k == key then n else count_of key rest

unfoldable pub put_count : String → ℕ → Counts → Counts
put_count key n [] = (key, n) ∷ []
put_count key n ((k, m) ∷ rest) =
    let others = put_count key n rest in if k == key then (k, n) ∷ rest else (k, m) ∷ others

-- What the reconciliation reads of the state, and the counts that it changes.
pub record Retried : Type 0 where
  pub execution_counts : Counts
  pub workflow_counts : Counts
  pub error_summary : String  -- of the latest execution observation

abbrev pub max : ℕ → ℕ → ℕ
max a b = if leb a b then b else a

-- The loops of `_retry_counts_snapshot`.
unfoldable pub merge_counts : Counts → Counts → Counts
unfolding put_count count_of
merge_counts counts [] = counts
merge_counts counts ((key, value) ∷ rest) =
    let capability = strip key in
    let kept = merge_counts counts rest in
    let more =
      merge_counts (put_count capability (max (count_of capability counts) value) counts) rest in
    if capability == "" then kept else more

unfoldable pub retry_counts_snapshot : Retried → Counts
unfolding merge_counts
retry_counts_snapshot s = merge_counts (merge_counts [] s.execution_counts) s.workflow_counts

abbrev pub is_retry_family : String → Bool
is_retry_family family = family == "retry_capability" || family == "rerun_from_capability"

-- `_ensure_selected_retry_accounted_after_execution`, of the family and the target of the action
unfoldable pub ensure_retry_accounted : Retried → String → Option String → Counts → Retried
unfolding retry_counts_snapshot put_count count_of
ensure_retry_accounted s family target before =
    let target_capability = strip (or_text target "") in
    let required = count_of target_capability before + 1 in
    let counts = retry_counts_snapshot s in
    let updated = put_count target_capability required counts in
    if not (is_retry_family family)
    then s
    else if target_capability == ""
    then s
    else if starts_with s.error_summary "illegal_selected_action"
    then s
    else if leb required (count_of target_capability counts)
    then s
    else record s { execution_counts = updated; workflow_counts = updated }
