-- ===== src/Graph/Merge.antt =====
-- mobility_agent/graph/state.py: `deep_merge`, by which an update changes the shared state.
pub mod Lookup
use Prim.Native.String.{String}
use d_mobility.Prelude.{
  Bool, true, false, List, [], ◌∷◌, ◌++◌, Option, none, some, ◌==◌, contains, dedupe_keep_order,
  if◌then◌else◌,
}

-- A value of the state: a scalar (by its text), a list or a dictionary in the order of insertion.
mutual
  pub data Json : Type 0 where
    scalar : String → Json
    items : Items → Json
    dict : Fields → Json

  pub data Items : Type 0 where
    nil : Items
    cons : Json → Items → Items

  pub data Fields : Type 0 where
    end : Fields
    field : String → Json → Fields → Fields

abbrev pub to_list : Items → List Json
to_list nil = []
to_list (cons x xs) = x ∷ to_list xs

abbrev pub of_list : List Json → Items
of_list [] = nil
of_list (x ∷ xs) = cons x (of_list xs)

-- `merged.get(key)`, and `merged[key] = value`
abbrev pub lookup : String → Fields → Option Json
lookup key end = none
lookup key (field k v rest) = if k == key then some v else lookup key rest

abbrev pub store : String → Json → Fields → Fields
store key value end = field key value end
store key value (field k v rest) =
    if k == key then field k value rest else field k v (store key value rest)

-- `APPEND_FIELDS`
abbrev pub append_fields : List String
append_fields =
    "material.warnings" ∷ "workflow.completed_stages" ∷ "diagnostics.errors"
    ∷ "diagnostics.recovery_history" ∷ "diagnostics.consultation_trace" ∷ "execution.tool_trace"
    ∷ "execution.tool_invocations" ∷ "execution.failure_history" ∷ "execution.skill_trace"
    ∷ "execution.external_jobs" ∷ "execution.pending_events" ∷ "execution.event_history"
    ∷ "execution.consumed_event_ids" ∷ "execution.compatibility_checkpoint_history"
    ∷ "agent.agent_decisions" ∷ "agent.decision_trace" ∷ "blackboard.observations"
    ∷ "blackboard.risk_flags" ∷ "blackboard.anomaly_flags" ∷ "deliberation.rounds"
    ∷ "deliberation.proposals" ∷ "deliberation.critiques" ∷ "deliberation.preferences"
    ∷ "deliberation.arbitrations" ∷ "deliberation.selected_actions" ∷ "deliberation.reflections"
    ∷ "deliberation.disagreement_records" ∷ "deliberation.rationale_history"
    ∷ "memory.recovered_case_patterns" ∷ "memory.validation_case_patterns"
    ∷ "memory.historical_failures" ∷ "memory.reusable_heuristics" ∷ "services.framework_diagnostics"
    ∷ "services.retrieval_trace" ∷ "services.workflow_contract_history" ∷ "services.decision_ledger"
    ∷ "services.step_checkpoints" ∷ "batch.queue" ∷ "batch.running_items" ∷ "batch.completed_items"
    ∷ "batch.failed_items" ∷ "batch.skipped_items" ∷ []

abbrev pub append_text : String → String → String
append_text String.[] t = t
append_text (String.◌∷◌ c s) t = String.◌∷◌ c (append_text s t)

-- `f"{path}.{key}" if path else key`
abbrev pub child_path : String → String → String
child_path path key = if path == "" then key else append_text path (append_text "." key)

-- `marker` is what `dedupe_keep_order` compares: the value, or its `repr`.
abbrev pub merge_items : (Json → String) → String → Items → Items → Items
merge_items marker path xs ys =
    if contains path append_fields
    then of_list (dedupe_keep_order (λ a b. marker a == marker b) (to_list xs ++ to_list ys))
    else ys

unfoldable mutual
  pub deep_merge : (Json → String) → String → Json → Json → Json
  deep_merge marker path base (scalar s) = scalar s
  deep_merge marker path (scalar s) (items ys) = items ys
  deep_merge marker path (items xs) (items ys) = items (merge_items marker path xs ys)
  deep_merge marker path (dict b) (items ys) = items ys
  deep_merge marker path (scalar s) (dict u) = dict u
  deep_merge marker path (items xs) (dict u) = dict u
  deep_merge marker path (dict b) (dict u) = dict (merge_fields marker path b u)

  -- The loop over the items of the update, from the dictionary that is merged so far.
  pub merge_fields : (Json → String) → String → Fields → Fields → Fields
  merge_fields marker path merged end = merged
  merge_fields marker path merged (field key value rest) =
      merge_fields marker path
        (elim (lookup key merged) [
          | none ↦ store key value merged
          | some old ↦ store key (deep_merge marker (child_path path key) old value) merged
        ])
        rest
