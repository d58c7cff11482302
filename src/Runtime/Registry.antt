-- ===== src/Runtime/Registry.antt =====
-- mobility_agent/runtime/action_registry.py: the families of actions and what each of them asks.
use d_mobility.Prelude.{
  String, Bool, true, false, not, List, [], ◌∷◌, Option, none, some, ◌==◌, contains, if◌then◌else◌,
}
use d_mobility.Agents.Params.{Params, get, truthy, is_channel_family}

pub data Class : Type 0 where
  low medium high : Class

pub record ActionSpec : Type 0 where
  pub action_family : String
  pub dependencies : List String
  pub legal_parameters : List String
  pub required_evidence : List String
  pub expected_artifacts : List String
  pub fallback_actions : List String
  pub cost_class : Class
  pub risk_class : Class

abbrev pub refine_spec : ActionSpec
refine_spec = record {
  action_family = "refine_sampling";
  dependencies = "target_capability" ∷ [];
  legal_parameters =
      "target_capability" ∷ "target_channels" ∷ "target_directions" ∷ "suggested_points"
      ∷ "refinement_strategy" ∷ "target_fits" ∷ [];
  required_evidence = "fit_quality_warning" ∷ [];
  expected_artifacts = "additional_sampling_points" ∷ [];
  fallback_actions = "revalidate_result" ∷ "abort_material" ∷ [];
  cost_class = high;
  risk_class = medium;
}

-- `ACTION_REGISTRY`, in its order
abbrev pub action_registry : List ActionSpec
action_registry =
    record {
      action_family = "run_capability";
      dependencies = "target_capability" ∷ [];
      legal_parameters = "target_capability" ∷ [];
      required_evidence = [];
      expected_artifacts = "stage_outputs" ∷ [];
      fallback_actions = "retry_capability" ∷ "escalate_human" ∷ [];
      cost_class = medium;
      risk_class = medium;
    }
    ∷ record {
      action_family = "retry_capability";
      dependencies = "target_capability" ∷ [];
      legal_parameters = "target_capability" ∷ "parameter_updates" ∷ [];
      required_evidence = "latest_failure" ∷ [];
      expected_artifacts = "retried_stage_outputs" ∷ [];
      fallback_actions = "rerun_from_capability" ∷ "escalate_human" ∷ [];
      cost_class = medium;
      risk_class = medium;
    }
    ∷ record {
      action_family = "rerun_from_capability";
      dependencies = "target_capability" ∷ [];
      legal_parameters = "target_capability" ∷ [];
      required_evidence = "dependency_mismatch_or_failed_downstream" ∷ [];
      expected_artifacts = "recomputed_downstream_outputs" ∷ [];
      fallback_actions = "escalate_human" ∷ "abort_material" ∷ [];
      cost_class = high;
      risk_class = medium;
    }
    ∷ record {
      action_family = "repair_execution_context";
      dependencies = [];
      legal_parameters = "repair_kind" ∷ [];
      required_evidence = "context_corruption_or_missing_artifacts" ∷ [];
      expected_artifacts = "repaired_execution_context" ∷ [];
      fallback_actions = "escalate_human" ∷ [];
      cost_class = low;
      risk_class = medium;
    }
    ∷ refine_spec
    ∷ record {
      action_family = "revalidate_result";
      dependencies = "target_capability" ∷ [];
      legal_parameters = "target_capability" ∷ [];
      required_evidence = "results_present" ∷ [];
      expected_artifacts = "validation_report" ∷ [];
      fallback_actions = "escalate_human" ∷ "abort_material" ∷ [];
      cost_class = low;
      risk_class = low;
    }
    ∷ record {
      action_family = "invalidate_channel";
      dependencies = [];
      legal_parameters = "target_channels" ∷ [];
      required_evidence = "channel_specific_anomaly" ∷ [];
      expected_artifacts = "updated_channel_registry" ∷ [];
      fallback_actions = "skip_channel" ∷ "revalidate_result" ∷ [];
      cost_class = low;
      risk_class = low;
    }
    ∷ record {
      action_family = "skip_channel";
      dependencies = [];
      legal_parameters = "target_channels" ∷ [];
      required_evidence = "channel_specific_failure" ∷ [];
      expected_artifacts = "updated_channel_registry" ∷ [];
      fallback_actions = "abort_material" ∷ [];
      cost_class = low;
      risk_class = medium;
    }
    ∷ record {
      action_family = "escalate_human";
      dependencies = [];
      legal_parameters = "recommended_options" ∷ [];
      required_evidence = "insufficient_automation_confidence" ∷ [];
      expected_artifacts = "human_escalation_payload" ∷ [];
      fallback_actions = "abort_material" ∷ [];
      cost_class = low;
      risk_class = low;
    }
    ∷ record {
      action_family = "finalize_material";
      dependencies = [];
      legal_parameters = [];
      required_evidence = "result_or_terminal_status" ∷ [];
      expected_artifacts = "final_summary" ∷ "material_outcome" ∷ [];
      fallback_actions = [];
      cost_class = low;
      risk_class = low;
    }
    ∷ record {
      action_family = "abort_material";
      dependencies = [];
      legal_parameters = "reason" ∷ [];
      required_evidence = "terminal_failure" ∷ [];
      expected_artifacts = "final_summary" ∷ "material_outcome" ∷ [];
      fallback_actions = [];
      cost_class = low;
      risk_class = high;
    }
    ∷ []

unfoldable pub find_spec : String → List ActionSpec → Option ActionSpec
find_spec family [] = none
find_spec family (s ∷ rest) = if s.action_family == family then some s else find_spec family rest

-- `get_action_spec`; a family that the registry does not hold raises in the source.
unfoldable pub get_action_spec : String → Option ActionSpec
unfolding find_spec
get_action_spec family = find_spec family action_registry

abbrev pub targeted_families : List String
targeted_families =
    "run_capability" ∷ "retry_capability" ∷ "rerun_from_capability" ∷ "refine_sampling"
    ∷ "revalidate_result" ∷ []

-- `bool(target_capability)`
abbrev pub has_target : Option String → Bool
has_target none = false
has_target (some t) = not (t == "")

abbrev is_registered : Option ActionSpec → Bool
is_registered none = false
is_registered (some s) = true

unfoldable pub action_is_legal : String → Option String → Params → Bool
action_is_legal family target parameters =
    if not (is_registered (get_action_spec family))
    then false
    else if contains family targeted_families
    then has_target target
    else if is_channel_family family
    then truthy (get "target_channels" parameters)
    else true
