-- ===== src/Checks/Controller.antt =====
-- The decisions of the controller at concrete inputs.
use d_mobility.Prelude.{◌+◌, ◌≡◌, refl, true, [], ◌∷◌, some, strip}
use d_mobility.Agents.Guardrail.{support}
use d_mobility.Runtime.Controller.Retries.{count_of, Retried, ensure_retry_accounted}
use d_mobility.Runtime.Controller.Accounted.{IsAccounted, ensure_retry_accounted-IsAccounted}
use d_mobility.Runtime.Controller.Plan.{
  segment_council, strict, balanced, permissive, planned_capabilities,
}
use d_mobility.Runtime.Controller.Chain.{is_chain, ends_in, planned_capabilities-IsPlan}
use d_mobility.Runtime.Controller.Council.{Brief, requires_cost_guardian, requires_critic}
use d_mobility.Runtime.Controller.Strictness.{implies, strictness_is_monotone}

abbrev retried : Retried
retried = record {
  execution_counts = ("relax", 1) ∷ ("scf", 2) ∷ [];
  workflow_counts = [];
  error_summary = "";
}

ensure_retry_accounted-IsAccounted_example :
    IsAccounted retried
      (strip "relax")
      (count_of (strip "relax") (("relax", 1) ∷ []) + 1)
      (ensure_retry_accounted retried "retry_capability" (some "relax") (("relax", 1) ∷ []))
unfolding strip
ensure_retry_accounted-IsAccounted_example =
    ensure_retry_accounted-IsAccounted retried "retry_capability" (some "relax") (("relax", 1) ∷ [])
      refl refl refl

planned_capabilities-IsPlan_example :
    (is_chain
        (planned_capabilities balanced "failure:scf" segment_council "retry_capability" "scf").0
      ≡ true)
    × (ends_in
          (planned_capabilities balanced "failure:scf" segment_council "retry_capability" "scf").0
          (planned_capabilities balanced "failure:scf" segment_council "retry_capability" "scf").1
        ≡ true)
planned_capabilities-IsPlan_example =
    planned_capabilities-IsPlan balanced "failure:scf" segment_council "retry_capability" "scf"

abbrev brief : Brief
brief = record {
  action_family = "run_capability";
  target_capability = some "scf";
  parameters = "{}";
  cost_class = "medium";
}

strictness_is_monotone_example :
    (implies
        (requires_cost_guardian permissive segment_council (brief ∷ []))
        (requires_cost_guardian balanced segment_council (brief ∷ []))
      ≡ true)
    × (implies
          (requires_critic permissive segment_council (brief ∷ []) (support ∷ []))
          (requires_critic balanced segment_council (brief ∷ []) (support ∷ []))
        ≡ true)
    × (requires_cost_guardian strict segment_council (brief ∷ []) ≡ true)
    × (requires_critic strict segment_council (brief ∷ []) (support ∷ []) ≡ true)
strictness_is_monotone_example = strictness_is_monotone segment_council brief [] (support ∷ [])
