-- ===== src/Runtime/Controller/Council.antt =====
-- mobility_agent/runtime/agentic_controller.py: which council meets, and which agents it needs.
use text.Mathlib.Text.{starts_with}
use d_mobility.Prelude.{
  ℕ, String, Bool, true, false, not, ◌&&◌, ◌||◌, List, [], ◌∷◌, Option, ◌==◌, contains, any,
  is_empty, leb, length, strip, or_text, dedupe_keep_order, if◌then◌else◌,
}
use d_mobility.Runtime.Sampling.{lower_is}
use d_mobility.Agents.Guardrail.{Stance, is_objection}
use d_mobility.Runtime.Controller.Plan.{
  Council, failure_council, validation_followup_council, segment_council, PolicyMode, strict,
  balanced, permissive, is_validation_followup,
}

-- `_council_mode`, of the reason and the latest observation.
unfoldable pub council_mode : String → String → String → Council
council_mode reason latest_status latest_target =
    if starts_with reason "failure"
    then failure_council
    else if contains reason ("validation_followup" ∷ "post_mobility_quality_review" ∷ [])
        || starts_with reason "anomaly:validation"
    then validation_followup_council
    else if starts_with reason "resume"
    then (if latest_status == "failed"
        then failure_council
        else if latest_target == "validation"
        then validation_followup_council
        else segment_council)
    else segment_council

-- What the tests read of a proposal; the parameters are their canonical JSON text.
pub record Brief : Type 0 where
  pub action_family : String
  pub target_capability : Option String
  pub parameters : String
  pub cost_class : String

abbrev same_key : Brief → Brief → Bool
same_key a b =
    a.action_family == b.action_family
    && or_text a.target_capability "" == or_text b.target_capability ""
    && a.parameters == b.parameters

-- `_distinct_proposal_count`
unfoldable pub distinct_proposal_count : List Brief → ℕ
distinct_proposal_count proposals = length (dedupe_keep_order same_key proposals)

abbrev pub expensive_actions : List String
expensive_actions =
    "refine_sampling" ∷ "retry_capability" ∷ "rerun_from_capability" ∷ "skip_channel"
    ∷ "invalidate_channel" ∷ "finalize_material" ∷ []

-- `cost_class in medium_costs`, which is only "high" for a permissive policy
unfoldable pub is_costly : PolicyMode → Brief → Bool
is_costly permissive p = lower_is (strip p.cost_class) "high"
is_costly strict p = lower_is (strip p.cost_class) "medium" || lower_is (strip p.cost_class) "high"
is_costly balanced p =
    lower_is (strip p.cost_class) "medium" || lower_is (strip p.cost_class) "high"

abbrev is_failure : Council → Bool
is_failure failure_council = true
is_failure _ = false

abbrev pub is_expensive : Brief → Bool
is_expensive p = contains p.action_family expensive_actions

-- `_requires_cost_guardian`, behind the test for a strict policy
unfoldable pub guards_cost : PolicyMode → Council → List Brief → Bool
unfolding is_costly
guards_cost mode council proposals =
    if is_validation_followup council
    then true
    else if is_failure council
    then any is_expensive proposals
    else any (λ p. is_expensive p || is_costly mode p) proposals

unfoldable pub requires_cost_guardian : PolicyMode → Council → List Brief → Bool
unfolding guards_cost
requires_cost_guardian strict council proposals = not (is_empty proposals)
requires_cost_guardian balanced council proposals = guards_cost balanced council proposals
requires_cost_guardian permissive council proposals = guards_cost permissive council proposals

-- `_requires_critic`, of the stances of the critiques
unfoldable pub by_objection : ℕ → List Brief → List Stance → Bool
unfolding distinct_proposal_count
by_objection least proposals stances =
    if any is_objection stances then true else leb least (distinct_proposal_count proposals)

unfoldable pub requires_critic : PolicyMode → Council → List Brief → List Stance → Bool
unfolding by_objection
requires_critic mode council proposals stances =
    if is_validation_followup council then true else (elim mode [
      | strict ↦ not (is_empty proposals)
      | balanced ↦ by_objection 2 proposals stances
      | permissive ↦ by_objection 3 proposals stances
    ])

-- `_should_include_recovery`
unfoldable pub should_include_recovery : String → String → Bool
should_include_recovery latest_status reason =
    latest_status == "failed" || starts_with reason "failure" || starts_with reason "resume"
