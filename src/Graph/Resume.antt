-- ===== src/Graph/Resume.antt =====
-- mobility_agent/graph/stage_contracts.py: the rules that decide from which stage a run resumes
-- after a manual fix. What raises in the source is a `raised`. A caller can hand over a text that is
-- not among the values of a `Literal` type: that is the constructor `unlisted`.
pub mod Soundness
mod Types
unfoldable pub use Types.*
use d_mobility.Prelude.{
  String, Bool, true, false, not, ◌&&◌, is_blank, List, [], ◌∷◌, ◌++◌, Option, none, some, ◌==◌,
  dedupe_texts, ltb, if◌then◌else◌,
}
use d_mobility.Graph.Stages.{
  Stage, stage_of, stage_name, same_stage, stage_index, previous_stage, downstream_stages, relax,
}

unfoldable pub validate_stage_name : String → Result Stage
validate_stage_name text = elim (stage_of text) [
  | none ↦ raised (invalid_resume_stage text)
  | some s ↦ ok s
]

-- The two arguments are the validated stages.
unfoldable pub default_cleanup_policy : Stage → Stage → CleanupPolicyName
default_cleanup_policy current target =
    if same_stage target current
    then retry_current_stage_only
    else if same_stage target relax
    then restart_from_stage
    else invalidate_downstream

unfoldable pub default_cleanup_policy_for_resume_stage : String → String → Result CleanupPolicyName
unfolding validate_stage_name default_cleanup_policy
default_cleanup_policy_for_resume_stage current_stage resume_stage = do
  current ← validate_stage_name current_stage
  target ← validate_stage_name resume_stage
  ok (default_cleanup_policy current target)

-- `current` has passed `validate_stage_name` at the only caller.
unfoldable pub resolve_stage_reference : Stage → String → Result (Stage × List String)
unfolding validate_stage_name
resolve_stage_reference current stage_ref =
    if stage_ref == "current"
    then ok (current, [])
    else if stage_ref == "previous"
    then elim (previous_stage current) [
      | none ↦ ok (current, "no_previous_stage_available_using_current_stage" ∷ [])
      | some previous ↦ ok (previous, [])
    ]
    else (do s ← validate_stage_name stage_ref; ok (s, []))

unfoldable pub invalidated_stages_for : Stage → CleanupPolicyName → List Stage
invalidated_stages_for s retry_current_stage_only = s ∷ []
invalidated_stages_for s invalidate_downstream = downstream_stages s
invalidated_stages_for s _ = s ∷ downstream_stages s

abbrev is_retry_current : CleanupPolicyName → Bool
is_retry_current retry_current_stage_only = true
is_retry_current _ = false

abbrev is_invalidate : CleanupPolicyName → Bool
is_invalidate invalidate_downstream = true
is_invalidate _ = false

unfoldable pub validate_resume_request : Stage → Stage → CleanupPolicyName → Result Stage
validate_resume_request current target policy =
    if ltb (stage_index current) (stage_index target)
    then raised (incompatible_resume_stage target current)
    else if is_retry_current policy && not (same_stage target current)
    then raised (requires_current_stage policy current target)
    else if is_invalidate policy && same_stage target current
    then raised (requires_restart_before_current_stage policy current target)
    else ok target

-- What `ResumeRuleContract(...)` accepts for its `Literal` fields.
abbrev policy_listed : CleanupPolicyName → Bool
policy_listed (CleanupPolicyName.unlisted _) = false
policy_listed _ = true

abbrev type_listed : ModificationType → Bool
type_listed (ModificationType.unlisted _) = false
type_listed _ = true

-- `selected_cleanup_policy or fallback`: an empty text counts as missing.
unfoldable pub or_policy : Option CleanupPolicyName → CleanupPolicyName → CleanupPolicyName
or_policy (some (CleanupPolicyName.unlisted text)) fallback =
    if text == "" then fallback else CleanupPolicyName.unlisted text
or_policy (some policy) fallback = policy
or_policy none fallback = fallback

-- `requested_resume_strategy or defaults.get(...)`
unfoldable pub or_strategy : Option ResumeStrategyName → ResumeStrategyName → ResumeStrategyName
or_strategy (some (ResumeStrategyName.unlisted text)) fallback =
    if text == "" then fallback else ResumeStrategyName.unlisted text
or_strategy (some strategy) fallback = strategy
or_strategy none fallback = fallback

-- `list(modified_files or defaults.get("modified_files", []))`
unfoldable pub or_files : Option (List String) → List String → List String
or_files (some (f ∷ files)) fallback = f ∷ files
or_files _ fallback = fallback

pub record Resolved : Type 0 where
  pub stage : Stage
  pub policy : CleanupPolicyName
  pub stage_warnings : List String

-- The branches on `requested`: the stage, the cleanup policy and the added warnings.
unfoldable pub resolve_strategy :
    Stage
    → ManualFixDefault
    → Option String
    → Option CleanupPolicyName
    → ResumeStrategyName
    → Result Resolved
unfolding resolve_stage_reference validate_stage_name default_cleanup_policy or_policy is_blank
resolve_strategy current defaults selected_stage selected_policy default_rule = do
  (s, added) ← resolve_stage_reference current defaults.resume_stage_ref
  ok (record {
    stage = s;
    policy = or_policy (some defaults.cleanup_policy) (default_cleanup_policy current s);
    stage_warnings = added;
  })
resolve_strategy current defaults selected_stage selected_policy retry_current_stage = ok (record {
  stage = current;
  policy = or_policy selected_policy retry_current_stage_only;
  stage_warnings = [];
})
resolve_strategy current defaults selected_stage selected_policy rerun_previous_stage = do
  (s, added) ← resolve_stage_reference current "previous"
  ok (record {
    stage = s;
    policy = or_policy selected_policy (default_cleanup_policy current s);
    stage_warnings = added;
  })
resolve_strategy current defaults selected_stage selected_policy rerun_from_relax = ok (record {
  stage = relax;
  policy = or_policy selected_policy restart_from_stage;
  stage_warnings = [];
})
resolve_strategy current defaults none selected_policy custom_stage =
    raised custom_stage_requires_resume_stage
resolve_strategy current defaults (some text) selected_policy custom_stage =
    if is_blank text then raised custom_stage_requires_resume_stage else (do
      s ← validate_stage_name text
      ok (record {
        stage = s;
        policy = or_policy selected_policy (default_cleanup_policy current s);
        stage_warnings = [];
      }))
resolve_strategy current defaults selected_stage selected_policy
      (ResumeStrategyName.unlisted text) =
    raised (invalid_requested_resume_strategy text)

-- The construction of the contract, whose `Literal` fields pydantic checks.
unfoldable pub contract :
    ModificationType
    → ResumeStrategyName
    → List String
    → List String
    → Resolved
    → Result ResumeRuleContract
contract modification requested files warnings r =
    if policy_listed r.policy && type_listed modification
    then ok (record {
      modified_files = files;
      modification_type = modification;
      requested_resume_strategy = requested;
      resume_stage = r.stage;
      cleanup_policy = r.policy;
      invalidated_stages = invalidated_stages_for r.stage r.policy;
      warnings = dedupe_texts (warnings ++ r.stage_warnings);
    })
    else raised invalid_contract

unfoldable pub resolve_resume_contract :
    String
    → ModificationType
    → Option ResumeStrategyName
    → Option String
    → Option CleanupPolicyName
    → Option (List String)
    → Result ResumeRuleContract
resolve_resume_contract current_stage modification requested selected_stage selected_policy
      modified_files =
    do
      current ← validate_stage_name current_stage
      let defaults = manual_fix_defaults modification
      let strategy = or_strategy requested defaults.requested_resume_strategy
      r ← resolve_strategy current defaults selected_stage selected_policy strategy
      validate_resume_request current r.stage r.policy
      contract modification strategy (or_files modified_files defaults.modified_files)
          defaults.warnings r
