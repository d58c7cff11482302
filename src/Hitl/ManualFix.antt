-- ===== src/Hitl/ManualFix.antt =====
-- mobility_agent/hitl/manual_fix.py and resume_rules.py: the instruction that a manual fix builds.
-- The prompts and prints around it are not modelled.
pub mod Outcomes
use d_mobility.Prelude.{
  String, Bool, not, ◌||◌, List, [], ◌∷◌, ◌++◌, Option, none, some, ◌==◌, contains, dedupe_texts,
  dedupe_keep_order, or_text, if◌then◌else◌,
}
use d_mobility.Graph.Stages.{Stage, stage_name, same_stage}
use d_mobility.Graph.Resume.{
  ◌>>=◌, Result, ok, CleanupPolicyName, retry_current_stage_only, invalidate_downstream,
  restart_from_stage, ModificationType, incar, kpoints, poscar, multiple, custom,
  ResumeStrategyName, default_rule, retry_current_stage, rerun_previous_stage, rerun_from_relax,
  custom_stage, ResumeRuleContract, or_policy, or_strategy, resolve_resume_contract,
}
use d_mobility.Graph.Cleanup.{FileSystem, CleanupPreview, build_cleanup_preview}

-- The text of a value of a `Literal` type, by which the source compares it.
abbrev pub policy_name : CleanupPolicyName → String
policy_name retry_current_stage_only = "retry_current_stage_only"
policy_name invalidate_downstream = "invalidate_downstream"
policy_name restart_from_stage = "restart_from_stage"
policy_name (CleanupPolicyName.unlisted text) = text

abbrev pub strategy_name : ResumeStrategyName → String
strategy_name default_rule = "default_rule"
strategy_name retry_current_stage = "retry_current_stage"
strategy_name rerun_previous_stage = "rerun_previous_stage"
strategy_name rerun_from_relax = "rerun_from_relax"
strategy_name custom_stage = "custom_stage"
strategy_name (ResumeStrategyName.unlisted text) = text

abbrev pub modification_name : ModificationType → String
modification_name incar = "INCAR"
modification_name kpoints = "KPOINTS"
modification_name poscar = "POSCAR"
modification_name multiple = "multiple"
modification_name custom = "custom"
modification_name (ModificationType.unlisted text) = text

unfoldable pub compute_default_resume_rule : String → ModificationType → Result ResumeRuleContract
compute_default_resume_rule current_stage modification =
    resolve_resume_contract current_stage modification (some default_rule) none none none

unfoldable pub build_custom_resume_rule :
    String
    → CleanupPolicyName
    → List String
    → Option String
    → ModificationType
    → ResumeStrategyName
    → Result ResumeRuleContract
build_custom_resume_rule resume_stage policy files current_stage modification strategy =
    resolve_resume_contract (or_text current_stage resume_stage) modification (some strategy)
      (some resume_stage) (some policy) (some files)

pub record ManualFixInstruction : Type 0 where
  pub modified_files : List String
  pub modification_type : ModificationType
  pub requested_resume_strategy : ResumeStrategyName
  pub resume_stage : Stage
  pub cleanup_policy : CleanupPolicyName
  pub invalidated_stages : List Stage
  pub invalidated_artifacts : List String
  pub preview_warnings : List String

-- The default rule, or the custom rule where a choice differs from the default.
unfoldable pub choose_rule :
    String
    → ModificationType
    → Option ResumeStrategyName
    → Option String
    → Option CleanupPolicyName
    → ResumeRuleContract
    → Result ResumeRuleContract
choose_rule current_stage modification requested selected_stage selected_policy base =
    let strategy = or_strategy requested base.requested_resume_strategy in
    let s = or_text selected_stage (stage_name base.resume_stage) in
    let policy = or_policy selected_policy base.cleanup_policy in
    if not (strategy_name strategy == strategy_name base.requested_resume_strategy)
      || not (s == stage_name base.resume_stage)
      || not (policy_name policy == policy_name base.cleanup_policy)
    then build_custom_resume_rule s policy base.modified_files (some current_stage) modification
        strategy
    else ok base

-- `[modification_type] if modification_type not in list(base_rule.modified_files or []) else []`
abbrev type_if_new : ModificationType → List String → List String
type_if_new modification files =
    if contains (modification_name modification) files
    then []
    else modification_name modification ∷ []

unfoldable pub instruction_of :
    FileSystem → String → ModificationType → ResumeRuleContract → ManualFixInstruction
instruction_of fs workdir modification rule =
    let cleanup = build_cleanup_preview fs workdir rule.resume_stage rule.cleanup_policy in
    record {
      modified_files =
          dedupe_texts (rule.modified_files ++ type_if_new modification rule.modified_files);
      modification_type = modification;
      requested_resume_strategy = rule.requested_resume_strategy;
      resume_stage = rule.resume_stage;
      cleanup_policy = rule.cleanup_policy;
      invalidated_stages = dedupe_keep_order same_stage cleanup.invalidated_stages;
      invalidated_artifacts = dedupe_texts cleanup.invalidated_artifacts;
      preview_warnings = dedupe_texts (cleanup.warnings ++ rule.warnings);
    }

unfoldable pub build_manual_fix_instruction :
    FileSystem
    → String
    → String
    → ModificationType
    → Option ResumeStrategyName
    → Option String
    → Option CleanupPolicyName
    → Result ManualFixInstruction
build_manual_fix_instruction fs current_stage workdir modification requested selected_stage
      selected_policy =
    do
      base ← compute_default_resume_rule current_stage modification
      rule ← choose_rule current_stage modification requested selected_stage selected_policy base
      ok (instruction_of fs workdir modification rule)
