-- ===== src/Checks/Stages.antt =====
-- Resumes and manual fixes at concrete inputs.
use d_mobility.Prelude.{◌≡◌, refl, true, false, not, [], ◌∷◌, none, some, all}
use d_mobility.Graph.Stages.{
  Stage, stage_of, stage_name, stage_before, same_stage, scf, band, relax, prepare, stage_index,
  previous_stage,
}
use d_mobility.Graph.Resume.{
  ok, ResumeRuleContract, ModificationType, ResumeStrategyName, validate_stage_name,
  resolve_strategy, or_strategy, or_policy, or_files, manual_fix_defaults, validate_resume_request,
  contract, incar, kpoints, poscar, default_rule, rerun_from_relax, rerun_previous_stage,
  retry_current_stage, restart_from_stage, resolve_resume_contract, invalidated_stages_for,
}
use d_mobility.Graph.Resume.Soundness.{IsCompatible, resolve_resume_contract_sound}
use d_mobility.Graph.Cleanup.{FileSystem}
use d_mobility.Hitl.ManualFix.{
  ManualFixInstruction, build_manual_fix_instruction, compute_default_resume_rule, instruction_of,
  choose_rule, build_custom_resume_rule,
}
use d_mobility.Hitl.ManualFix.Outcomes.{
  is_ok, default_accepts, default_rule_accepted, kpoints_refused_early,
  strategy_keeps_default_policy, build_manual_fix_instruction-IsCompatible,
}

abbrev poscar_contract : ResumeRuleContract
poscar_contract = record {
  modified_files = "POSCAR" ∷ [];
  modification_type = poscar;
  requested_resume_strategy = default_rule;
  resume_stage = relax;
  cleanup_policy = restart_from_stage;
  invalidated_stages = invalidated_stages_for relax restart_from_stage;
  warnings = [];
}

poscar_resolved : resolve_resume_contract "band" poscar none none none none ≡ ok poscar_contract
unfolding resolve_resume_contract validate_stage_name stage_of resolve_strategy or_strategy
    or_policy or_files manual_fix_defaults validate_resume_request stage_index contract stage_before
    invalidated_stages_for
poscar_resolved = refl

resolve_resume_contract_sound_example :
    (current : Stage) × (stage_of "band" ≡ some current)
    × IsCompatible current relax restart_from_stage
    × (poscar_contract.invalidated_stages ≡ invalidated_stages_for relax restart_from_stage)
    × (all (λ t. not (stage_before t relax)) poscar_contract.invalidated_stages ≡ true)
resolve_resume_contract_sound_example =
    resolve_resume_contract_sound "band" poscar none none none none poscar_resolved

default_rule_accepted_example :
    is_ok (compute_default_resume_rule (stage_name scf) kpoints) ≡ default_accepts kpoints scf
default_rule_accepted_example = default_rule_accepted scf kpoints

abbrev files : FileSystem
files = record {
  join = λ dir name. name;
  glob = λ pattern. [];
  exists = λ path. true;
  abspath = λ path. path;
}

kpoints_refused_early_example :
    is_ok (
      build_manual_fix_instruction files
        (stage_name scf)
        "/work"
        kpoints
        (some retry_current_stage)
        none
        none)
    ≡ false
unfolding stage_before stage_index
kpoints_refused_early_example =
    kpoints_refused_early files "/work" scf (some retry_current_stage) none none refl

strategy_keeps_default_policy_example :
    let fix = λ (t : ModificationType) (r : ResumeStrategyName).
      is_ok (build_manual_fix_instruction files (stage_name band) "/work" t (some r) none none) in
    (fix incar rerun_from_relax ≡ same_stage band relax)
    × (fix incar rerun_previous_stage ≡ same_stage band prepare)
    × (fix incar retry_current_stage ≡ true)
    × (fix kpoints retry_current_stage ≡ false)
strategy_keeps_default_policy_example = strategy_keeps_default_policy files "/work" band

abbrev poscar_instruction : ManualFixInstruction
poscar_instruction = instruction_of files "/work" poscar poscar_contract

poscar_built :
    build_manual_fix_instruction files "band" "/work" poscar none none none ≡ ok poscar_instruction
unfolding build_manual_fix_instruction choose_rule build_custom_resume_rule
    compute_default_resume_rule resolve_resume_contract validate_stage_name stage_of
    resolve_strategy or_strategy manual_fix_defaults validate_resume_request stage_index contract
    stage_before or_policy or_files previous_stage invalidated_stages_for
poscar_built = refl

build_manual_fix_instruction-IsCompatible_example :
    (current : Stage) × (stage_of "band" ≡ some current)
    × IsCompatible current poscar_instruction.resume_stage poscar_instruction.cleanup_policy
build_manual_fix_instruction-IsCompatible_example =
    build_manual_fix_instruction-IsCompatible files "/work" "band" poscar none none none
      poscar_built
