-- ===== src/Graph/Resume/Types.antt =====
-- mobility_agent/graph/stage_contracts.py: the data of a resume, what it raises, and the defaults of a
-- manual fix.
use d_mobility.Prelude.{String, List, [], ◌∷◌}
use d_mobility.Graph.Stages.{Stage}

pub data CleanupPolicyName : Type 0 where
  retry_current_stage_only invalidate_downstream restart_from_stage : CleanupPolicyName
  unlisted : String → CleanupPolicyName

pub data ModificationType : Type 0 where
  incar kpoints poscar multiple custom : ModificationType
  unlisted : String → ModificationType

pub data ResumeStrategyName : Type 0 where
  default_rule retry_current_stage rerun_previous_stage rerun_from_relax custom_stage :
      ResumeStrategyName
  unlisted : String → ResumeStrategyName

-- The `ManualFixValidationError`s, and `pydantic.ValidationError` as `invalid_contract`.
pub data Error : Type 0 where
  invalid_resume_stage invalid_requested_resume_strategy : String → Error
  custom_stage_requires_resume_stage invalid_contract : Error
  incompatible_resume_stage : Stage → Stage → Error
  requires_current_stage requires_restart_before_current_stage :
      CleanupPolicyName → Stage → Stage → Error

-- What a call raises, or its value.
pub data Result {u} (V : Type u) : Type u where
  raised : (error : Error) → Result V
  ok : (value : V) → Result V

module _ {u v} {V : Type u} {W : Type v} where
  infixl 5 ◌>>◌ ◌>>=◌
  abbrev pub ◌>>=◌ : Result V → (V → Result W) → Result W
  raised error >>= next = raised error
  ok value >>= next = next value

  abbrev pub ◌>>◌ : Result V → Result W → Result W
  call >> next = call >>= λ _. next

pub record ResumeRuleContract : Type 0 where
  pub modified_files : List String
  pub modification_type : ModificationType
  pub requested_resume_strategy : ResumeStrategyName
  pub resume_stage : Stage
  pub cleanup_policy : CleanupPolicyName
  pub invalidated_stages : List Stage
  pub warnings : List String

pub record ManualFixDefault : Type 0 where
  pub modified_files : List String
  pub requested_resume_strategy : ResumeStrategyName
  pub resume_stage_ref : String
  pub cleanup_policy : CleanupPolicyName
  pub warnings : List String

-- `MANUAL_FIX_DEFAULTS.get(modification_type, MANUAL_FIX_DEFAULTS["custom"])`
unfoldable pub manual_fix_defaults : ModificationType → ManualFixDefault
manual_fix_defaults incar = record {
  modified_files = "INCAR" ∷ [];
  requested_resume_strategy = default_rule;
  resume_stage_ref = "current";
  cleanup_policy = retry_current_stage_only;
  warnings = [];
}
manual_fix_defaults kpoints = record {
  modified_files = "KPOINTS" ∷ [];
  requested_resume_strategy = default_rule;
  resume_stage_ref = "scf";
  cleanup_policy = invalidate_downstream;
  warnings = [];
}
manual_fix_defaults poscar = record {
  modified_files = "POSCAR" ∷ [];
  requested_resume_strategy = default_rule;
  resume_stage_ref = "relax";
  cleanup_policy = restart_from_stage;
  warnings = [];
}
manual_fix_defaults multiple = record {
  modified_files = [];
  requested_resume_strategy = default_rule;
  resume_stage_ref = "relax";
  cleanup_policy = restart_from_stage;
  warnings = "explicit_confirmation_required_for_multiple_files" ∷ [];
}
manual_fix_defaults _ = record {
  modified_files = [];
  requested_resume_strategy = default_rule;
  resume_stage_ref = "current";
  cleanup_policy = retry_current_stage_only;
  warnings = [];
}
