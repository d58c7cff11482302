-- ===== src/Graph/Stages.antt =====
-- mobility_agent/graph/stage_contracts.py: the stages and their contracts. A stage name that the
-- tables hold is a `Stage`; any other text is refused by `validate_stage_name`.
use d_mobility.Prelude.{
  ℕ, suc, String, Bool, true, false, List, [], ◌∷◌, Option, none, some, ◌==◌, ltb, if◌then◌else◌,
}

pub data Stage : Type 0 where
  prepare relax scf band effective_mass strain_loop refinement mobility validation report : Stage

abbrev pub stage_order : List Stage
stage_order =
    prepare ∷ relax ∷ scf ∷ band ∷ effective_mass ∷ strain_loop ∷ refinement ∷ mobility ∷ validation
    ∷ report ∷ []

abbrev pub stage_name : Stage → String
stage_name prepare = "prepare"
stage_name relax = "relax"
stage_name scf = "scf"
stage_name band = "band"
stage_name effective_mass = "effective_mass"
stage_name strain_loop = "strain_loop"
stage_name refinement = "refinement"
stage_name mobility = "mobility"
stage_name validation = "validation"
stage_name report = "report"

abbrev pub same_stage : Stage → Stage → Bool
same_stage a b = stage_name a == stage_name b

find_stage : String → List Stage → Option Stage
find_stage text [] = none
find_stage text (s ∷ rest) = if stage_name s == text then some s else find_stage text rest

-- The stage of a text that is a key of the tables.
unfoldable pub stage_of : String → Option Stage
unfolding find_stage
stage_of text = find_stage text stage_order

position : Stage → List Stage → ℕ
position s [] = 0
position s (t ∷ rest) = if same_stage t s then 0 else suc (position s rest)

-- `STAGE_ORDER.index(stage)`
unfoldable pub stage_index : Stage → ℕ
unfolding position
stage_index s = position s stage_order

after : Stage → List Stage → List Stage
after s [] = []
after s (t ∷ rest) = if same_stage t s then rest else after s rest

unfoldable pub downstream_from : Stage → List Stage
unfolding after
downstream_from s = after s stage_order

pub record StageContract : Type 0 where
  pub stage : Stage
  pub required_inputs : List String
  pub canonical_outputs : List String
  pub failure_outputs : List String
  pub retryable : Bool
  pub invalidates_downstream : List Stage
  pub artifact_patterns : List String

unfoldable pub get_stage_contract : Stage → StageContract
unfolding downstream_from
get_stage_contract prepare = record {
  stage = prepare;
  required_inputs = "task.root_path" ∷ "material.poscar_path" ∷ "material.potcar_path" ∷ [];
  canonical_outputs =
      "execution.workdir" ∷ "material.structure_summary" ∷ "material.preflight_summary"
      ∷ "execution.environment_summary" ∷ [];
  failure_outputs = "diagnostics.last_error" ∷ "diagnostics.raw_evidence.prepare" ∷ [];
  retryable = true;
  invalidates_downstream = downstream_from prepare;
  artifact_patterns = [];
}
get_stage_contract relax = record {
  stage = relax;
  required_inputs = "execution.workdir" ∷ "material.poscar_path" ∷ "material.potcar_path" ∷ [];
  canonical_outputs =
      "physics_results.relaxed_structure_path" ∷ "physics_results.reciprocal_lattice"
      ∷ "physics_results.relax_summary" ∷ [];
  failure_outputs = "diagnostics.recovery_summary" ∷ "diagnostics.raw_evidence.relax" ∷ [];
  retryable = true;
  invalidates_downstream =
      scf ∷ band ∷ effective_mass ∷ strain_loop ∷ mobility ∷ validation ∷ report ∷ [];
  artifact_patterns = "01_relax" ∷ [];
}
get_stage_contract scf = record {
  stage = scf;
  required_inputs = "physics_results.relaxed_structure_path" ∷ "material.potcar_path" ∷ [];
  canonical_outputs =
      "physics_results.fermi_energy" ∷ "execution.artifact_paths.CHGCAR"
      ∷ "physics_results.scf_summary" ∷ [];
  failure_outputs = "diagnostics.last_error" ∷ "diagnostics.raw_evidence.scf" ∷ [];
  retryable = true;
  invalidates_downstream =
      band ∷ effective_mass ∷ strain_loop ∷ mobility ∷ validation ∷ report ∷ [];
  artifact_patterns = "02_scf" ∷ [];
}
get_stage_contract band = record {
  stage = band;
  required_inputs = "physics_results.relaxed_structure_path" ∷ "material.potcar_path" ∷ [];
  canonical_outputs =
      "physics_results.band_summary" ∷ "physics_results.vbm_energy" ∷ "physics_results.cbm_energy"
      ∷ [];
  failure_outputs = "diagnostics.last_error" ∷ "diagnostics.raw_evidence.band" ∷ [];
  retryable = true;
  invalidates_downstream = effective_mass ∷ mobility ∷ validation ∷ report ∷ [];
  artifact_patterns = "03_band" ∷ [];
}
get_stage_contract effective_mass = record {
  stage = effective_mass;
  required_inputs = "physics_results.band_summary" ∷ "physics_results.reciprocal_lattice" ∷ [];
  canonical_outputs = "physics_results.masses" ∷ "physics_results.effective_mass_summary" ∷ [];
  failure_outputs = "diagnostics.last_error" ∷ "diagnostics.raw_evidence.effective_mass" ∷ [];
  retryable = true;
  invalidates_downstream = mobility ∷ validation ∷ report ∷ [];
  artifact_patterns = "04_effmass_*" ∷ [];
}
get_stage_contract strain_loop = record {
  stage = strain_loop;
  required_inputs = "physics_results.relaxed_structure_path" ∷ "material.potcar_path" ∷ [];
  canonical_outputs = "physics_results.strain_data" ∷ "diagnostics.strain_summary" ∷ [];
  failure_outputs = "diagnostics.last_error" ∷ "diagnostics.raw_evidence.strain_loop" ∷ [];
  retryable = true;
  invalidates_downstream = mobility ∷ validation ∷ report ∷ [];
  artifact_patterns = "05_strain" ∷ [];
}
get_stage_contract refinement = record {
  stage = refinement;
  required_inputs = "diagnostics.strain_summary" ∷ "workflow.refinement_rounds" ∷ [];
  canonical_outputs =
      "workflow.refinement_rounds" ∷ "physics_results.accepted_channels"
      ∷ "physics_results.rejected_channels" ∷ [];
  failure_outputs = "diagnostics.consultation_trace" ∷ [];
  retryable = false;
  invalidates_downstream = mobility ∷ validation ∷ report ∷ [];
  artifact_patterns = [];
}
get_stage_contract mobility = record {
  stage = mobility;
  required_inputs = "physics_results.strain_data" ∷ "physics_results.masses" ∷ [];
  canonical_outputs =
      "physics_results.mobility" ∷ "physics_results.E1" ∷ "physics_results.C2D"
      ∷ "physics_results.mobility_summary" ∷ "diagnostics.fit_diagnostics" ∷ [];
  failure_outputs = "diagnostics.last_error" ∷ "diagnostics.raw_evidence.mobility" ∷ [];
  retryable = true;
  invalidates_downstream = validation ∷ report ∷ [];
  artifact_patterns =
      "mobility_results.json" ∷ "fit_diagnostics.json" ∷ "decision_trace.json" ∷ "tool_trace.json"
      ∷ "recovery_trace.json" ∷ "validation_report.json" ∷ "final_summary.json" ∷ "strain_data.csv"
      ∷ "strain_status.csv" ∷ "material_outcome.json" ∷ [];
}
get_stage_contract validation = record {
  stage = validation;
  required_inputs = "physics_results.mobility" ∷ "diagnostics.fit_diagnostics" ∷ [];
  canonical_outputs = "diagnostics.validation_report" ∷ "diagnostics.confidence_score" ∷ [];
  failure_outputs = "diagnostics.validation_report" ∷ [];
  retryable = false;
  invalidates_downstream = report ∷ [];
  artifact_patterns =
      "validation_report.json" ∷ "final_summary.json" ∷ "material_outcome.json" ∷ [];
}
get_stage_contract report = record {
  stage = report;
  required_inputs = "diagnostics.validation_report" ∷ "execution.artifact_paths" ∷ [];
  canonical_outputs = "execution.artifact_paths.final_summary_path" ∷ [];
  failure_outputs = "diagnostics.last_error" ∷ "diagnostics.raw_evidence.report" ∷ [];
  retryable = false;
  invalidates_downstream = [];
  artifact_patterns = "final_summary.json" ∷ "material_outcome.json" ∷ [];
}

-- `stage_before`, on stages that the order holds
unfoldable pub stage_before : Stage → Stage → Bool
unfolding stage_index
stage_before left right = ltb (stage_index left) (stage_index right)

unfoldable pub downstream_stages : Stage → List Stage
unfolding get_stage_contract
downstream_stages s = (get_stage_contract s).invalidates_downstream

before : Stage → Option Stage → List Stage → Option Stage
before s last [] = none
before s last (t ∷ rest) = if same_stage t s then last else before s (some t) rest

-- `find_previous_stage` on a stage of the order
unfoldable pub previous_stage : Stage → Option Stage
unfolding before
previous_stage s = before s none stage_order
