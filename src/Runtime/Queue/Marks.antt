-- ===== src/Runtime/Queue/Marks.antt =====
-- mobility_agent/runtime/mongo_batch.py: the marks at the end of a material. A value that the code
-- only passes on is its text, under the constructor `payload`.
use d_mobility.Prelude.{
  ℕ, String, List, [], ◌∷◌, ◌++◌, Option, none, some, ◌==◌, strip, or_text, if◌then◌else◌,
}
use d_mobility.Runtime.Queue.Documents.{Field, text, time, payload, labels, Update, Collection}

-- What the code reads of a validation, and of the summary of the agents.
pub record Validation : Type 0 where
  pub content : String
  pub decision : Option String
  pub quality_grade : Option String

pub record AgentSummary : Type 0 where
  pub content : String
  pub admission : Option String
  pub warnings : Option String

-- The keyword arguments that both marks have, and those of `mark_completed` only.
pub record Report : Type 0 where
  pub run_dir : String
  pub decision_engine : Option String
  pub llm_required : Option String
  pub agent_summary : Option AgentSummary
  pub validation : Option Validation
  pub confidence_score : Option String
  pub decision_trace_path : Option String
  pub final_summary_path : Option String
  pub final_status : Option String
  pub termination_reason : Option String
  pub final_acceptance : Option String
  pub quality_grade : Option String
  pub accepted_channels : Option String
  pub rejected_channels : Option String
  pub round_index : Option String  -- an integer, by its digits
  pub round_id : Option String
  pub pipeline_run_id : Option String

pub record Completion : Type 0 where
  pub report : Report
  pub results : String
  pub quality_label : Option String
  pub potcar_used : Option String
  pub warnings : Option String
  pub recovery_summary : Option String
  pub refinement_summary : Option String

abbrev pub Entries : Type 0
Entries = List (String × Field)

-- Keys with the value that they get, if there is one.
abbrev pub Choices : Type 0
Choices = List (String × Option Field)

-- The entries of the values that are there, and the keys of those that are `None`.
unfoldable pub entries : Choices → Entries
entries [] = []
entries ((k, o) ∷ rest) =
    let others = entries rest in elim o [ none ↦ others | some v ↦ (k, v) ∷ others ]

unfoldable pub missing_keys : Choices → List String
missing_keys [] = []
missing_keys ((k, o) ∷ rest) =
    let others = missing_keys rest in elim o [ none ↦ k ∷ others | some v ↦ others ]

abbrev passed : Option String → Option Field
passed none = none
passed (some t) = some (payload t)

abbrev or_none : String → Option String
or_none t = if t == "" then none else some t

abbrev read_text : Option String → Option String
read_text o = or_none (strip (or_text o ""))

abbrev read_validation : (Validation → Option String) → Option Validation → Option String
read_validation field none = none
read_validation field (some v) = read_text (field v)

abbrev or_option : Option String → Option String → Option String
or_option none other = other
or_option (some v) other = some v

-- `final_acceptance` and `quality_grade`, from the validation where they are not given
unfoldable pub acceptance_of : Report → Option String
acceptance_of r =
    or_option r.final_acceptance (read_validation (λ (v : Validation). v.decision) r.validation)

unfoldable pub grade_of : Report → Option String
grade_of r =
    or_option r.quality_grade (read_validation (λ (v : Validation). v.quality_grade) r.validation)

-- `_round_metadata_set_fields`
unfoldable pub round_metadata : Report → Choices
round_metadata r =
    ("mobility_calc.round_index", passed r.round_index)
    ∷ ("mobility_calc.round_id", passed (read_text r.round_id))
    ∷ ("mobility_calc.pipeline_run_id", passed (read_text r.pipeline_run_id))
    ∷ []

abbrev pub terminal_success_unset : List String
terminal_success_unset =
    "mobility_calc.error" ∷ "mobility_calc.failed_at" ∷ "mobility_agent.error"
    ∷ "mobility_agent.failed_at" ∷ []

abbrev pub terminal_non_success_unset : List String
terminal_non_success_unset =
    "mobility_calc.results" ∷ "mobility_calc.quality_label" ∷ "mobility_calc.scientific_decision"
    ∷ "mobility_calc.quality_grade" ∷ "mobility_calc.accepted_channels"
    ∷ "mobility_calc.rejected_channels" ∷ "mobility_calc.channel_labels"
    ∷ "mobility_calc.completed_at" ∷ "mobility_agent.completed_at" ∷ []

abbrev content_of : Option Validation → Option Field
content_of none = none
content_of (some v) = some (payload v.content)

abbrev labels_of : Option Validation → Option Field
labels_of none = none
labels_of (some v) = some (labels v.content)

abbrev summary_of : (AgentSummary → Option String) → Option AgentSummary → Option String
summary_of field none = none
summary_of field (some a) = field a

-- What a completion sets or unsets under `mobility_calc`, as it is there or not.
unfoldable pub calc_choices : Completion → Choices
unfolding acceptance_of grade_of
calc_choices c =
    let r = c.report in
    ("mobility_calc.quality_label", passed c.quality_label)
    ∷ ("mobility_calc.channel_labels", labels_of r.validation)
    ∷ ("mobility_calc.scientific_decision", passed (acceptance_of r))
    ∷ ("mobility_calc.quality_grade", passed (grade_of r))
    ∷ ("mobility_calc.accepted_channels", passed r.accepted_channels)
    ∷ ("mobility_calc.rejected_channels", passed r.rejected_channels)
    ∷ []

-- What both marks set under `mobility_agent`, and what a failure unsets where it is not there.
unfoldable pub agent_values : Report → Choices
agent_values r =
    ("mobility_agent.decision_engine", passed r.decision_engine)
    ∷ ("mobility_agent.llm_required", passed r.llm_required)
    ∷ (
      "mobility_agent.summary",
      passed (summary_of (λ (a : AgentSummary). some a.content) r.agent_summary),
    )
    ∷ ("mobility_agent.confidence_score", passed r.confidence_score)
    ∷ ("mobility_agent.decision_trace_path", passed r.decision_trace_path)
    ∷ ("mobility_agent.final_summary_path", passed r.final_summary_path)
    ∷ ("mobility_agent.termination_reason", passed r.termination_reason)
    ∷ []

unfoldable pub agent_choices : Report → Choices
unfolding acceptance_of grade_of
agent_choices r =
    ("mobility_agent.validation", content_of r.validation)
    ∷ ("mobility_agent.final_acceptance", passed (acceptance_of r))
    ∷ ("mobility_agent.quality_grade", passed (grade_of r))
    ∷ ("mobility_agent.accepted_channels", passed r.accepted_channels)
    ∷ ("mobility_agent.rejected_channels", passed r.rejected_channels)
    ∷ []

-- What a completion sets besides; the warnings given take the place of those of the summary.
unfoldable pub completed_values : Completion → ℕ → Choices
completed_values c now =
    let r = c.report in
    ("mobility_calc.status", some (text "completed"))
    ∷ ("mobility_calc.completed_at", some (time now))
    ∷ ("mobility_calc.run_dir", some (payload r.run_dir))
    ∷ ("mobility_calc.results", some (payload c.results))
    ∷ ("mobility_calc.potcar_used", passed c.potcar_used)
    ∷ ("mobility_agent.completed_at", some (time now))
    ∷ ("mobility_agent.status", some (text "completed"))
    ∷ ("mobility_agent.final_status", some (payload (or_text r.final_status "completed")))
    ∷ (
      "mobility_agent.admission",
      passed (summary_of (λ (a : AgentSummary). a.admission) r.agent_summary),
    )
    ∷ (
      "mobility_agent.warnings",
      passed (or_option c.warnings (summary_of (λ (a : AgentSummary). a.warnings) r.agent_summary)),
    )
    ∷ ("mobility_agent.recovery_summary", passed c.recovery_summary)
    ∷ ("mobility_agent.refinement_summary", passed c.refinement_summary)
    ∷ []

abbrev pub completed_others : Completion → ℕ → Choices
completed_others c now =
    completed_values c now
    ++ round_metadata c.report
    ++ agent_values c.report
    ++ agent_choices c.report

unfoldable pub completed_update : Completion → ℕ → Update
unfolding calc_choices completed_values round_metadata agent_values agent_choices entries
    missing_keys
completed_update c now = record {
  set = entries (completed_others c now ++ calc_choices c);
  unset = terminal_success_unset ++ missing_keys (calc_choices c);
}

unfoldable pub failed_values : Report → String → ℕ → Choices
failed_values r error now =
    ("mobility_calc.status", some (text "failed"))
    ∷ ("mobility_calc.failed_at", some (time now))
    ∷ ("mobility_calc.run_dir", some (payload r.run_dir))
    ∷ ("mobility_calc.error", some (payload error))
    ∷ ("mobility_agent.status", some (text "failed"))
    ∷ ("mobility_agent.failed_at", some (time now))
    ∷ ("mobility_agent.error", some (payload error))
    ∷ ("mobility_agent.final_status", some (payload (or_text r.final_status "failed")))
    ∷ []

abbrev pub failed_others : Report → String → ℕ → Choices
failed_others r error now = failed_values r error now ++ agent_values r ++ round_metadata r

unfoldable pub failed_update : Report → String → ℕ → Update
unfolding failed_values agent_values round_metadata agent_choices entries missing_keys
failed_update r error now = record {
  set = entries (failed_others r error now ++ agent_choices r);
  unset = terminal_non_success_unset ++ missing_keys (agent_choices r);
}

module _ (collection : Collection) where
  open collection use {Store, update_one}

  unfoldable pub mark_completed : ℕ → Completion → ℕ → Store → Store
  mark_completed id c now s = update_one id (completed_update c now) s

  unfoldable pub mark_failed : ℕ → Report → String → ℕ → Store → Store
  mark_failed id r error now s = update_one id (failed_update r error now) s
