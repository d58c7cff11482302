-- ===== src/Agents/Proposals.antt =====
-- mobility_agent/agents/schemas.py and orchestrator.py: proposals, critiques, preferences and
-- selected actions, and the canonical form of what they ask to execute. Estimates are numbers of a
-- type `F`; a missing text of the source is `none`.
use d_mobility.Prelude.{
  String, Bool, true, false, not, ◌&&◌, List, [], ◌∷◌, ◌++◌, Option, none, some, ◌==◌, contains,
  is_blank, strip, or_text, if◌then◌else◌,
}
use d_mobility.Agents.Params.{Params, canonicalize_action_parameters, differs}

pub record Proposal (F : Type 0) : Type 0 where
  pub proposal_id : String
  pub action_family : String
  pub target_capability : Option String
  pub selected_skill : Option String
  pub parameters : Params
  pub rationale : String
  pub cost_class : String
  pub risk_class : String
  pub expected_observation : String
  pub success_criteria : List String
  pub fallback_if_failed : List String
  pub submit_external_job : Bool
  pub wait_for_event_after_submission : Bool
  pub risk_estimate : F
  pub cost_estimate : F

pub record SelectedAction : Type 0 where
  pub action_family : String
  pub target_capability : Option String
  pub selected_skill : Option String
  pub parameters : Params
  pub source_proposal_id : Option String
  pub rationale : String
  pub cost_class : String
  pub risk_class : String
  pub expected_observation : String
  pub success_criteria : List String
  pub fallback_if_failed : List String
  pub submit_external_job : Bool
  pub wait_for_event_after_submission : Bool
  pub supporting_agent_opinions : List String

-- `_LOCAL_EXECUTION_ACTION_FAMILIES`
abbrev pub local_execution_action_families : List String
local_execution_action_families =
    "run_capability" ∷ "retry_capability" ∷ "rerun_from_capability" ∷ "refine_sampling"
    ∷ "revalidate_result" ∷ "finalize_material" ∷ "abort_material" ∷ "skip_channel"
    ∷ "invalidate_channel" ∷ []

-- `[note] if test else []`
abbrev pub note_if : Bool → String → List String
note_if true note = note ∷ []
note_if false note = []

module _ {F : Type 0} where
  -- `_canonicalize_proposal_execution_semantics`
  unfoldable pub canonicalize_proposal : Proposal F → Proposal F × List String
  unfolding canonicalize_action_parameters
  canonicalize_proposal p =
      let (parameters, changed) = canonicalize_action_parameters p.action_family p.parameters in
      if contains p.action_family local_execution_action_families
      then (
        record p {
          submit_external_job = false;
          wait_for_event_after_submission = false;
          parameters = if changed then parameters else p.parameters;
        },
        note_if p.submit_external_job "canonicalized_proposal:submit_external_job"
            ++ note_if p.wait_for_event_after_submission
                "canonicalized_proposal:wait_for_event_after_submission"
            ++ note_if changed "canonicalized_proposal:parameters",
      )
      else (p, [])

  unfoldable pub selected_action_from_proposal : Proposal F → List String → SelectedAction
  selected_action_from_proposal p supporting = record {
    action_family = p.action_family;
    target_capability = p.target_capability;
    selected_skill = p.selected_skill;
    parameters = (canonicalize_action_parameters p.action_family p.parameters).0;
    source_proposal_id = some p.proposal_id;
    rationale = p.rationale;
    cost_class = if p.cost_class == "" then "medium" else p.cost_class;
    risk_class = if p.risk_class == "" then "medium" else p.risk_class;
    expected_observation = p.expected_observation;
    success_criteria = p.success_criteria;
    fallback_if_failed = p.fallback_if_failed;
    submit_external_job = p.submit_external_job;
    wait_for_event_after_submission = p.wait_for_event_after_submission;
    supporting_agent_opinions = supporting;
  }

-- A text of the language model where it is not blank, or the canonical one.
abbrev overlay_text : String → String → String
overlay_text parsed canonical = if is_blank parsed then canonical else strip parsed

abbrev overlay_list : List String → List String → List String
overlay_list [] canonical = canonical
overlay_list (x ∷ xs) canonical = x ∷ xs

abbrev differ : Option String → Option String → Bool
differ a b = not (or_text a "" == or_text b "")

abbrev xor : Bool → Bool → Bool
xor true b = not b
xor false b = b

-- The notes on where the parsed action departs from the canonical one.
unfoldable pub canonical_notes : String → SelectedAction → Params → SelectedAction → List String
canonical_notes selected_id parsed parameters canonical =
    let source = strip (or_text parsed.source_proposal_id "") in
    note_if (not (source == "") && not (source == selected_id))
      "canonicalized_selected_action:source_proposal_id"
    ++ note_if (not (parsed.action_family == canonical.action_family))
        "canonicalized_selected_action:action_family"
    ++ note_if (differ parsed.target_capability canonical.target_capability)
        "canonicalized_selected_action:target_capability"
    ++ note_if (differ parsed.selected_skill canonical.selected_skill)
        "canonicalized_selected_action:selected_skill"
    ++ note_if (differs parameters canonical.parameters) "canonicalized_selected_action:parameters"
    ++ note_if (xor parsed.submit_external_job canonical.submit_external_job)
        "canonicalized_selected_action:submit_external_job"
    ++ note_if
        (xor parsed.wait_for_event_after_submission canonical.wait_for_event_after_submission)
        "canonicalized_selected_action:wait_for_event_after_submission"

-- `_canonicalize_selected_action` on the proposal that was found by its id.
unfoldable pub canonicalize_selected_action :
    {F : Type 0}
    → Proposal F
    → String
    → Option SelectedAction
    → List String
    → SelectedAction × List String
unfolding selected_action_from_proposal
canonicalize_selected_action source selected_id none supporting =
    (selected_action_from_proposal source supporting, [])
canonicalize_selected_action source selected_id (some parsed) supporting =
    let canonical = selected_action_from_proposal source supporting in
    let (parameters, _) =
      canonicalize_action_parameters canonical.action_family parsed.parameters in
    (
      record canonical {
        supporting_agent_opinions = supporting;
        rationale = overlay_text parsed.rationale canonical.rationale;
        expected_observation =
            overlay_text parsed.expected_observation canonical.expected_observation;
        success_criteria = overlay_list parsed.success_criteria canonical.success_criteria;
        fallback_if_failed = overlay_list parsed.fallback_if_failed canonical.fallback_if_failed;
        cost_class = overlay_text parsed.cost_class canonical.cost_class;
        risk_class = overlay_text parsed.risk_class canonical.risk_class;
      },
      canonical_notes selected_id parsed parameters canonical,
    )

-- `_canonicalize_override_selected_action`
unfoldable pub canonicalize_override_selected_action :
    SelectedAction → List String → SelectedAction × List String
unfolding canonicalize_action_parameters
canonicalize_override_selected_action a supporting =
    let (parameters, changed) = canonicalize_action_parameters a.action_family a.parameters in
    if contains a.action_family local_execution_action_families
    then (
      record a {
        supporting_agent_opinions = supporting;
        submit_external_job = false;
        wait_for_event_after_submission = false;
        parameters = if changed then parameters else a.parameters;
      },
      note_if a.submit_external_job "canonicalized_override_selected_action:submit_external_job"
          ++ note_if a.wait_for_event_after_submission
              "canonicalized_override_selected_action:wait_for_event_after_submission"
          ++ note_if changed "canonicalized_override_selected_action:parameters",
    )
    else (record a { supporting_agent_opinions = supporting }, [])
