-- ===== src/Runtime/Legality/Evidence.antt =====
-- mobility_agent/runtime/agent_tools.py: `_required_evidence_status`, and the tests of
-- mobility_agent/graph/state.py and runtime/refinement_policy.py on a validation report and a fit.
use d_mobility.Prelude.{
  ℕ, String, Bool, true, false, not, ◌&&◌, ◌||◌, List, [], ◌∷◌, Option, none, some, ◌==◌, contains,
  is_empty, is_blank, strip, any, leb, if◌then◌else◌,
}
use d_mobility.Agents.Params.{Value, Params}
use d_mobility.Graph.Status.{terminal_run_statuses}
use d_mobility.Runtime.Sampling.{
  Numbers, Direction, Field, absent, null, unreadable, number, or_absent, ChannelPlan,
  fit_threshold_of, resolve_refinement_sampling,
}
use d_mobility.Runtime.Legality.Types.{Entry, Bounds, State}

-- `_payload_has_substance`
unfoldable pub payload_has_substance : Entry → Bool
payload_has_substance Entry.null = false
payload_has_substance Entry.other = true
payload_has_substance (Entry.text t) = not (is_blank t)
payload_has_substance (Entry.collection n) = leb 1 n

abbrev pub meaningful_keys : List String
meaningful_keys =
    "decision" ∷ "recommended_action" ∷ "fit_metrics" ∷ "channel_reviews" ∷ "accepted_channels"
    ∷ "rejected_channels" ∷ "retained_subchannels" ∷ "rejected_subchannels" ∷ "all_subchannels"
    ∷ "warnings" ∷ "failed_checks" ∷ "anomaly_flags" ∷ "confidence_score" ∷ []

-- `validation.get(key)`
find_entry : String → List (String × Entry) → Entry
find_entry key [] = Entry.null
find_entry key ((k, v) ∷ rest) = if k == key then v else find_entry key rest

-- `has_structured_validation_report_payload`
unfoldable pub has_structured_validation_report : List (String × Entry) → Bool
unfolding payload_has_substance find_entry
has_structured_validation_report validation =
    if is_empty validation
    then false
    else any (λ key. payload_has_substance (find_entry key validation)) meaningful_keys

-- `validation_report_supports_finalize`: the report, the status of the validation stage, and the
-- target and the status of the latest observation.
unfoldable pub validation_report_supports_finalize :
    List (String × Entry) → String → String → String → Bool
validation_report_supports_finalize validation stage_status latest_target latest_status =
    if is_empty validation
    then false
    else if strip stage_status == "success"
    then true
    else if strip latest_target == "validation"
        && contains (strip latest_status) ("success" ∷ "completed" ∷ [])
    then true
    else has_structured_validation_report validation

-- The key under which the midpoint strategy is asked for.
abbrev pub midpoint_parameters : Params
midpoint_parameters = ("refinement_strategy", Value.text "midpoint_enrichment") ∷ []

abbrev pub default_target_points : ℕ
default_target_points = 9

module _ (numbers : Numbers) (bounds : Bounds numbers) where
  open numbers use {N, one, same, lt}
  open bounds use {zero_number, fit_bound, confidence_bound}

  -- `fit_metrics.get("effective_fit_quality", fit_metrics.get("fit_r2_min"))`
  unfoldable pub fit_entry : State numbers → Field N
  fit_entry s = or_absent s.effective_fit_quality s.fit.fit_r2_min

  -- `float(value or 1.0)`, which raises on what is no number
  unfoldable pub evidence_fit : Field N → Option N
  evidence_fit absent = some one
  evidence_fit null = some one
  evidence_fit unreadable = none
  evidence_fit (number v) = some (if same v zero_number then one else v)

  -- `confidence is None or float(confidence or 0.0) < 0.75`
  unfoldable pub lacks_confidence : Field N → Option Bool
  lacks_confidence absent = some true
  lacks_confidence null = some true
  lacks_confidence unreadable = none
  lacks_confidence (number v) =
      some (lt (if same v zero_number then zero_number else v) confidence_bound)

  abbrev below : Option N → Option Bool
  below none = none
  below (some v) = some (lt v fit_bound)

  -- The status of one piece of evidence, or `none` where the source raises.
  unfoldable pub evidence_of : State numbers → String → Option Bool
  unfolding evidence_fit lacks_confidence
  evidence_of s evidence =
      if evidence == "latest_failure"
      then some (s.latest_status == "failed")
      else if evidence == "dependency_mismatch_or_failed_downstream"
      then some (not (s.last_error == "") || not (is_empty s.risk_flags))
      else if evidence == "fit_quality_warning"
      then below (evidence_fit (fit_entry s))
      else if evidence == "results_present"
      then some (not (is_empty s.results) || not (is_empty s.validation_report))
      else if evidence == "channel_specific_anomaly"
      then some (not (is_empty s.anomaly_flags))
      else if evidence == "channel_specific_failure"
      then some (not (is_empty s.rejected_channels))
      else if evidence == "insufficient_automation_confidence"
      then lacks_confidence s.confidence_score
      else if evidence == "result_or_terminal_status"
      then some (
          not (is_empty s.results)
          || contains s.run_status ("ready_to_finalize" ∷ terminal_run_statuses))
      else if evidence == "terminal_failure"
      then some (
          contains s.run_status ("failed" ∷ "aborted" ∷ "needs_recovery" ∷ [])
          || not (s.last_error == ""))
      else if evidence == "context_corruption_or_missing_artifacts"
      then some (not (s.last_error == ""))
      else some false

  abbrev pub with_evidence :
      String → Option Bool → Option (List (String × Bool)) → Option (List (String × Bool))
  with_evidence evidence (some ok) (some rest) = some ((evidence, ok) ∷ rest)
  with_evidence evidence _ _ = none

  -- `_required_evidence_status`
  unfoldable pub required_evidence_status :
      State numbers → List String → Option (List (String × Bool))
  unfolding evidence_of
  required_evidence_status s [] = some []
  required_evidence_status s (e ∷ es) =
      with_evidence e (evidence_of s e) (required_evidence_status s es)

  -- `bool(plan.get("applied_points"))`
  abbrev pub has_applied_points : List (ChannelPlan numbers) → Bool
  has_applied_points plans = any (λ (c : ChannelPlan numbers). not (is_empty c.applied)) plans

  -- The plan that the defaults of the policy give.
  unfoldable pub refinement_plan :
      State numbers → (Direction → List (Option N)) → Params → List (ChannelPlan numbers)
  refinement_plan s suggested p =
      resolve_refinement_sampling numbers s.fit fit_bound s.accepted_channels s.planned suggested p
        default_target_points

  -- `float(value or 0.0)`, or 1.0 where that raises
  unfoldable pub effective_fit : Field N → N
  effective_fit absent = one
  effective_fit null = zero_number
  effective_fit unreadable = one
  effective_fit (number v) = if same v zero_number then zero_number else v

  -- `validation_requires_refinement`
  unfoldable pub validation_requires_refinement : State numbers → Bool
  unfolding effective_fit refinement_plan
  validation_requires_refinement s =
      if not s.has_fit_diagnostics
      then false
      else if not (lt (effective_fit (fit_entry s)) (fit_threshold_of numbers s.fit fit_bound))
      then false
      else if not (is_empty s.anomaly_flags)
      then false
      else if leb s.max_refinement_rounds s.refinement_rounds
      then false
      else has_applied_points (refinement_plan s (λ _. []) midpoint_parameters)
