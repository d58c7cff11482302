-- ===== src/Runtime/Validation.antt =====
-- mobility_agent/runtime/validation_policy.py: the decision of the validation report on the reviews
-- of the four channels.
pub mod Decided
mod Reviews
unfoldable pub use Reviews.*
use d_mobility.Prelude.{
  ℕ, String, Bool, true, false, not, ◌&&◌, ◌||◌, List, [], ◌∷◌, ◌++◌, map, Option, none, some, ◌==◌,
  contains, is_empty, any, all, leb, filter_by, dedupe_keep_order, dedupe_texts, if◌then◌else◌,
}
use d_mobility.Graph.Merge.{append_text}
use d_mobility.Agents.Params.{Value}
use d_mobility.Runtime.Sampling.{
  Numbers, Direction, along_x, along_y, same_direction, Fit, ChannelPlan,
  resolve_refinement_sampling,
}

-- `_summarize_channel_reviews`
unfoldable pub retained_of : List Review → List Channel
retained_of reviews = dedupe_keep_order same_channel (
    map (λ (r : Review). r.channel)
      (filter_by (λ (r : Review). not (is_rejected r.status)) reviews))

unfoldable pub rejected_of : List Review → List Channel
rejected_of reviews =
    dedupe_keep_order same_channel
      (map (λ (r : Review). r.channel) (filter_by (λ (r : Review). is_rejected r.status) reviews))

unfoldable pub refinement_directions_of : List Review → List Direction
refinement_directions_of reviews =
    dedupe_keep_order same_direction
      (map (λ (r : Review). r.channel.0) (filter_by (λ (r : Review). is_refine r.status) reviews))

-- A candidate that no fresh point can refine is accepted with a warning. Every candidate's
-- direction is among the targeted ones.
unfoldable pub resolve_unrefined : String → Review → Review
resolve_unrefined unresolved_reason r =
    if is_refine r.status
    then record r {
      status = accepted_with_warning;
      reason = unresolved_reason;
      warning_reasons = dedupe_texts (r.warning_reasons ++ unresolved_reason ∷ []);
    }
    else r

pub data Decision : Type 0 where
  pass pass_with_warning fail : Decision

abbrev pub direction_name : Direction → String
direction_name along_x = "x"
direction_name along_y = "y"

join_names : List Direction → String
join_names [] = ""
join_names (d ∷ []) = direction_name d
join_names (d ∷ e ∷ ds) = append_text (direction_name d) (append_text "," (join_names (e ∷ ds)))

pub record Report : Type 0 where
  pub decision : Decision
  pub recommends_refinement : Bool  -- `recommended_action == "refine_sampling"`
  pub warnings : List String
  pub failed_checks : List String
  pub reviews : List Review
  pub retained : List Channel
  pub rejected_channels : List Channel
  pub refinement_targets : List Direction

-- `decision`, from what the report has gathered.
unfoldable pub decide : Bool → Bool → Bool → Bool → Bool → Bool → Decision
decide has_retained has_applied refines has_rejected has_flags has_warnings =
    if not has_retained && not has_applied
    then fail
    else if refines || has_rejected || has_flags || has_warnings
    then pass_with_warning
    else pass

-- The warnings that count for the decision.
abbrev pub decision_warnings : List String → List String
decision_warnings warnings = filter_by (λ w. not (w == "dry_run_mode")) warnings

-- The report on given reviews, once it is known whether the preview of the refinement applies
-- points.
unfoldable pub report_on : String → List String → List String → Bool → List Review → Report
unfolding join_names
report_on unresolved_reason flags warnings has_applied first_reviews =
    let first_targets = refinement_directions_of first_reviews in
    let unresolved = not (is_empty first_targets) && not has_applied in
    let raw_warnings =
      if unresolved
      then dedupe_texts (
          dedupe_texts warnings
          ++ unresolved_reason
            ∷ append_text "unresolved_refinement_targets:" (join_names first_targets)
            ∷ [])
      else dedupe_texts warnings in
    let reviews =
      if unresolved
      then map (resolve_unrefined unresolved_reason) first_reviews
      else first_reviews in
    let retained = retained_of reviews in
    let refused = rejected_of reviews in
    let targets = refinement_directions_of reviews in
    let refines =
      not (is_empty targets) && has_applied && not (is_empty retained && not (is_empty refused)) in
    record {
      decision =
          decide (not (is_empty retained)) has_applied refines (not (is_empty refused))
            (not (is_empty flags)) (not (is_empty (decision_warnings raw_warnings)));
      recommends_refinement = refines;
      warnings = raw_warnings;
      failed_checks = dedupe_texts flags;
      reviews = reviews;
      retained = retained;
      rejected_channels = refused;
      refinement_targets = targets;
    }

module _ (numbers : Numbers) (reals : Reals numbers) where
  open numbers use {N}

  -- Whether the preview of a refinement by midpoints applies points; there is none without targets.
  unfoldable pub applies_points :
      Fit numbers → N → Value → (Direction → List (Option N)) → ℕ → List Direction → Bool
  applies_points fit fit_threshold accepted_channels planned max_points targets =
      not (is_empty targets)
      && any (λ (plan : ChannelPlan numbers). not (is_empty plan.applied))
          (resolve_refinement_sampling numbers fit fit_threshold accepted_channels planned (λ d. [])
            (("target_channels", Value.items (map direction_name targets))
              ∷ ("refinement_strategy", Value.text "midpoint_enrichment")
              ∷ [])
            max_points)

  -- `build_validation_report`; the rounds are those of the workflow.
  unfoldable pub build_validation_report :
      (Channel → ChannelData N)
      → Fit numbers
      → N
      → Value
      → (Direction → List (Option N))
      → ℕ
      → (refinement_rounds max_rounds : ℕ) → (flags warnings : List String) → Report
  build_validation_report data_of fit fit_threshold accepted_channels planned max_points
        refinement_rounds max_rounds flags warnings =
      let reviews = map (channel_review numbers reals fit_threshold data_of) default_subchannels in
      report_on
        (if leb max_rounds refinement_rounds
          then "refinement_budget_exhausted"
          else "no_fresh_refinement_points")
        flags warnings
        (applies_points fit fit_threshold accepted_channels planned max_points
          (refinement_directions_of reviews))
        reviews
