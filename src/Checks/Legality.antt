-- ===== src/Checks/Legality.antt =====
-- The legality check at concrete inputs.
use d_mobility.Prelude.{
  ◌<◌, String, ◌≡◌, refl, Bool, true, false, ◌==◌, List, [], ◌∷◌, none, some, contains, All, ◌↔◌,
  arith, strip,
}
use d_mobility.Graph.Status.{terminal_run_statuses}
use d_mobility.Agents.Params.{Value, Params, get, canonicalize_action_parameters}
use d_mobility.Runtime.Registry.{ActionSpec, find_spec, get_action_spec, action_is_legal}
use d_mobility.Runtime.Board.{pending, new_task}
use d_mobility.Runtime.Sampling.{
  number, absent, fit_threshold_of, resolve_refinement_sampling, infer_refinement_channels,
  normalize_channels, weak_channels, metric_value, sample_channel, normalize_points,
  midpoint_candidates, midpoints, choose, is_midpoint_strategy, lower_is,
}
use d_mobility.Runtime.Legality.Types.{Bounds, State, Request, Verdict}
use d_mobility.Runtime.Legality.Evidence.{
  fit_entry, midpoint_parameters, required_evidence_status, validation_requires_refinement,
  effective_fit, refinement_plan, evidence_of, lacks_confidence,
}
use d_mobility.Runtime.Legality.{
  has_live_job, check_legality_tool, is_allowed, canonicalize_channel_action_parameters,
  unknown_family, with_spec, checked,
}
use d_mobility.Runtime.Legality.Allowed.{
  request_of, IsOpen, is_startable, is_retriable, run_allowed_iff,
}
use d_mobility.Runtime.Legality.Retry.{retry_allowed_iff}
use d_mobility.Runtime.Legality.Rules.{IsGoing, next_task_allowed}
use d_mobility.Runtime.Legality.Agreement.{allowed_agrees}
use d_mobility.Runtime.Legality.Channels.{same_target_channels}
use d_mobility.Runtime.Legality.Fallback.{Fallbacks, here, follow, fallback_chain_ends}
use d_mobility.Runtime.Legality.Refinement.{
  required_refinement_allowed, zero_fit_refuses_refinement,
}
use d_mobility.Checks.Board.{label, b2, second_task, reached}
use d_mobility.Checks.Sampling.{numbers, fit, planned, no_points}

abbrev pub bounds : Bounds numbers
bounds = record { zero_number = 0; fit_bound = 900; confidence_bound = 750 }

abbrev state : State numbers
state = record {
  task_board = b2;
  run_status = "running";
  stage_status = λ c. "";
  retry_counts = λ c. 1;
  retry_budget = 2;
  refinement_rounds = 0;
  max_refinement_rounds = 3;
  has_pending_human_payload = false;
  has_latest_human_decision = false;
  full_autonomy = true;
  allow_external_wait = false;
  pending_events = 0;
  external_jobs = [];
  latest_target = "relax";
  latest_status = "failed";
  last_error = "";
  risk_flags = [];
  anomaly_flags = [];
  results = [];
  rejected_channels = [];
  accepted_channels = Value.null;
  validation_report = [];
  confidence_score = absent;
  has_fit_diagnostics = true;
  effective_fit_quality = number 700;
  fit = fit;
  planned = planned;
}

abbrev runs_relax : Request numbers
runs_relax = request_of numbers "run_capability" "relax" [] no_points false false

going : IsGoing numbers state
going = record { nobody_asked = refl; unfinished = refl; no_wait = refl }

no_job : has_live_job state.external_jobs "relax" ≡ false
unfolding has_live_job
no_job = refl

next_task_allowed_example :
    is_allowed numbers bounds state
      (request_of numbers "run_capability" "relax" [] no_points false false)
    ≡ true
unfolding new_task
next_task_allowed_example =
    next_task_allowed numbers bounds label state (new_task label "relax" pending) [] no_points
      reached second_task going no_job

run_allowed_iff_example :
    (is_allowed numbers bounds state
        (request_of numbers "run_capability" "scf" [] no_points false false)
      ≡ true)
    ↔ (IsOpen numbers state "scf" false false × (is_startable b2 "scf" ≡ true))
run_allowed_iff_example = run_allowed_iff numbers bounds state "scf" [] no_points false false

retry_allowed_iff_example :
    (is_allowed numbers bounds state
        (request_of numbers "retry_capability" "relax" [] no_points false false)
      ≡ true)
    ↔ (IsOpen numbers state "relax" false false
        × (is_retriable b2 "relax" ≡ true)
        × (1 < 2)
        × (("failed" == "failed") ≡ true))
retry_allowed_iff_example = retry_allowed_iff numbers bounds state "relax" [] no_points false false

allowed_agrees_example :
    (action_is_legal "run_capability"
        (some "relax")
        (canonicalize_channel_action_parameters "run_capability" [])
      ≡ true)
    × (contains "running" terminal_run_statuses ≡ false)
    × (spec : ActionSpec) × (get_action_spec "run_capability" ≡ some spec)
    × (evidence : List (String × Bool)) × (required_evidence_status numbers bounds state
          spec.required_evidence
        ≡ some evidence)
    × All (λ (e : String × Bool). e.1 ≡ true) evidence
allowed_agrees_example = allowed_agrees numbers bounds state runs_relax next_task_allowed_example

abbrev channels : Params
channels = ("channels", Value.items (" x " ∷ "" ∷ [])) ∷ []

same_target_channels_example :
    get "target_channels" (canonicalize_channel_action_parameters "skip_channel" channels)
    ≡ get "target_channels" (canonicalize_action_parameters "skip_channel" channels).0
same_target_channels_example = same_target_channels "skip_channel" channels

required_refinement_allowed_example :
    is_allowed numbers bounds state
      (request_of numbers "refine_sampling" "strain_loop" midpoint_parameters (λ _. []) false false)
    ≡ true
unfolding fit_entry fit_threshold_of validation_requires_refinement effective_fit refinement_plan
    has_live_job resolve_refinement_sampling infer_refinement_channels normalize_channels
    weak_channels metric_value get sample_channel normalize_points midpoint_candidates midpoints
    choose is_midpoint_strategy lower_is strip
required_refinement_allowed_example =
    required_refinement_allowed numbers bounds state 700 "strain_loop" refl refl refl refl going
      refl refl

abbrev flat : State numbers
flat = record state { effective_fit_quality = number 0 }

zero_fit_refuses_refinement_example :
    is_allowed numbers bounds flat
      (request_of numbers "refine_sampling" "strain_loop" midpoint_parameters no_points false false)
    ≡ false
unfolding fit_entry
zero_fit_refuses_refinement_example =
    zero_fit_refuses_refinement numbers bounds flat 0 "strain_loop" midpoint_parameters no_points
      false false refl refl refl

abbrev asks : String → Request numbers
asks f = request_of numbers f "relax" [] no_points false false

abbrev verdict : String → Verdict
verdict f = elim (check_legality_tool numbers bounds state (asks f)) [
  | none ↦ unknown_family numbers bounds state (asks f)
  | some v ↦ v
]

chain : Fallbacks numbers bounds 4 "run_capability" "abort_material"
unfolding check_legality_tool get_action_spec find_spec required_evidence_status evidence_of
    lacks_confidence with_spec checked
chain = follow 3 state (asks "run_capability") (verdict "run_capability") "abort_material" refl (
    follow 2 state (asks "retry_capability") (verdict "retry_capability") "abort_material" refl (
      follow 1 state (asks "rerun_from_capability") (verdict "rerun_from_capability")
        "abort_material" refl
        (follow 0 state (asks "escalate_human") (verdict "escalate_human") "abort_material" refl
          (here "abort_material"))))

fallback_chain_ends_example : ("abort_material" == "abort_material") ≡ true
fallback_chain_ends_example =
    fallback_chain_ends numbers bounds 4 "run_capability" "abort_material" chain (ground arith)
