-- ===== src/Checks/Arbitration.antt =====
-- An arbitration at concrete inputs, with natural numbers for the estimates.
use d_mobility.Prelude.{
  ℕ, ◌≡◌, refl, ◌+◌, String, Bool, true, false, List, [], ◌∷◌, Option, none, some, strip, map, ltb,
  eqb, ◌==◌, All, IsDistinct, if◌then◌else◌,
}
use d_mobility.Agents.Params.{canonicalize_action_parameters}
use d_mobility.Agents.Proposals.{
  selected_action_from_proposal, Proposal, SelectedAction, canonicalize_proposal,
  canonicalize_selected_action,
}
use d_mobility.Agents.Guardrail.{
  Floats, Critique, Preference, Situation, support, ArbitrationRecord, guardrail_arbitration,
  preferred_of, viable_proposals, key_lt, key_le, objections, supports, strength, strength_from,
  count_stance, is_budget_exhausted, failing_capability, with_viable,
}
use d_mobility.Agents.Guardrail.Preferred.{preferred_is_best}
use d_mobility.Agents.Arbitrate.{
  is_override_id, Decision, normalize, arbitrate, decision_record, normalization_notes,
  resolve_selection, override_action, selected_of, final_id, fallback_id, checked_id, decided_id,
  find_proposal, action_of_source,
}
use d_mobility.Agents.Arbitrate.Selected.{IsLegalAction, arbitrate_selects_legal}

abbrev fl : Floats
fl = record {
  F = ℕ;
  zero_float = 0;
  add = λ a b. a + b;
  lt = ltb;
  eq = eqb;
  rank = λ a. a;
  lt_rank = λ a b. refl;
  eq_rank = λ a b. refl;
}

abbrev retry : Proposal ℕ
retry = record {
  proposal_id = "p1";
  action_family = "retry_capability";
  target_capability = some "relax";
  selected_skill = none;
  parameters = [];
  rationale = "the relaxation has not converged";
  cost_class = "low";
  risk_class = "low";
  expected_observation = "converged";
  success_criteria = [];
  fallback_if_failed = [];
  submit_external_job = false;
  wait_for_event_after_submission = false;
  risk_estimate = 1;
  cost_estimate = 1;
}

abbrev rerun : Proposal ℕ
rerun = record retry {
  proposal_id = "p2";
  action_family = "rerun_from_capability";
  risk_estimate = 2;
}

abbrev abort : Proposal ℕ
abort = record retry { proposal_id = "p3"; action_family = "abort_material" }

abbrev proposals : List (Proposal ℕ)
proposals = abort ∷ rerun ∷ retry ∷ []

abbrev critiques : List Critique
critiques = record { agent_name = "risk"; proposal_id = "p1"; stance = support; concerns = [] } ∷ []

abbrev preferences : List (Preference ℕ)
preferences =
    record { agent_name = "plan"; preferred_proposal_id = "p2"; preference_strength = 1 } ∷ []

abbrev legality : Proposal ℕ → Bool × List String
legality p = if p.action_family == "abort_material" then (false, "not_allowed" ∷ []) else (true, [])

abbrev action_legality : SelectedAction → Bool × List String
action_legality a = (false, "override_refused" ∷ [])

abbrev situation : Situation
situation = record {
  latest_status = "failed";
  latest_target = "relax";
  next_pending_capability = "scf";
  run_status = "running";
  retry_counts = λ c. 1;
  retry_budget = 2;
  board = record {
    pending_tasks = [];
    active_tasks = [];
    completed_tasks = [];
    blocked_tasks = [];
    abandoned_tasks = [];
  };
}

abbrev preferred_proposal : Proposal ℕ
preferred_proposal = (canonicalize_proposal retry).0

preferred :
    preferred_of fl critiques preferences
      (viable_proposals fl critiques preferences legality proposals)
    ≡ some preferred_proposal
unfolding preferred_of viable_proposals canonicalize_proposal key_lt key_le objections supports
    count_stance strength strength_from canonicalize_action_parameters
preferred = refl

preferred_is_best_example :
    ((legality preferred_proposal).0 ≡ true)
    × All
        (λ q. key_lt fl critiques preferences q preferred_proposal ≡ false)
        (viable_proposals fl critiques preferences legality proposals)
preferred_is_best_example = preferred_is_best fl critiques preferences legality proposals preferred

-- The model names the preferred proposal.
abbrev decision : Decision
decision = record {
  selected_proposal_id = some "p1";
  selected_action = none;
  rejected_proposal_ids = [];
  guardrail_notes = [];
  rationale = "least risk";
  whether_noop = false;
  whether_waiting_external = false;
  whether_ready_to_finalize = false;
}

abbrev ask : List (Proposal ℕ) → ArbitrationRecord → Option Decision
ask ps r = some decision

abbrev chosen : SelectedAction
chosen = (canonicalize_selected_action retry "p1" none []).0

abbrev result : ArbitrationRecord
result =
    decision_record (normalize proposals)
      (guardrail_arbitration fl critiques preferences legality situation (normalize proposals))
      decision ("p1", some chosen)

arbitrated :
    arbitrate fl critiques preferences legality action_legality [] ask situation proposals
    ≡ some result
unfolding arbitrate guardrail_arbitration with_viable preferred_of viable_proposals
    canonicalize_proposal key_lt key_le objections supports count_stance strength strength_from
    canonicalize_action_parameters is_budget_exhausted failing_capability normalize
    normalization_notes resolve_selection override_action selected_of final_id fallback_id
    checked_id decided_id find_proposal canonicalize_selected_action selected_action_from_proposal
    strip action_of_source
arbitrated = refl

selects : result.selected_action ≡ some chosen
unfolding decision_record
selects = refl

IsDistinct-ids : IsDistinct (map (λ (p : Proposal ℕ). p.proposal_id) (normalize proposals))
unfolding normalize canonicalize_proposal
IsDistinct-ids = (refl, (refl, (refl, tt)))

arbitrate_selects_legal_example :
    IsLegalAction fl critiques preferences legality action_legality [] ask
      (normalize proposals)
      chosen
arbitrate_selects_legal_example =
    arbitrate_selects_legal fl critiques preferences legality action_legality [] ask situation
      proposals result chosen IsDistinct-ids arbitrated selects

-- An explicit override, and an id that is none.
override_ids : (is_override_id " ORCHESTRATOR_OVERRIDE:x" ≡ true) × (is_override_id "p1" ≡ false)
unfolding is_override_id strip
override_ids = (refl, refl)
