-- ===== src/Agents/Guardrail.antt =====
-- mobility_agent/agents/orchestrator.py: `_guardrail_arbitration`, which finds the legal proposals
-- and the preferred one of them. The legality check (a tool of the gateway) is a parameter.
pub mod Preferred
use d_mobility.Prelude.{
  ℕ, zero, suc, ◌+◌, String, ◌≡◌, Bool, true, false, not, ◌&&◌, ◌||◌, List, [], ◌∷◌, ◌++◌, map,
  Option, none, some, ◌==◌, contains, strip, leb, ltb, eqb, is_empty, sort_by, filter_by,
  if◌then◌else◌,
}
use d_mobility.Runtime.Board.{Board, all_tasks_resolved, has_blocked_or_abandoned_tasks}
use d_mobility.Agents.Proposals.{Proposal, SelectedAction, canonicalize_proposal}

-- The floating-point numbers that the estimates and strengths are: those without NaN are ordered
-- as the numbers of their bit patterns, once these are turned round for the negative ones.
pub record Floats : Type 1 where
  pub F : Type 0
  pub zero_float : F
  pub add : F → F → F
  pub lt : F → F → Bool
  pub eq : F → F → Bool
  pub rank : F → ℕ
  pub lt_rank : (a b : F) → lt a b ≡ ltb (rank a) (rank b)
  pub eq_rank : (a b : F) → eq a b ≡ eqb (rank a) (rank b)

pub data Stance : Type 0 where
  support objection other : Stance

pub record Critique : Type 0 where
  pub agent_name : String
  pub proposal_id : String
  pub stance : Stance
  pub concerns : List String

pub record Preference (F : Type 0) : Type 0 where
  pub agent_name : String
  pub preferred_proposal_id : String
  pub preference_strength : F

-- A guardrail note; the source formats them as texts.
pub data Note : Type 0 where
  plain : String → Note
  retry_budget_exhausted : String → ℕ → ℕ → Note
  canonicalized illegal : String → String → Note
  objected : String → String → String → Note

-- What the arbitration reads of the state and of `query_execution_status`.
pub record Situation : Type 0 where
  pub latest_status : String
  pub latest_target : String
  pub next_pending_capability : String
  pub run_status : String
  pub retry_counts : String → ℕ
  pub retry_budget : ℕ
  pub board : Board

pub record ArbitrationRecord : Type 0 where
  pub selected_proposal_id : Option String
  pub selected_action : Option SelectedAction
  pub rejected_proposals : List String
  pub guardrail_notes : List Note
  pub rationale : String
  pub whether_noop : Bool
  pub whether_waiting_external : Bool
  pub whether_ready_to_finalize : Bool
  pub legal_proposal_ids : List String
  pub guardrail_preferred_proposal_id : Option String

-- `_noop_record`
unfoldable pub noop_record : List String → String → List Note → Bool → Bool → ArbitrationRecord
noop_record rejected rationale notes waiting_external ready_to_finalize = record {
  selected_proposal_id = none;
  selected_action = none;
  rejected_proposals = rejected;
  guardrail_notes = notes;
  rationale = rationale;
  whether_noop = true;
  whether_waiting_external = waiting_external;
  whether_ready_to_finalize = ready_to_finalize;
  legal_proposal_ids = [];
  guardrail_preferred_proposal_id = none;
}

-- `a or b` on texts, `int(x or 2) or 2`, and `notes or [note]`
abbrev or_string : String → String → String
or_string a b = if a == "" then b else a

abbrev or_two : ℕ → ℕ
or_two zero = 2
or_two (suc n) = suc n

abbrev or_notes : List Note → Note → List Note
or_notes [] note = note ∷ []
or_notes (n ∷ ns) note = n ∷ ns

abbrev pub is_support : Stance → Bool
is_support support = true
is_support _ = false

abbrev pub is_objection : Stance → Bool
is_objection objection = true
is_objection _ = false

-- `support_counts` and `objection_counts` of a proposal id
unfoldable pub count_stance : (Stance → Bool) → String → List Critique → ℕ
count_stance test key [] = 0
count_stance test key (c ∷ cs) =
    let rest = count_stance test key cs in
    if c.proposal_id == key && test c.stance then suc rest else rest

objection_notes : List Critique → List Note
objection_notes [] = []
objection_notes (c ∷ cs) =
    (if is_objection c.stance
      then map (λ concern. objected c.proposal_id c.agent_name concern) c.concerns
      else [])
    ++ objection_notes cs

-- The capability that fails, and its retries.
unfoldable pub failing_capability : Situation → String
failing_capability s = strip (or_string s.latest_target s.next_pending_capability)

-- The first guard: the retry budget of the failing capability is used up.
unfoldable pub is_budget_exhausted : Situation → Bool
unfolding failing_capability
is_budget_exhausted s =
    let cap = failing_capability s in
    not (cap == "")
    && s.latest_status == "failed"
    && leb (or_two s.retry_budget) (s.retry_counts cap)

-- The records for the case that there are no proposals.
unfoldable pub without_proposals : Situation → ArbitrationRecord
without_proposals s =
    if s.run_status == "waiting_external"
    then noop_record [] "no_proposals_while_waiting_for_external_event"
        (plain "waiting_external" ∷ []) true false
    else if all_tasks_resolved s.board
    then noop_record [] "all_tasks_resolved_waiting_for_deliberate_finalization"
        (plain "ready_to_finalize" ∷ []) false true
    else if s.latest_status == "failed" || has_blocked_or_abandoned_tasks s.board
    then noop_record []
        "no_viable_recovery_proposals_after_failure_or_blocked_state_without_auto_fallback"
        (plain "failure_without_viable_proposals" ∷ []) false false
    else noop_record [] "no_proposals_and_state_requires_additional_observation"
        (plain "insufficient_proposals" ∷ []) false false

module _ (fl : Floats) where
  open fl use {F, zero_float, add, lt, eq}

  -- `preference_strengths` of a proposal id, summed in the order of the preferences
  unfoldable pub strength_from : F → String → List (Preference F) → F
  strength_from acc key [] = acc
  strength_from acc key (p ∷ ps) =
      strength_from (if p.preferred_proposal_id == key then add acc p.preference_strength else acc)
        key ps

  module _ (critiques : List Critique) (preferences : List (Preference F)) where
    unfoldable pub objections : Proposal F → ℕ
    objections p = count_stance is_objection p.proposal_id critiques

    unfoldable pub supports : Proposal F → ℕ
    supports p = count_stance is_support p.proposal_id critiques

    unfoldable pub strength : Proposal F → F
    strength p = strength_from zero_float p.proposal_id preferences

    -- The order of the sort key: fewer objections, then more support, then a greater strength,
    -- then a smaller risk, then a smaller cost.
    unfoldable pub key_lt : Proposal F → Proposal F → Bool
    key_lt p q =
        ltb (objections p) (objections q)
        || (eqb (objections p) (objections q)
            && (ltb (supports q) (supports p)
                || (eqb (supports p) (supports q)
                    && (lt (strength q) (strength p)
                        || (eq (strength p) (strength q)
                            && (lt p.risk_estimate q.risk_estimate
                                || (eq p.risk_estimate q.risk_estimate
                                    && lt p.cost_estimate q.cost_estimate)))))))

    unfoldable pub key_le : Proposal F → Proposal F → Bool
    key_le p q = not (key_lt q p)

    -- `legal_sorted[0]`
    unfoldable pub preferred_of : List (Proposal F) → Option (Proposal F)
    preferred_of viable = elim (sort_by key_le viable) [ [] ↦ none | p ∷ ps ↦ some p ]

    module _ (legality : Proposal F → Bool × List String) where
      -- The proposals that the check allows, in canonical form.
      unfoldable pub viable_proposals : List (Proposal F) → List (Proposal F)
      viable_proposals [] = []
      viable_proposals (original ∷ rest) =
          let p = (canonicalize_proposal original).0 in
          let others = viable_proposals rest in if (legality p).0 then p ∷ others else others

      proposal_notes : List (Proposal F) → List Note
      proposal_notes [] = []
      proposal_notes (original ∷ rest) =
          let (p, notes) = canonicalize_proposal original in
          map (canonicalized p.proposal_id) notes
          ++ (if (legality p).0 then [] else map (illegal p.proposal_id) (legality p).1)
          ++ proposal_notes rest

      abbrev pub ids : List (Proposal F) → List String
      ids ps = map (λ (p : Proposal F). p.proposal_id) ps

      -- The records for the case that no proposal is legal.
      unfoldable pub without_viable : Situation → List String → List Note → ArbitrationRecord
      without_viable s rejected notes =
          if s.run_status == "waiting_external"
          then noop_record rejected "all_proposals_rejected_while_waiting_for_external_event"
              (or_notes notes (plain "waiting_external")) true false
          else if all_tasks_resolved s.board
          then noop_record rejected "all_proposals_rejected_but_task_board_is_ready_to_finalize"
              (or_notes notes (plain "ready_to_finalize")) false true
          else noop_record rejected "no_legal_proposals_survived_deliberation_without_auto_fallback"
              (or_notes notes (plain "no_legal_proposals")) false false

      -- The record that hands the legal proposals on to the language model.
      unfoldable pub with_viable :
          List (Proposal F) → List (Proposal F) → List Note → ArbitrationRecord
      with_viable proposals viable notes = record {
        selected_proposal_id = none;
        selected_action = none;
        rejected_proposals = filter_by (λ i. not (contains i (ids viable))) (ids proposals);
        guardrail_notes = notes;
        rationale = "legal_proposals_available_for_llm_arbitration";
        whether_noop = false;
        whether_waiting_external = false;
        whether_ready_to_finalize = false;
        legal_proposal_ids = ids viable;
        guardrail_preferred_proposal_id = elim (preferred_of viable) [
          | none ↦ none
          | some p ↦ some p.proposal_id
        ];
      }

      unfoldable pub guardrail_arbitration : Situation → List (Proposal F) → ArbitrationRecord
      unfolding proposal_notes objection_notes
      guardrail_arbitration s proposals =
          let cap = failing_capability s in
          let viable = viable_proposals proposals in
          let notes = proposal_notes proposals ++ objection_notes critiques in
          if is_budget_exhausted s
          then noop_record (ids proposals)
              "retry_budget_exhausted_for_failing_capability_without_auto_fallback"
              (retry_budget_exhausted cap (s.retry_counts cap) (or_two s.retry_budget) ∷ []) false
              false
          else if is_empty proposals
          then without_proposals s
          else if is_empty viable
          then without_viable s (ids proposals) notes
          else with_viable proposals viable notes
