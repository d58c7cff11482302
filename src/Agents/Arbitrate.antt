-- ===== src/Agents/Arbitrate.antt =====
-- mobility_agent/agents/orchestrator.py: `arbitrate`, which turns the decision of the language
-- model into a selected action. The decision is an argument; what raises in the source, which
-- wraps every exception into one `RuntimeError`, is `none`.
pub mod Origin
pub mod Selected
use text.Mathlib.Text.{starts_with}
use d_mobility.Prelude.{
  String, Bool, true, false, not, ◌&&◌, ◌||◌, List, [], ◌∷◌, ◌++◌, map, Option, none, some, ◌==◌,
  contains, strip, is_empty, or_text, filter_by, any, dedupe_texts, if◌then◌else◌,
}
use d_mobility.Agents.Proposals.{
  Proposal, SelectedAction, canonicalize_proposal, canonicalize_selected_action,
  canonicalize_override_selected_action,
}
use d_mobility.Agents.Guardrail.{
  Floats, Critique, Preference, Note, plain, canonicalized, Situation, ArbitrationRecord,
  guardrail_arbitration,
}

-- `ArbitrationDecisionPayload`, the parsed answer of the language model
pub record Decision : Type 0 where
  pub selected_proposal_id : Option String
  pub selected_action : Option SelectedAction
  pub rejected_proposal_ids : List String
  pub guardrail_notes : List Note
  pub rationale : String
  pub whether_noop : Bool
  pub whether_waiting_external : Bool
  pub whether_ready_to_finalize : Bool

-- `_is_explicit_override_proposal_id`
unfoldable pub is_override_id : String → Bool
is_override_id key = starts_with (strip key) "ORCHESTRATOR_OVERRIDE:"

-- The id that the decision selects, from its action if it names none.
unfoldable pub decided_id : Decision → String
decided_id d =
    let key = strip (or_text d.selected_proposal_id "") in
    if key == ""
    then (elim d.selected_action [ none ↦ key | some a ↦ strip (or_text a.source_proposal_id "") ])
    else key

abbrev is_none {ℓ} : {A : Type ℓ} → Option A → Bool
is_none none = true
is_none (some a) = false

-- `x or y` on lists
abbrev or_list {ℓ} : {A : Type ℓ} → List A → List A → List A
or_list [] ys = ys
or_list (x ∷ xs) ys = x ∷ xs

-- The id that is left for an empty choice: the preferred proposal, or the only legal one. `legal`
-- holds each id once.
unfoldable pub fallback_id : List String → String → String → String
fallback_id legal preferred key =
    if key == ""
    then (if contains preferred legal
        then preferred
        else (elim legal [ [] ↦ key | only ∷ others ↦ if is_empty others then only else key ]))
    else key

-- The action of a decision that names no action and does not override, or of one that names a
-- proposal that is not legal: the preferred id takes its place, or the arbitration raises.
unfoldable pub checked_id : List String → String → Bool → String → Option String
checked_id legal preferred needs_legal key =
    if needs_legal && not (contains key legal)
    then (if contains preferred legal then some preferred else none)
    else some key

-- `next(item for item in proposals if item.proposal_id == selected_proposal_id)`
unfoldable pub find_proposal : {F : Type 0} → String → List (Proposal F) → Option (Proposal F)
find_proposal key [] = none
find_proposal key (p ∷ ps) = if p.proposal_id == key then some p else find_proposal key ps

-- The parsed action, if it says that it comes from the selected proposal.
unfoldable pub action_of_source : String → Option SelectedAction → Option SelectedAction
action_of_source key none = none
action_of_source key (some a) =
    if strip (or_text a.source_proposal_id "") == key then some a else none

abbrev pub with_key :
    String → Option (Option SelectedAction) → Option (String × Option SelectedAction)
with_key key none = none
with_key key (some action) = some (key, action)

abbrev pub after_id :
    Option String
    → (String → Option (Option SelectedAction))
    → Option (String × Option SelectedAction)
after_id none chosen = none
after_id (some key) chosen = with_key key (chosen key)

module _ (action_legality : SelectedAction → Bool × List String) (supporting : List String) where
  -- The explicit override, in canonical form, if the legality check allows it.
  unfoldable pub override_action : String → Option SelectedAction → Option SelectedAction
  override_action key none = none
  override_action key (some a) =
      let b = (canonicalize_override_selected_action a supporting).0 in
      if is_override_id key && (action_legality b).0 then some b else none

  -- The action of the legal proposal that is selected, or the override. A legal id that no
  -- proposal has would raise.
  unfoldable pub selected_of :
      {F : Type 0}
      → List (Proposal F)
      → List String
      → Option SelectedAction
      → String
      → Option SelectedAction
      → Option (Option SelectedAction)
  selected_of proposals legal parsed key override =
      if contains key legal
      then (elim (find_proposal key proposals) [
        | none ↦ none
        | some p ↦
            some
              (some (canonicalize_selected_action p key (action_of_source key parsed) supporting).0)
      ])
      else some override

  -- The selected id, once the override is known.
  unfoldable pub final_id : List String → String → Decision → Option SelectedAction → Option String
  unfolding fallback_id checked_id
  final_id legal preferred d override =
      let key = decided_id d in
      let key' = if is_none override then fallback_id legal preferred key else key in
      checked_id legal preferred (is_none override && not (is_none d.selected_action)) key'

  -- The id and the action that a decision comes to.
  unfoldable pub resolve_selection :
      {F : Type 0}
      → List (Proposal F)
      → List String
      → String
      → Decision
      → Option (String × Option SelectedAction)
  resolve_selection proposals legal preferred d =
      let override = override_action (decided_id d) d.selected_action in
      after_id (final_id legal preferred d override)
        λ key. selected_of proposals legal d.selected_action key override

abbrev source_of : Option SelectedAction → Option String
source_of none = none
source_of (some a) = a.source_proposal_id

abbrev is_selected : String → Option String → Bool
is_selected i none = false
is_selected i (some key) = i == key

-- The record of a decision, less the notes on its canonical form, the disagreement summary and the
-- confidence: an action is never recorded as a no-op or as ready to finalize.
unfoldable pub decision_record :
    {F : Type 0}
    → List (Proposal F)
    → ArbitrationRecord
    → Decision
    → String × Option SelectedAction
    → ArbitrationRecord
decision_record proposals guardrail d (key, action) =
    let all_ids = map (λ (p : Proposal _). p.proposal_id) proposals in
    let selected = if key == "" then source_of action else some key in
    record {
      selected_proposal_id = selected;
      selected_action = action;
      rejected_proposals =
          or_list d.rejected_proposal_ids (filter_by (λ i. not (is_selected i selected)) all_ids);
      guardrail_notes = or_list d.guardrail_notes guardrail.guardrail_notes;
      rationale = if d.rationale == "" then guardrail.rationale else d.rationale;
      whether_noop = is_none action && d.whether_noop;
      whether_waiting_external = elim action [
        | none ↦ d.whether_waiting_external
        | some a ↦ a.wait_for_event_after_submission
      ];
      whether_ready_to_finalize = is_none action && d.whether_ready_to_finalize;
      legal_proposal_ids = guardrail.legal_proposal_ids;
      guardrail_preferred_proposal_id = guardrail.guardrail_preferred_proposal_id;
    }

-- The proposals in canonical form, and the notes on what that changed.
unfoldable pub normalize : {F : Type 0} → List (Proposal F) → List (Proposal F)
normalize [] = []
normalize (p ∷ ps) = (canonicalize_proposal p).0 ∷ normalize ps

unfoldable pub normalization_notes : {F : Type 0} → List (Proposal F) → List Note
normalization_notes [] = []
normalization_notes (p ∷ ps) =
    let (q, notes) = canonicalize_proposal p in
    map (canonicalized q.proposal_id) notes ++ normalization_notes ps

module _ (fl : Floats) (critiques : List Critique) (preferences : List (Preference fl.F))
    (legality : Proposal fl.F → Bool × List String)
    (action_legality : SelectedAction → Bool × List String) (supporting : List String)
    (ask : List (Proposal fl.F) → ArbitrationRecord → Option Decision) where
  -- `ask` is the call of the language model: `none` where it or its parsing raises.
  unfoldable pub arbitrate : Situation → List (Proposal fl.F) → Option ArbitrationRecord
  unfolding normalization_notes
  arbitrate s proposals =
      let normalized = normalize proposals in
      let found = guardrail_arbitration fl critiques preferences legality s normalized in
      let guardrail = record found {
        guardrail_notes = found.guardrail_notes ++ normalization_notes proposals;
      } in
      let legal = dedupe_texts guardrail.legal_proposal_ids in
      let preferred = strip (or_text guardrail.guardrail_preferred_proposal_id "") in
      if is_empty normalized || is_empty legal
      then some guardrail
      else elim (ask normalized guardrail) [
        | none ↦ none
        | some d ↦
            elim (resolve_selection action_legality supporting normalized legal preferred d) [
              | none ↦ none
              | some selection ↦ some (decision_record normalized guardrail d selection)
            ]
      ]
