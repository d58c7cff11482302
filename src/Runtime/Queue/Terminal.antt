-- ===== src/Runtime/Queue/Terminal.antt =====
-- What the marks leave of an earlier attempt.
use d_mobility.Prelude.{ℕ, String, ◌≡◌, refl, ap, ◌∙◌, true, Option, none, some, contains}
use d_mobility.Runtime.Queue.Documents.{Field, text, payload, Update, updated, Collection}
use d_mobility.Runtime.Queue.Marks.{
  Report, Completion, completed_update, failed_update, mark_completed, mark_failed, entries,
  calc_choices, completed_values, agent_choices, failed_values, terminal_success_unset,
  terminal_non_success_unset,
}
use d_mobility.Runtime.Queue.Fields.{
  updated-set, updated-unset, prefixed-contains, completed-status, failed-status,
}

module _ (collection : Collection) (id : ℕ) (now : ℕ) (s : collection.Store)
    (there : collection.has s id ≡ true) where
  open collection use {document, update_one, update_one_document}

  field_after :
      (u : Update) (key : String) (v : Option Field)
      → updated u (document s id) key ≡ v
      → document (update_one id u s) id key ≡ v
  field_after u key v h = ap (λ d. d key) (update_one_document id u s there) ∙ h

  gone :
      (u : Update) (key : String)
      → contains key u.unset ≡ true
      → document (update_one id u s) id key ≡ none
  gone u key h = field_after u key none (updated-unset u (document s id) key h)

  -- A document of the collection that is marked as completed has that status and the results, and
  -- no error and no time of a failure.
  pub completed_mark :
      (c : Completion)
      → (document (mark_completed collection id c now s) id "mobility_calc.status"
          ≡ some (text "completed"))
        × (document (mark_completed collection id c now s) id "mobility_calc.results"
            ≡ some (payload c.results))
        × (document (mark_completed collection id c now s) id "mobility_calc.error" ≡ none)
        × (document (mark_completed collection id c now s) id "mobility_calc.failed_at" ≡ none)
        × (document (mark_completed collection id c now s) id "mobility_agent.error" ≡ none)
        × (document (mark_completed collection id c now s) id "mobility_agent.failed_at" ≡ none)
  unfolding mark_completed completed_update calc_choices completed_values entries
  completed_mark c =
      let u = completed_update c now in
      let d = document s id in
      (
        field_after u "mobility_calc.status" (some (text "completed")) (completed-status c now d),
        field_after u "mobility_calc.results" (some (payload c.results)) (
            updated-set u d "mobility_calc.results" (payload c.results)
              (prefixed-contains "mobility_calc.results" terminal_success_unset (calc_choices c)
                refl refl)
              refl),
        gone u "mobility_calc.error" refl,
        gone u "mobility_calc.failed_at" refl,
        gone u "mobility_agent.error" refl,
        gone u "mobility_agent.failed_at" refl,
      )

  -- A document of the collection that is marked as failed has that status and the error, and no
  -- results and no time of a completion.
  pub failed_mark :
      (r : Report) (error : String)
      → (document (mark_failed collection id r error now s) id "mobility_calc.status"
          ≡ some (text "failed"))
        × (document (mark_failed collection id r error now s) id "mobility_calc.error"
            ≡ some (payload error))
        × (document (mark_failed collection id r error now s) id "mobility_calc.results" ≡ none)
        × (document (mark_failed collection id r error now s) id "mobility_calc.completed_at"
            ≡ none)
        × (document (mark_failed collection id r error now s) id "mobility_agent.completed_at"
            ≡ none)
  unfolding mark_failed failed_update agent_choices failed_values entries
  failed_mark r error =
      let u = failed_update r error now in
      let d = document s id in
      (
        field_after u "mobility_calc.status" (some (text "failed")) (failed-status r error now d),
        field_after u "mobility_calc.error" (some (payload error)) (
            updated-set u d "mobility_calc.error" (payload error)
              (prefixed-contains "mobility_calc.error" terminal_non_success_unset (agent_choices r)
                refl refl)
              refl),
        gone u "mobility_calc.results" refl,
        gone u "mobility_calc.completed_at" refl,
        gone u "mobility_agent.completed_at" refl,
      )
