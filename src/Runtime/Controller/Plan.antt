-- ===== src/Runtime/Controller/Plan.antt =====
-- mobility_agent/runtime/agentic_controller.py: the capabilities that a selected action plans, with
-- `next_capability_after` of mobility_agent/runtime/capability_registry.py.
use d_mobility.Prelude.{
  ℕ, zero, suc, ◌-◌, ◌+◌, String, Bool, true, false, not, ◌&&◌, ◌||◌, List, [], ◌∷◌, Option, none,
  some, ◌==◌, contains, index_text, drop, ltb, strip, or_text, filter_by, map, if◌then◌else◌,
}
use d_mobility.Prelude.{is_blank}
use d_mobility.Runtime.Actions.{capability_sequence}

abbrev pub take {ℓ} : {A : Type ℓ} → ℕ → List A → List A
take zero xs = []
take (suc n) [] = []
take (suc n) (x ∷ xs) = x ∷ take n xs

-- `_segment_from_capability`
unfoldable pub segment_from_capability : Option String → String → List String
segment_from_capability start_capability end_capability =
    let start = strip (or_text start_capability "") in
    let start_index = index_text start capability_sequence in
    let end_index = index_text end_capability capability_sequence in
    if start == ""
      || not (contains start capability_sequence)
      || not (contains end_capability capability_sequence)
    then []
    else if ltb end_index start_index
    then start ∷ []
    else take (end_index + 1 - start_index) (drop start_index capability_sequence)

-- A council, and the mode of its policy: any text but strict and permissive is balanced.
pub data Council : Type 0 where
  failure_council validation_followup_council segment_council : Council

pub data PolicyMode : Type 0 where
  strict balanced permissive : PolicyMode

abbrev pub is_validation_followup : Council → Bool
is_validation_followup validation_followup_council = true
is_validation_followup _ = false

abbrev pub ending_families : List String
ending_families = "finalize_material" ∷ "abort_material" ∷ "escalate_human" ∷ []

abbrev pub refined : List String × List String
refined = ("strain_loop" ∷ "mobility" ∷ "validation" ∷ [], "validation" ∷ [])

abbrev only : String → List String × List String
only capability = (capability ∷ [], capability ∷ [])

unfoldable pub planned_strictly : String → Council → String → String → List String × List String
planned_strictly reason council family target =
    if family == "refine_sampling"
    then refined
    else if contains family ending_families
    then ([], [])
    else if is_validation_followup council && family == "revalidate_result"
    then only "validation"
    else if not (target == "")
    then only target
    else if reason == "initial_plan"
    then only "prepare"
    else ([], [])

unfoldable pub planned_by_segment : String → Council → String → String → List String × List String
unfolding segment_from_capability
planned_by_segment reason council family target =
    if family == "refine_sampling"
    then refined
    else if contains family ending_families
    then ([], [])
    else if is_validation_followup council
    then (if family == "revalidate_result" then only "validation" else ([], []))
    else if contains target ("prepare" ∷ "relax" ∷ "scf" ∷ "band" ∷ "effective_mass" ∷ [])
    then (segment_from_capability (some target) "strain_loop", "strain_loop" ∷ [])
    else if target == "strain_loop"
    then only "strain_loop"
    else if target == "mobility"
    then ("mobility" ∷ "validation" ∷ [], "validation" ∷ [])
    else if target == "validation"
    then only "validation"
    else if reason == "initial_plan"
    then (segment_from_capability (some "prepare") "strain_loop", "strain_loop" ∷ [])
    else ([], [])

-- `_planned_capabilities_for_selection`: the planned capabilities and the milestones.
unfoldable pub planned_capabilities :
    PolicyMode → String → Council → String → String → List String × List String
unfolding planned_strictly planned_by_segment
planned_capabilities strict reason council family target =
    planned_strictly reason council family (strip target)
planned_capabilities balanced reason council family target =
    planned_by_segment reason council family (strip target)
planned_capabilities permissive reason council family target =
    planned_by_segment reason council family (strip target)

-- The first planned capability that is not blank and not completed.
unfoldable pub first_open : List String → List String → Option String
first_open completed [] = none
first_open completed (capability ∷ rest) =
    let others = first_open completed rest in
    if not (strip capability == "") && not (contains (strip capability) completed)
    then some (strip capability)
    else others

unfoldable pub next_capability_after : List String → List String → Option String
unfolding first_open
next_capability_after completed planned =
    first_open (map strip (filter_by (λ c. not (is_blank c)) completed)) planned
