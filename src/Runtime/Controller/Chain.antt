-- ===== src/Runtime/Controller/Chain.antt =====
-- A plan is a chain of capabilities, each of which depends on the one before it, up to the milestone.
use d_mobility.Prelude.{
  String, ◌≡◌, refl, ◌⊎◌, inl, inr, Bool, true, false, not, ◌&&◌, List, [], ◌∷◌, some, ◌==◌,
  contains, strip, is_empty, All, contains-All, Bool-cases, eq_refl, if◌then◌else◌,
}
use d_mobility.Runtime.Actions.{capability_dependencies}
use d_mobility.Runtime.Controller.Plan.{
  ending_families, is_validation_followup, Council, PolicyMode, strict, balanced, permissive,
  planned_capabilities, planned_by_segment, planned_strictly, segment_from_capability,
}

-- Each capability depends on exactly the one before it.
abbrev pub is_chain : List String → Bool
is_chain [] = true
is_chain (c ∷ []) = true
is_chain (c ∷ d ∷ rest) = contains c (capability_dependencies d) && is_chain (d ∷ rest)

-- The milestone is the last planned capability, and there is none where nothing is planned.
abbrev pub ends_in : List String → List String → Bool
ends_in [] milestones = is_empty milestones
ends_in (c ∷ []) (m ∷ []) = c == m
ends_in (c ∷ []) _ = false
ends_in (c ∷ d ∷ rest) milestones = ends_in (d ∷ rest) milestones

pub record IsPlan (p : List String × List String) : Type 0 where
  pub chained : is_chain p.0 ≡ true
  pub milestone_last : ends_in p.0 p.1 ≡ true

only-IsPlan : (c : String) → IsPlan (c ∷ [], c ∷ [])
only-IsPlan c = record { chained = refl; milestone_last = eq_refl c }

either-IsPlan :
    (b : Bool) {p q : List String × List String} → IsPlan p → IsPlan q → IsPlan (if b then p else q)
either-IsPlan true h k = h
either-IsPlan false h k = k

nothing : IsPlan ([], [])
nothing = record { chained = refl; milestone_last = refl }

refined-IsPlan : IsPlan ("strain_loop" ∷ "mobility" ∷ "validation" ∷ [], "validation" ∷ [])
unfolding capability_dependencies
refined-IsPlan = record { chained = refl; milestone_last = refl }

strictly-IsPlan :
    (reason : String) (council : Council) (family target : String)
    → IsPlan (planned_strictly reason council family target)
unfolding planned_strictly
strictly-IsPlan reason council family target =
    either-IsPlan (family == "refine_sampling") refined-IsPlan (
      either-IsPlan (contains family ending_families) nothing (
        either-IsPlan (is_validation_followup council && family == "revalidate_result")
          (only-IsPlan "validation")
          (either-IsPlan (not (target == "")) (only-IsPlan target)
            (either-IsPlan (reason == "initial_plan") (only-IsPlan "prepare") nothing))))

-- The segments up to strain_loop.
abbrev SegmentIsPlan : String → Type 0
SegmentIsPlan t = IsPlan (segment_from_capability (some t) "strain_loop", "strain_loop" ∷ [])

segments-IsPlan : All SegmentIsPlan ("prepare" ∷ "relax" ∷ "scf" ∷ "band" ∷ "effective_mass" ∷ [])
unfolding segment_from_capability capability_dependencies strip
segments-IsPlan = (
  record { chained = refl; milestone_last = refl },
  (
    record { chained = refl; milestone_last = refl },
    (
      record { chained = refl; milestone_last = refl },
      (
        record { chained = refl; milestone_last = refl },
        (record { chained = refl; milestone_last = refl }, tt),
      ),
    ),
  ),
)

final-IsPlan : IsPlan ("mobility" ∷ "validation" ∷ [], "validation" ∷ [])
unfolding capability_dependencies
final-IsPlan = record { chained = refl; milestone_last = refl }

by_segment-IsPlan :
    (reason : String) (council : Council) (family target : String)
    → IsPlan (planned_by_segment reason council family target)
unfolding planned_by_segment
by_segment-IsPlan reason council family target =
    either-IsPlan (family == "refine_sampling") refined-IsPlan (
      either-IsPlan (contains family ending_families) nothing (
        either-IsPlan (is_validation_followup council)
          (either-IsPlan (family == "revalidate_result") (only-IsPlan "validation") nothing)
          (segment (Bool-cases (contains target early)))))
  where
    early : List String
    early = "prepare" ∷ "relax" ∷ "scf" ∷ "band" ∷ "effective_mass" ∷ []

    others : List String × List String
    others =
        if target == "strain_loop"
        then ("strain_loop" ∷ [], "strain_loop" ∷ [])
        else if target == "mobility"
        then ("mobility" ∷ "validation" ∷ [], "validation" ∷ [])
        else if target == "validation"
        then ("validation" ∷ [], "validation" ∷ [])
        else if reason == "initial_plan"
        then (segment_from_capability (some "prepare") "strain_loop", "strain_loop" ∷ [])
        else ([], [])

    others-IsPlan : IsPlan others
    others-IsPlan = either-IsPlan (target == "strain_loop") (only-IsPlan "strain_loop") (
        either-IsPlan (target == "mobility") final-IsPlan (
          either-IsPlan (target == "validation") (only-IsPlan "validation")
            (either-IsPlan (reason == "initial_plan") segments-IsPlan.0 nothing)))

    segment :
        (contains target early ≡ true) ⊎ (contains target early ≡ false)
        → IsPlan (
            if contains target early
            then (segment_from_capability (some target) "strain_loop", "strain_loop" ∷ [])
            else others)
    segment (inl e) = rw e (contains-All SegmentIsPlan target early e segments-IsPlan)
    segment (inr e) = rw e others-IsPlan

-- In every mode, each planned capability is one that the next planned one depends on, and the
-- milestone is the last planned capability; where nothing is planned there is no milestone.
pub planned_capabilities-IsPlan :
    (mode : PolicyMode) (reason : String) (council : Council) (family target : String)
    → (is_chain (planned_capabilities mode reason council family target).0 ≡ true)
      × (ends_in
            (planned_capabilities mode reason council family target).0
            (planned_capabilities mode reason council family target).1
          ≡ true)
unfolding planned_capabilities
planned_capabilities-IsPlan strict reason council family target =
    let p = strictly-IsPlan reason council family (strip target) in (p.chained, p.milestone_last)
planned_capabilities-IsPlan balanced reason council family target =
    let p = by_segment-IsPlan reason council family (strip target) in (p.chained, p.milestone_last)
planned_capabilities-IsPlan permissive reason council family target =
    let p = by_segment-IsPlan reason council family (strip target) in (p.chained, p.milestone_last)
