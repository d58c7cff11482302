-- ===== src/Graph/Status/Completed.antt =====
-- When a derived status is `completed`, and which statuses can be derived.
use d_mobility.Prelude.{
  String, ◌≡◌, refl, ap, subst, Bool, true, false, not, ◌&&◌, ◌||◌, List, [], ◌∷◌, Option, ◌==◌,
  contains, all, is_empty, ◌∙◌, arith, eq_iff, Bool-cases, inl, inr, if◌then◌else◌,
}
use d_mobility.Graph.Status.{
  StageStatus, has_mobility_results, waiting_run_statuses, has_completed_compute,
  has_failed_compute_stage, raw_status_of, derive_compute_status,
}

-- The statuses of a run that has not ended.
abbrev pub unfinished_statuses : List String
unfinished_statuses =
    "ready_to_finalize" ∷ "waiting_external" ∷ "needs_human" ∷ "pending" ∷ "running" ∷ []

not_completed : (r : String) → ("completed" == r) ≡ false → (r == "completed") ≡ false
not_completed r h = elim (Bool-cases (r == "completed")) [
  | inl e ↦ absurd (cc (ap (λ (s : String). "completed" == s) ((eq_iff r "completed").0 e), h))
  | inr e ↦ e
]

-- The last tests, for a run that has ended without complete results.
ended-completed :
    (r : String) (failed : Bool)
    → ((if failed || contains r ("failed" ∷ "aborted" ∷ [])
          then "failed"
          else if contains r ("completed" ∷ "skipped" ∷ [])
          then "skipped"
          else r)
        == "completed")
      ≡ false
ended-completed r failed = elim (Bool-cases (failed || contains r ("failed" ∷ "aborted" ∷ []))) [
  | inl e ↦ rw e refl
  | inr e ↦ elim (Bool-cases ("completed" == r)) [
    | inl f ↦ rw (e, f) refl
    | inr f ↦ elim (Bool-cases ("skipped" == r)) [
      | inl g ↦ rw (e, f, g) refl
      | inr g ↦ rw (e, f, g) (not_completed r f)
    ]
  ]
]

-- A named status, in place of a text that equals it.
named : (P : String → Type 0) (t r : String) → P t → (t == r) ≡ true → P r
named P t r p e = subst P ((eq_iff t r).0 e) p

-- The stages before the validation.
abbrev pub stages_to_compute : List String
stages_to_compute =
    "prepare" ∷ "relax" ∷ "scf" ∷ "band" ∷ "effective_mass" ∷ "strain_loop" ∷ "mobility" ∷ []

-- Complete results are mobility results without a failed compute stage.
has_completed_compute_lem :
    (results : List String) (stage_status : StageStatus)
    → has_completed_compute results stage_status
      ≡ (not (is_empty results) && all (λ c. not (stage_status c == "failed")) stages_to_compute)
unfolding has_completed_compute has_failed_compute_stage has_mobility_results
has_completed_compute_lem results stage_status = ground arith

-- The derived status is completed exactly where the status of the run is not one of a run that has
-- not ended, there are mobility results, and none of the stages from prepare to mobility has
-- failed.
pub derive_compute_status-completed :
    (run_status : Option String) (results : List String) (stage_status : StageStatus)
    → (derive_compute_status run_status results stage_status == "completed") ≡ (
        not (contains (raw_status_of run_status) unfinished_statuses)
        && (not (is_empty results)
            && all (λ c. not (stage_status c == "failed")) stages_to_compute))
unfolding derive_compute_status
derive_compute_status-completed run_status results stage_status =
    go (raw_status_of run_status) (has_completed_compute results stage_status)
      (has_failed_compute_stage stage_status)
    ∙ ap (λ (b : Bool). not (contains (raw_status_of run_status) unfinished_statuses) && b)
        (has_completed_compute_lem results stage_status)
  where
    P : Bool → Bool → String → Type 0
    P done failed r =
        ((if "ready_to_finalize" == r
            then "running"
            else if contains r waiting_run_statuses || contains r ("pending" ∷ "running" ∷ [])
            then r
            else if done
            then "completed"
            else if failed || contains r ("failed" ∷ "aborted" ∷ [])
            then "failed"
            else if contains r ("completed" ∷ "skipped" ∷ [])
            then "skipped"
            else r)
          == "completed")
        ≡ (not (contains r unfinished_statuses) && done)

    go : (r : String) (done failed : Bool) → P done failed r
    go r done failed = elim (Bool-cases ("ready_to_finalize" == r)) [
      | inl e ↦ named (P done failed) "ready_to_finalize" r refl e
      | inr e ↦ elim (Bool-cases ("waiting_external" == r)) [
        | inl f ↦ named (P done failed) "waiting_external" r refl f
        | inr f ↦ elim (Bool-cases ("needs_human" == r)) [
          | inl g ↦ named (P done failed) "needs_human" r refl g
          | inr g ↦ elim (Bool-cases ("pending" == r)) [
            | inl h ↦ named (P done failed) "pending" r refl h
            | inr h ↦ elim (Bool-cases ("running" == r)) [
              | inl i ↦ named (P done failed) "running" r refl i
              | inr i ↦ rw (e, f, g, h, i) (last r done failed)
            ]
          ]
        ]
      ]
    ]
      where
        last :
            (r : String) (done failed : Bool)
            → ((if done
                  then "completed"
                  else if failed || contains r ("failed" ∷ "aborted" ∷ [])
                  then "failed"
                  else if contains r ("completed" ∷ "skipped" ∷ [])
                  then "skipped"
                  else r)
                == "completed")
              ≡ done
        last r true failed = refl
        last r false failed = ended-completed r failed
