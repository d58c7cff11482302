-- ===== src/Tools/RelaxRetry.antt =====
-- mobility_agent/tools/relax_retry.py: the relax stage with retries. What an attempt of VASP leaves
-- behind is an `Attempt`, given for each retry number; the working directory is the checkpoint and
-- the retry log that the code keeps there.
pub mod Budget
pub mod Success
mod Types
unfoldable pub use Types.*
use d_mobility.Prelude.{
  ℕ, zero, suc, ◌+◌, ◌-◌, String, Bool, true, false, not, ◌&&◌, ◌||◌, List, [], ◌∷◌, ◌++◌, Option,
  none, some, ◌==◌, leb, ltb, is_empty, length, if◌then◌else◌,
}
use d_mobility.Tools.VaspFailure.{
  ErrorType, runner_environment_failure, chgcar_compatibility_failure, Log,
  classify_vasp_failure_text, nonzero_exit, no_error, unknown_failure, missing_output,
  rerun_with_smaller_ediff,
}

-- `_maybe_resume_from_checkpoint`
unfoldable pub resume_point : World → ℕ × Option String
resume_point w = elim w.checkpoint [
  | none ↦ (0, none)
  | some ck ↦ (ck.retry_n, ck.last_backup_file)
]

-- The error types for which a retry is given up.
abbrev is_abortable : ErrorType → Bool
is_abortable runner_environment_failure = true
is_abortable chgcar_compatibility_failure = true
is_abortable _ = false

-- `_classify_abortable_vasp_failure`
unfoldable pub classify_abortable : Attempt → Option (ErrorType × Trigger)
classify_abortable a =
    let (error_type, pattern) = classify_vasp_failure_text a.log in
    if is_abortable error_type then some (error_type, abortable pattern a.exit_code) else none

-- `_make_retry_summary` of a run that stops for good.
abbrev pub failed_summary :
    ErrorType → Trigger → ℕ → ℕ → ActionName → ActionName → Option String → List Action → Summary
failed_summary error_type trigger retries_used max_retries recommended applied backup actions =
    record {
      error_type = error_type;
      trigger_pattern = trigger;
      retries_used = retries_used;
      max_retries = max_retries;
      recommended_action = recommended;
      applied_action = applied;
      succeeded = false;
      backup_file = backup;
      actions = actions;
    }

unfoldable pub append_retry_log : LogEntry → World → World
append_retry_log e w = record w { retry_log = w.retry_log ++ e ∷ [] }

abbrev pub fresh_run : World → Run
fresh_run w = record { backups = []; actions = []; world = w }

module _ (cfg : Config) where
  -- Retries switched off: one attempt, and no file of the run is touched.
  unfoldable pub run_once : Attempt → Outcome
  run_once a =
      if not (is_zero a.exit_code)
      then elim (classify_abortable a) [
        | some (error_type, trigger) ↦ returned false [] (
            failed_summary error_type trigger 0 cfg.max_retries repair_execution_context
              abort_stage_retry none (aborted error_type trigger ∷ []))
        | none ↦ returned false [] (
            failed_summary nonzero_exit (returncode a.exit_code) 0 cfg.max_retries retry retry none
              [])
      ]
      else if cfg.check_convergence && not a.convergence_ok
      then returned false [] (
          failed_summary ErrorType.nonconverged Trigger.nonconverged 0 cfg.max_retries retry retry
            none [])
      else returned true [] (record {
        error_type = no_error;
        trigger_pattern = normal_completion;
        retries_used = 0;
        max_retries = cfg.max_retries;
        recommended_action = continue;
        applied_action = continue;
        succeeded = true;
        backup_file = none;
        actions = [];
      })

  -- The return of an attempt that exits with 0 and converges.
  unfoldable pub succeed : Run → Outcome
  succeed r = returned true r.backups (record {
    error_type = no_error;
    trigger_pattern = normal_completion;
    retries_used = length r.backups;
    max_retries = cfg.max_retries;
    recommended_action = continue;
    applied_action = if is_empty r.actions then continue else copy_contcar_to_poscar_and_retry;
    succeeded = true;
    backup_file = last_backup r.backups;
    actions = r.actions;
  })

  -- The last retry has failed: the log, the checkpoint at the limit, and the raise.
  unfoldable pub exhaust : Trigger → ℕ → Run → Progress
  unfolding append_retry_log
  exhaust trigger retry_n r =
      let w =
        append_retry_log
          (record {
            material_id = cfg.material_id;
            retry_n = retry_n;
            error_snippet = trigger;
            backup_file = none;
          })
          r.world in
      stop
        (fatal Trigger.retry_limit_reached (
          failed_summary ErrorType.retry_limit_reached trigger cfg.max_retries cfg.max_retries
            skip_material skip_material (last_backup r.backups) r.actions))
        (record w {
          checkpoint = some (record {
            material_id = cfg.material_id;
            retry_n = cfg.max_retries;
            last_backup_file = last_backup r.backups;
          });
        })

  -- CONTCAR is promoted: the backup, the action, the checkpoint and the log of the next retry.
  unfoldable pub promote : ErrorType → Trigger → Attempt → String → ℕ → Run → Run
  unfolding append_retry_log
  promote error_type trigger a backup next_n r =
      let w = record r.world {
        checkpoint = some (record {
          material_id = cfg.material_id;
          retry_n = next_n;
          last_backup_file = some backup;
        });
      } in
      record {
        backups = r.backups ++ backup ∷ [];
        actions =
            r.actions
            ++ promoted next_n error_type trigger backup a.ediff_before a.ediff_after ∷ [];
        world =
            append_retry_log
              (record {
                material_id = cfg.material_id;
                retry_n = next_n;
                error_snippet = trigger;
                backup_file = some backup;
              })
              w;
      }

  -- From the test of `next_retry_n` on; the two branches of the source differ in what a missing
  -- CONTCAR leads to.
  unfoldable pub next_retry : Progress → ErrorType → Trigger → Attempt → ℕ → Run → Progress
  next_retry missing error_type trigger a retry_n r =
      if ltb cfg.max_retries (retry_n + 1) then exhaust trigger retry_n r else elim a.backup [
        | none ↦ missing
        | some backup ↦ again (promote error_type trigger a backup (retry_n + 1) r)
      ]

  -- The retry after a failure that the configuration retries.
  unfoldable pub retry_failure : ErrorType → Trigger → Attempt → ℕ → Run → Progress
  retry_failure error_type trigger a retry_n r =
      next_retry
        (stop
          (returned false r.backups (
            failed_summary missing_output contcar_missing (length r.backups) cfg.max_retries
              skip_material skip_material none r.actions))
          r.world)
        error_type trigger a retry_n r

  abbrev pub exit_ok : Attempt → Bool
  exit_ok a = is_zero a.exit_code

  abbrev pub converged : Attempt → Bool
  converged a = not cfg.check_convergence || a.convergence_ok

  -- `failure_reason` and `failure_type` once no abortable failure was found.
  unfoldable pub failure_of : Attempt → Option (ErrorType × Trigger)
  failure_of a =
      if not (exit_ok a) && cfg.retry_on_nonzero_exit
      then some (
          if not (converged a) && cfg.retry_on_nonconvergence
          then (ErrorType.nonconverged, returncode a.exit_code)
          else (nonzero_exit, returncode a.exit_code))
      else if not (converged a) && cfg.retry_on_nonconvergence
      then some (ErrorType.nonconverged, Trigger.nonconverged)
      else none

  unfoldable pub abort_with : ErrorType → Trigger → Run → Progress
  abort_with error_type trigger r =
      stop
        (returned false r.backups (
          failed_summary error_type trigger (length r.backups) cfg.max_retries
            repair_execution_context abort_stage_retry (last_backup r.backups)
            (r.actions ++ aborted error_type trigger ∷ [])))
        r.world

  -- The failure that is not retried: fail fast, or go on to the retry.
  unfoldable pub after_failure : Attempt → ℕ → Run → Progress
  after_failure a retry_n r = elim (failure_of a) [
    | none ↦
        stop
          (returned false r.backups (
            failed_summary unknown_failure
              (if exit_ok a then Trigger.nonconverged else returncode a.exit_code)
              (length r.backups) cfg.max_retries abort_workflow abort_workflow
              (last_backup r.backups) r.actions))
          r.world
    | some (error_type, trigger) ↦ retry_failure error_type trigger a retry_n r
  ]

  -- The branch of an attempt in which no banner was seen.
  unfoldable pub without_banner : Attempt → ℕ → Run → Progress
  without_banner a retry_n r =
      if exit_ok a && converged a
      then stop (succeed r) r.world
      else if not (exit_ok a) && cfg.retry_on_nonzero_exit
      then elim (classify_abortable a) [
        | some (error_type, trigger) ↦ abort_with error_type trigger r
        | none ↦ after_failure a retry_n r
      ]
      else after_failure a retry_n r

  -- The branch of an attempt in which the ZBRENT banner was seen; the process has been killed.
  unfoldable pub with_banner : String → Attempt → ℕ → Run → Progress
  with_banner snippet a retry_n r =
      next_retry (stop contcar_not_found r.world) rerun_with_smaller_ediff
        (if snippet == "" then zbrent_fatal else log_tail snippet) a retry_n r

  unfoldable pub attempt_once : Attempt → ℕ → Run → Progress
  attempt_once a retry_n r = elim a.banner [
    | some snippet ↦ with_banner snippet a retry_n r
    | none ↦ without_banner a retry_n r
  ]

  module _ (attempts : ℕ → Attempt) where
    -- `for retry_n in range(retry_n0, max_retries + 1)` with the rounds that are left, and the
    -- raise behind the loop.
    unfoldable pub retry_loop : ℕ → ℕ → Run → Outcome × World
    retry_loop zero retry_n r = (
      fatal Trigger.retry_limit_reached (
          failed_summary ErrorType.retry_limit_reached Trigger.retry_limit_reached cfg.max_retries
            cfg.max_retries skip_material skip_material (last_backup r.backups) r.actions),
      r.world,
    )
    retry_loop (suc rounds) retry_n r = elim (attempt_once (attempts retry_n) retry_n r) [
      | stop outcome w ↦ (outcome, w)
      | again r' ↦ retry_loop rounds (retry_n + 1) r'
    ]

    unfoldable pub run_relax_vasp_with_retry : World → Outcome × World
    unfolding append_retry_log
    run_relax_vasp_with_retry w =
        let (retry_n0, last) = resume_point w in
        if leb cfg.max_retries retry_n0
        then (
          fatal skip_after_3_retries (
              failed_summary ErrorType.retry_limit_reached skip_after_3_retries retry_n0
                cfg.max_retries skip_material skip_material last []),
          append_retry_log
              (record {
                material_id = cfg.material_id;
                retry_n = retry_n0;
                error_snippet = skip_after_3_retries;
                backup_file = last;
              })
              w,
        )
        else if not cfg.enabled
        then (run_once (attempts retry_n0), w)
        else retry_loop (cfg.max_retries + 1 - retry_n0) retry_n0 (fresh_run w)
