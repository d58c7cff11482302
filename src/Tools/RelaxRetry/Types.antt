-- ===== src/Tools/RelaxRetry/Types.antt =====
-- mobility_agent/tools/relax_retry.py: the data of the relax stage, its checkpoint and its results.
use d_mobility.Prelude.{ℕ, zero, String, Bool, true, false, List, [], ◌∷◌, Option, none, some}
use d_mobility.Tools.VaspFailure.{ErrorType, Log}

-- `returncode`: the exit status, or the signal that ended the process as a negative number.
pub data ExitCode : Type 0 where
  exited signalled : ℕ → ExitCode

abbrev pub is_zero : ExitCode → Bool
is_zero (exited zero) = true
is_zero _ = false

-- `log_tail` is a text of the logs; `abortable` a pattern with `; RETURNCODE_n`.
pub data Trigger : Type 0 where
  skip_after_3_retries nonconverged normal_completion contcar_missing zbrent_fatal
        retry_limit_reached :
      Trigger
  returncode : ExitCode → Trigger
  log_tail : String → Trigger
  abortable : String → ExitCode → Trigger

pub data ActionName : Type 0 where
  skip_material repair_execution_context retry continue abort_workflow abort_stage_retry
        copy_contcar_to_poscar_and_retry :
      ActionName

-- An entry of `recovery_actions`. The abort entry has no retry number and no files.
pub data Action : Type 0 where
  promoted :
      (retry_n : ℕ) (error_type : ErrorType) (trigger : Trigger) (backup_file : String)
      (ediff_before ediff_after : Option String)
      → Action
  aborted : ErrorType → Trigger → Action

pub record Summary : Type 0 where
  pub error_type : ErrorType
  pub trigger_pattern : Trigger
  pub retries_used : ℕ
  pub max_retries : ℕ
  pub recommended_action : ActionName
  pub applied_action : ActionName
  pub succeeded : Bool  -- `final_outcome`
  pub backup_file : Option String
  pub actions : List Action

pub record Checkpoint : Type 0 where
  pub material_id : String
  pub retry_n : ℕ
  pub last_backup_file : Option String

pub record LogEntry : Type 0 where
  pub material_id : String
  pub retry_n : ℕ
  pub error_snippet : Trigger
  pub backup_file : Option String

pub record World : Type 0 where
  pub checkpoint : Option Checkpoint
  pub retry_log : List LogEntry

pub record Config : Type 0 where
  pub material_id : String
  pub enabled : Bool
  pub check_convergence : Bool
  pub max_retries : ℕ
  pub retry_on_nonzero_exit : Bool
  pub retry_on_nonconvergence : Bool

-- What one attempt leaves behind: the log lines around the ZBRENT banner if it was seen, the exit
-- code, `convergence_ok`, the failure logs, the backup of POSCAR that `_backup_and_promote_contcar`
-- makes (none if CONTCAR is missing or empty) and what `_tighten_ediff_in_incar` returns.
pub record Attempt : Type 0 where
  pub banner : Option String
  pub exit_code : ExitCode
  pub convergence_ok : Bool
  pub log : Log
  pub backup : Option String
  pub ediff_before : Option String
  pub ediff_after : Option String

-- The two ways to return and to raise; `contcar_not_found` is the `FileNotFoundError` that the
-- banner branch lets through.
pub data Outcome : Type 0 where
  returned : (ok : Bool) (backups : List String) (summary : Summary) → Outcome
  fatal : Trigger → Summary → Outcome
  contcar_not_found : Outcome

pub record Run : Type 0 where
  pub backups : List String
  pub actions : List Action
  pub world : World

pub data Progress : Type 0 where
  stop : Outcome → World → Progress
  again : Run → Progress

-- `backups[-1] if backups else None`
abbrev pub last_backup : List String → Option String
last_backup [] = none
last_backup (b ∷ []) = some b
last_backup (b ∷ c ∷ bs) = last_backup (c ∷ bs)
