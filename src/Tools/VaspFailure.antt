-- ===== src/Tools/VaspFailure.antt =====
-- mobility_agent/tools/vasp_common.py: the classification of a VASP failure by its logs.
use d_mobility.Prelude.{String, Bool, ◌&&◌, List, [], ◌∷◌, Option, none, some, any, if◌then◌else◌}

-- Whether a pattern stands in the lower-cased text of the logs.
abbrev pub Log : Type 0
Log = String → Bool

-- The error types that the relax stage names.
pub data ErrorType : Type 0 where
  runner_environment_failure chgcar_compatibility_failure unknown_failure retry_limit_reached
        nonzero_exit nonconverged no_error missing_output rerun_with_smaller_ediff :
      ErrorType

abbrev runner_environment_patterns : List String
runner_environment_patterns =
    "mpirun: command not found" ∷ "mpiexec: command not found" ∷ "vasp_std: command not found"
    ∷ "vasp_gam: command not found" ∷ "vasp_ncl: command not found" ∷ "mpirun: not found"
    ∷ "mpiexec: not found" ∷ "vasp_std: not found" ∷ "vasp_gam: not found" ∷ "vasp_ncl: not found"
    ∷ "error while loading shared libraries" ∷ "cannot open shared object file" ∷ "ld_library_path"
    ∷ "libmpi" ∷ "libmkl" ∷ "libifcore" ∷ "libimf" ∷ "orted: command not found" ∷ []

abbrev chgcar_compatibility_patterns : List String
chgcar_compatibility_patterns =
    "chgcar" ∷ "charge density" ∷ "fft grid" ∷ "ngxf" ∷ "ngyf" ∷ "ngzf" ∷ "number of data items"
    ∷ []

-- The first pattern of the list that the logs hold.
unfoldable pub first_mentioned : Log → List String → Option String
first_mentioned log [] = none
first_mentioned log (p ∷ ps) = let rest = first_mentioned log ps in if log p then some p else rest

abbrev mentions_any : Log → List String → Bool
mentions_any log ps = any log ps

unfoldable pub classify_vasp_failure_text : Log → ErrorType × String
unfolding first_mentioned
classify_vasp_failure_text log = elim (first_mentioned log runner_environment_patterns) [
  | some p ↦ (runner_environment_failure, p)
  | none ↦
      if log "command not found" && mentions_any log ("mpirun" ∷ "mpiexec" ∷ "vasp" ∷ [])
      then (runner_environment_failure, "command_not_found")
      else if log "no such file or directory"
          && mentions_any log
              ("mpirun" ∷ "mpiexec" ∷ "vasp_std" ∷ "vasp_gam" ∷ "vasp_ncl" ∷ "lib" ∷ [])
      then (runner_environment_failure, "missing_executable_or_library")
      else if mentions_any log chgcar_compatibility_patterns
          && mentions_any log
              ("mismatch" ∷ "incompatible" ∷ "wrong" ∷ "different" ∷ "error" ∷ "dimension" ∷ [])
      then (chgcar_compatibility_failure, "chgcar_grid_or_dimension_mismatch")
      else (unknown_failure, "unknown_vasp_failure")
]
