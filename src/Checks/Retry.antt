-- ===== src/Checks/Retry.antt =====
-- The relax stage with retries at concrete inputs: a banner in the first attempt, then a good one.
use d_mobility.Prelude.{ℕ, zero, suc, ◌≡◌, refl, ◌<◌, true, false, [], ◌∷◌, none, some, arith, ◌↔◌}
use d_mobility.Tools.VaspFailure.{ErrorType, rerun_with_smaller_ediff}
use d_mobility.Tools.RelaxRetry.{
  exited, log_tail, promoted, skip_material, failed_summary, Attempt, Config, World, Summary,
  Trigger, resume_point, run_relax_vasp_with_retry,
}
use d_mobility.Tools.RelaxRetry.Budget.{IsWithinBudget, run-IsWithinBudget}
use d_mobility.Tools.RelaxRetry.Success.{is_success, HasGoodAttempt, run-succeeds_iff}

abbrev cfg : Config
cfg = record {
  material_id = "MoS2";
  enabled = true;
  check_convergence = true;
  max_retries = 3;
  retry_on_nonzero_exit = true;
  retry_on_nonconvergence = true;
}

abbrev banner_attempt : Attempt
banner_attempt = record {
  banner = some "ZBRENT: fatal error in bracketing";
  exit_code = exited 1;
  convergence_ok = false;
  log = λ pattern. false;
  backup = some "POSCAR.backup";
  ediff_before = some "1e-5";
  ediff_after = some "1e-6";
}

abbrev good_attempt : Attempt
good_attempt = record banner_attempt { banner = none; exit_code = exited 0; convergence_ok = true }

abbrev attempts : ℕ → Attempt
attempts zero = banner_attempt
attempts (suc n) = good_attempt

abbrev always_banner : ℕ → Attempt
always_banner n = banner_attempt

abbrev fresh : World
fresh = record { checkpoint = none; retry_log = [] }

starts_at_zero : (resume_point fresh).0 < cfg.max_retries
unfolding resume_point
starts_at_zero = omega arith

run-IsWithinBudget_example :
    let (outcome, w') = run_relax_vasp_with_retry cfg attempts fresh in
    IsWithinBudget cfg (resume_point fresh).0 outcome w'
run-IsWithinBudget_example = run-IsWithinBudget cfg attempts fresh refl starts_at_zero

run-succeeds_iff_example :
    (is_success cfg (run_relax_vasp_with_retry cfg attempts fresh).0 ≡ true)
    ↔ HasGoodAttempt cfg attempts (resume_point fresh).0
run-succeeds_iff_example = run-succeeds_iff cfg attempts fresh refl starts_at_zero

-- One retry, and the banner in both attempts.
abbrev one_retry : Config
one_retry = record cfg { max_retries = 1 }

abbrev seen : Trigger
seen = log_tail "ZBRENT: fatal error in bracketing"

abbrev exhausted : Summary
exhausted =
    failed_summary ErrorType.retry_limit_reached seen 1 1 skip_material skip_material
      (some "POSCAR.backup")
      (promoted 1 rerun_with_smaller_ediff seen "POSCAR.backup" (some "1e-5") (some "1e-6") ∷ [])

abbrev left_behind : World
left_behind = (run_relax_vasp_with_retry one_retry always_banner fresh).1
