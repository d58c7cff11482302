-- ===== src/Tools/RelaxRetry/Budget.antt =====
-- The retry budget: how many retries a run makes, and how it ends.
use d_mobility.Prelude.{
  ℕ, zero, suc, ◌+◌, ◌-◌, ◌≤◌, ◌<◌, String, ◌≡◌, refl, ◌≢◌, true, false, [], ◌∷◌, Option, none,
  some, ltb, leb, length, length-append, arith, Bool-cases, inl, inr, if◌then◌else◌, ◌==◌,
}
use d_mobility.Tools.VaspFailure.{ErrorType, unknown_failure, rerun_with_smaller_ediff}
use d_mobility.Tools.RelaxRetry.{
  Trigger, World, Config, Attempt, Outcome, returned, fatal, contcar_not_found, Run, Progress,
  exit_ok, stop, again, resume_point, classify_abortable, succeed, exhaust, promote, next_retry,
  retry_failure, last_backup, returncode, abort_workflow, failure_of, abort_with, after_failure,
  without_banner, with_banner, attempt_once, retry_loop, run_relax_vasp_with_retry, fresh_run,
  failed_summary,
}

-- The backups and the actions of a run count its retries since it was resumed.
pub record IsOnTrack (n0 n : ℕ) (r : Run) : Type 0 where
  pub counted : length r.backups + n0 ≡ n
  pub acted : length r.actions ≡ length r.backups
  pub saved : (resume_point r.world).0 ≡ n

module _ (cfg : Config) (n0 : ℕ) where
  -- What holds of the end of a run.
  abbrev pub IsWithinBudget : Outcome → World → Type 0
  IsWithinBudget (returned ok backups s) w =
      (length backups + n0 ≤ cfg.max_retries)
      × (s.retries_used ≡ length backups)
      × (s.succeeded ≡ ok)
      × (s.max_retries ≡ cfg.max_retries)
      × ((resume_point w).0 ≡ length backups + n0)
  IsWithinBudget (fatal message s) w =
      (s.retries_used ≡ cfg.max_retries)
      × (s.succeeded ≡ false)
      × (s.trigger_pattern ≢ Trigger.retry_limit_reached)
      × (length s.actions + n0 ≡ cfg.max_retries)
      × ((resume_point w).0 ≡ cfg.max_retries)
  IsWithinBudget contcar_not_found w = (resume_point w).0 ≤ cfg.max_retries

  abbrev IsAllowed : ℕ → Progress → Type 0
  IsAllowed n (stop o w) = IsWithinBudget o w
  IsAllowed n (again r) = (n + 1 ≤ cfg.max_retries) × IsOnTrack n0 (n + 1) r

  failure_of_trigger :
      (a : Attempt) (e : ErrorType) (trigger : Trigger)
      → failure_of cfg a ≡ some (e, trigger)
      → trigger ≢ Trigger.retry_limit_reached
  unfolding failure_of
  failure_of_trigger a e trigger h k = ground arith

  module _ (a : Attempt) (n : ℕ) (r : Run) (t : IsOnTrack n0 n r) (room : n ≤ cfg.max_retries) where
    exhaust-IsAllowed :
        (trigger : Trigger)
        → trigger ≢ Trigger.retry_limit_reached
        → cfg.max_retries < n + 1
        → IsAllowed n (exhaust cfg trigger n r)
    unfolding exhaust resume_point
    exhaust-IsAllowed trigger h over =
        (refl, refl, h, omega (arith, t.acted, t.counted, room, over), refl)

    promote-IsOnTrack :
        (e : ErrorType) (trigger : Trigger) (backup : String)
        → IsOnTrack n0 (n + 1) (promote cfg e trigger a backup (n + 1) r)
    unfolding promote resume_point
    promote-IsOnTrack e trigger backup = record {
      counted = omega (arith, t.counted, length-append r.backups (backup ∷ []));
      acted =
          omega
            (arith, t.acted, length-append r.backups (backup ∷ []), length-append {0} r.actions _);
      saved = refl;
    }

    next_retry-IsAllowed :
        (missing : Progress) (e : ErrorType) (trigger : Trigger)
        → IsAllowed n missing
        → trigger ≢ Trigger.retry_limit_reached
        → IsAllowed n (next_retry cfg missing e trigger a n r)
    unfolding next_retry
    next_retry-IsAllowed missing e trigger m h = elim (Bool-cases (ltb cfg.max_retries (n + 1))) [
      | inl over ↦ rw over (exhaust-IsAllowed trigger h (ground (arith, over)))
      | inr more ↦ rw more (go (ground arith) a.backup)
    ]
      where
        go :
            n + 1 ≤ cfg.max_retries
            → (o : Option String)
            → IsAllowed n (elim o [
              | none ↦ missing
              | some backup ↦ again (promote cfg e trigger a backup (n + 1) r)
            ])
        go l none = m
        go l (some b) = (l, promote-IsOnTrack e trigger b)

    -- The backups of a run on track fit the budget.
    fits : length r.backups + n0 ≤ cfg.max_retries
    fits = omega (arith, t.counted)

    resumed : (resume_point r.world).0 ≡ length r.backups + n0
    resumed = omega (arith, t.counted, t.saved)

    retry_failure-IsAllowed :
        (e : ErrorType) (trigger : Trigger)
        → trigger ≢ Trigger.retry_limit_reached
        → IsAllowed n (retry_failure cfg e trigger a n r)
    unfolding retry_failure
    retry_failure-IsAllowed e trigger h =
        next_retry-IsAllowed _ e trigger (fits, refl, refl, refl, resumed) h

    after_failure-IsAllowed : IsAllowed n (after_failure cfg a n r)
    unfolding after_failure
    after_failure-IsAllowed = go (failure_of cfg a) (failure_of_trigger a)
      where
        go :
            (o : Option (ErrorType × Trigger))
            → ((e : ErrorType) (trigger : Trigger)
                → o ≡ some (e, trigger)
                → trigger ≢ Trigger.retry_limit_reached)
            → IsAllowed n (elim o [
              | none ↦
                  stop
                    (returned false r.backups (
                      failed_summary unknown_failure
                        (if exit_ok cfg a then Trigger.nonconverged else returncode a.exit_code)
                        (length r.backups)
                        cfg.max_retries
                        abort_workflow
                        abort_workflow
                        (last_backup r.backups)
                        r.actions))
                    r.world
              | some (error_type, trigger) ↦ retry_failure cfg error_type trigger a n r
            ])
        go none h = (fits, refl, refl, refl, resumed)
        go (some (e, trigger)) h = retry_failure-IsAllowed e trigger (h e trigger refl)

    without_banner-IsAllowed : IsAllowed n (without_banner cfg a n r)
    unfolding without_banner succeed abort_with classify_abortable
    without_banner-IsAllowed = ground (arith, after_failure-IsAllowed, fits, resumed)

    with_banner-IsAllowed : (snippet : String) → IsAllowed n (with_banner cfg snippet a n r)
    unfolding with_banner
    with_banner-IsAllowed snippet =
        next_retry-IsAllowed _ rerun_with_smaller_ediff _ (omega (arith, t.saved)) (λ e.
          elim (Bool-cases (snippet == "")) [ inl b ↦ cc (rw b at e) | inr b ↦ cc (rw b at e) ])

    attempt_once-IsAllowed : IsAllowed n (attempt_once cfg a n r)
    unfolding attempt_once
    attempt_once-IsAllowed = go a.banner
      where
        go :
            (o : Option String)
            → IsAllowed n (elim o [
              | some snippet ↦ with_banner cfg snippet a n r
              | none ↦ without_banner cfg a n r
            ])
        go none = without_banner-IsAllowed
        go (some snippet) = with_banner-IsAllowed snippet

  module _ (attempts : ℕ → Attempt) where
    retry_loop-IsWithinBudget :
        (rounds n : ℕ) (r : Run)
        → IsOnTrack n0 n r
        → n + rounds ≡ cfg.max_retries + 1
        → n ≤ cfg.max_retries
        → IsWithinBudget
            (retry_loop cfg attempts rounds n r).0
            (retry_loop cfg attempts rounds n r).1
    unfolding retry_loop
    retry_loop-IsWithinBudget zero n r t left room = absurd (omega arith)
    retry_loop-IsWithinBudget (suc rounds) n r t left room =
        go (attempt_once cfg (attempts n) n r) (attempt_once-IsAllowed (attempts n) n r t room)
          (λ (r' : Run) (t' : IsOnTrack n0 (n + 1) r') (room' : n + 1 ≤ cfg.max_retries).
            retry_loop-IsWithinBudget rounds (n + 1) r' t' (omega arith) room')
      where
        after : Progress → Outcome × World
        after p = elim p [
          | stop outcome w ↦ (outcome, w)
          | again r' ↦ retry_loop cfg attempts rounds (n + 1) r'
        ]

        go :
            (p : Progress)
            → IsAllowed n p
            → ((r' : Run)
                → IsOnTrack n0 (n + 1) r'
                → n + 1 ≤ cfg.max_retries
                → IsWithinBudget
                    (retry_loop cfg attempts rounds (n + 1) r').0
                    (retry_loop cfg attempts rounds (n + 1) r').1)
            → IsWithinBudget (after p).0 (after p).1
        go (stop o w) h rest = h
        go (again r') h rest = rest r' h.1 h.0

-- With retries on and a resume point below the limit, a run ends in one of three ways. It returns:
-- then its backups count its retries, with those before the resume point they stay within the
-- limit, and a later run resumes behind them. It raises the fatal error: then it has made all the
-- retries from the resume point to the limit, the raise behind the loop is not the one, and a
-- later run finds the limit in the checkpoint. Or CONTCAR was not found behind a banner, and the
-- checkpoint stays within the limit.
pub run-IsWithinBudget :
    (cfg : Config) (attempts : ℕ → Attempt) (w : World)
    → cfg.enabled ≡ true
    → (resume_point w).0 < cfg.max_retries
    → let (outcome, w') = run_relax_vasp_with_retry cfg attempts w in
      IsWithinBudget cfg (resume_point w).0 outcome w'
unfolding run_relax_vasp_with_retry
run-IsWithinBudget cfg attempts w on below =
    let n0 = (resume_point w).0 in
    let open_budget : leb cfg.max_retries n0 ≡ false = ground arith in
    simp (open_budget, on)
      (retry_loop-IsWithinBudget cfg n0 attempts (cfg.max_retries + 1 - n0) n0 (fresh_run w)
        (record { counted = omega arith; acted = refl; saved = refl }) (omega arith) (omega arith))
