-- ===== src/Tools/RelaxRetry/Success.antt =====
-- The relax stage succeeds exactly when a good attempt follows attempts that are each retried.
use d_mobility.Prelude.{
  ℕ, zero, suc, ◌+◌, ◌-◌, ◌≤◌, ◌<◌, String, ◌≡◌, refl, sym, ◌∙◌, ◌⊎◌, ◌↔◌, Bool, true, false, not,
  ◌&&◌, ◌||◌, Option, none, some, leb, ltb, arith, inl, inr, length, if◌then◌else◌,
}
use d_mobility.Tools.VaspFailure.{ErrorType, unknown_failure}
use native.Mathlib.Nat.{add-zero}
use d_mobility.Tools.RelaxRetry.{
  World, Config, Attempt, Outcome, returned, Run, Progress, stop, again, resume_point,
  classify_abortable, succeed, exhaust, next_retry, retry_failure, failure_of, abort_with,
  after_failure, without_banner, with_banner, attempt_once, contcar_not_found, failed_summary,
  Trigger, returncode, abort_workflow, last_backup, retry_loop, run_relax_vasp_with_retry,
  fresh_run, exit_ok, converged,
}

abbrev pub is_some {ℓ} : {A : Type ℓ} → Option A → Bool
is_some none = false
is_some (some a) = true

shift : (n i : ℕ) → n + 1 + i ≡ n + suc i
shift n i = omega arith

and-true : (a b : Bool) → (a && b) ≡ true → (a ≡ true) × (b ≡ true)
and-true true b h = (refl, h)
and-true false b h = absurd (cc h)

-- A property of the first number, and of the `d` numbers behind it.
first_then :
    (n d : ℕ) (P : ℕ → Type 0)
    → P n
    → ((i : ℕ) → i < d → P (n + 1 + i))
    → (i : ℕ) → i < suc d
    → P (n + i)
first_then n d P now before zero l = rw add-zero now
first_then n d P now before (suc i) l = rw (← shift n i) (before i (omega arith))

module _ (cfg : Config) where
  -- No banner, exit code 0, and converged if that is checked.
  abbrev pub is_good : Attempt → Bool
  is_good a = not (is_some a.banner) && (exit_ok cfg a && converged cfg a)

  -- A failure that the configuration retries and that is not an abortable one.
  abbrev pub is_retried_failure : Attempt → Bool
  is_retried_failure a =
      not (exit_ok cfg a && converged cfg a)
      && not ((not (exit_ok cfg a) && cfg.retry_on_nonzero_exit) && is_some (classify_abortable a))
      && ((not (exit_ok cfg a) && cfg.retry_on_nonzero_exit)
          || (not (converged cfg a) && cfg.retry_on_nonconvergence))

  -- A banner or such a failure, with a CONTCAR to go on from.
  abbrev pub is_retried : Attempt → Bool
  is_retried a = is_some a.backup && (is_some a.banner || is_retried_failure a)

  abbrev is_again : Progress → Bool
  is_again (again r) = true
  is_again (stop o w) = false

  abbrev pub is_success : Outcome → Bool
  is_success (returned ok backups s) = ok
  is_success _ = false

  abbrev stops_well : Progress → Bool
  stops_well (again r) = false
  stops_well (stop o w) = is_success o

  module _ (a : Attempt) (n : ℕ) (r : Run) where
    next_retry-again :
        (m : Progress) (e : ErrorType) (trigger : Trigger)
        → is_again m ≡ false
        → stops_well m ≡ false
        → (is_again (next_retry cfg m e trigger a n r)
            ≡ (is_some a.backup && not (ltb cfg.max_retries (n + 1))))
          × (stops_well (next_retry cfg m e trigger a n r) ≡ false)
    unfolding next_retry exhaust
    next_retry-again m e trigger h k = ground arith

    -- There is a next retry.
    abbrev goes_on : Bool
    goes_on = is_some a.backup && not (ltb cfg.max_retries (n + 1))

    abbrev HasEnd : Progress → Bool → Bool → Type 0
    HasEnd p on well = (is_again p ≡ on) × (stops_well p ≡ well)

    with_banner-again : (snippet : String) → HasEnd (with_banner cfg snippet a n r) goes_on false
    unfolding with_banner
    with_banner-again snippet = next_retry-again (stop contcar_not_found r.world) _ _ refl refl

    retry_failure-again :
        (e : ErrorType) (trigger : Trigger)
        → HasEnd (retry_failure cfg e trigger a n r) goes_on false
    unfolding retry_failure
    retry_failure-again e trigger = next_retry-again _ e trigger refl refl

    after_failure-again :
        HasEnd (after_failure cfg a n r) (is_some (failure_of cfg a) && goes_on) false
    unfolding after_failure
    after_failure-again = go (failure_of cfg a)
      where
        go :
            (o : Option (ErrorType × Trigger))
            → HasEnd
                (elim o [
                  | none ↦
                      stop
                        (returned false r.backups (
                          failed_summary unknown_failure
                            (if exit_ok cfg a then Trigger.nonconverged else returncode a.exit_code)
                            (length r.backups)
                            cfg.max_retries
                            abort_workflow
                            abort_workflow
                            (last_backup r.backups)
                            r.actions))
                        r.world
                  | some (error_type, trigger) ↦ retry_failure cfg error_type trigger a n r
                ])
                (is_some o && goes_on)
                false
        go none = (refl, refl)
        go (some (e, trigger)) = retry_failure-again e trigger

    is_some-failure_of : is_some (failure_of cfg a) ≡ (
        (not (exit_ok cfg a) && cfg.retry_on_nonzero_exit)
        || (not (converged cfg a) && cfg.retry_on_nonconvergence))
    unfolding failure_of
    is_some-failure_of = ground arith

    without_banner-again :
        HasEnd
          (without_banner cfg a n r)
          (is_retried_failure a && goes_on)
          (exit_ok cfg a && converged cfg a)
    unfolding without_banner succeed abort_with
    without_banner-again = ground (arith, after_failure-again, is_some-failure_of)

    attempt_once-again :
        HasEnd
          (attempt_once cfg a n r)
          (is_retried a && not (ltb cfg.max_retries (n + 1)))
          (is_good a)
    unfolding attempt_once
    attempt_once-again = go a.banner refl
      where
        go :
            (o : Option String)
            → a.banner ≡ o
            → HasEnd
                (elim o [
                  | some snippet ↦ with_banner cfg snippet a n r
                  | none ↦ without_banner cfg a n r
                ])
                (is_retried a && not (ltb cfg.max_retries (n + 1)))
                (is_good a)
        go none e = ground (arith, without_banner-again)
        go (some snippet) e = ground (arith, with_banner-again snippet)

  -- A good attempt after `d` attempts from `n` on that are each retried, with room for them.
  abbrev pub HasGoodAttempt : (ℕ → Attempt) → ℕ → Type 0
  HasGoodAttempt attempts n =
      (d : ℕ) × (n + d ≤ cfg.max_retries)
      × ((i : ℕ) → i < d → is_retried (attempts (n + i)) ≡ true)
      × (is_good (attempts (n + d)) ≡ true)

  module _ (attempts : ℕ → Attempt) where
    abbrev after : ℕ → ℕ → Progress → Outcome × World
    after rounds n p = elim p [
      | stop outcome w ↦ (outcome, w)
      | again r' ↦ retry_loop cfg attempts rounds (n + 1) r'
    ]

    after-stop :
        (rounds n : ℕ) (p : Progress) → stops_well p ≡ true → is_success (after rounds n p).0 ≡ true
    after-stop rounds n (stop o w) h = h
    after-stop rounds n (again r) h = cc

    after-again :
        (rounds n : ℕ) (p : Progress)
        → is_again p ≡ true
        → ((r : Run) → is_success (retry_loop cfg attempts rounds (n + 1) r).0 ≡ true)
        → is_success (after rounds n p).0 ≡ true
    after-again rounds n (stop o w) h rest = cc
    after-again rounds n (again r) h rest = rest r

    after-success :
        (rounds n : ℕ) (p : Progress)
        → is_success (after rounds n p).0 ≡ true
        → (stops_well p ≡ true)
          ⊎ ((r : Run) × (is_again p ≡ true)
              × (is_success (retry_loop cfg attempts rounds (n + 1) r).0 ≡ true))
    after-success rounds n (stop o w) h = inl h
    after-success rounds n (again r) h = inr (r, refl, h)

    loop-succeeds :
        (rounds n : ℕ) (r : Run)
        → n + rounds ≡ cfg.max_retries + 1
        → HasGoodAttempt attempts n
        → is_success (retry_loop cfg attempts rounds n r).0 ≡ true
    unfolding retry_loop
    loop-succeeds zero n r left (d, fits, before, good) = absurd (omega arith)
    loop-succeeds (suc rounds) n r left (zero, fits, before, good) =
        after-stop rounds n (attempt_once cfg (attempts n) n r)
          ((attempt_once-again (attempts n) n r).1 ∙ rw add-zero at good)
    loop-succeeds (suc rounds) n r left (suc d, fits, before, good) =
        let now : is_retried (attempts n) ≡ true = rw add-zero at (before 0 (omega arith)) in
        let more : ltb cfg.max_retries (n + 1) ≡ false = ground arith in
        after-again rounds n (attempt_once cfg (attempts n) n r)
          ((attempt_once-again (attempts n) n r).0 ∙ rw (now, more))
          λ r'. loop-succeeds rounds (n + 1) r' (omega arith) (
            d,
            omega arith,
            (λ i l. rw (shift n i) (before (suc i) (omega arith))),
            rw (shift n d) good,
          )

    loop-good :
        (rounds n : ℕ) (r : Run)
        → n ≤ cfg.max_retries
        → is_success (retry_loop cfg attempts rounds n r).0 ≡ true
        → HasGoodAttempt attempts n
    unfolding retry_loop
    loop-good zero n r room h = cc
    loop-good (suc rounds) n r room h =
        elim (after-success rounds n (attempt_once cfg (attempts n) n r) h) [
          | inl well ↦ (
            0,
            omega arith,
            (λ i l. absurd (omega arith)),
            rw add-zero (sym (attempt_once-again (attempts n) n r).1 ∙ well),
          )
          | inr (r', on, later) ↦
              let both = sym (attempt_once-again (attempts n) n r).0 ∙ on in
              let (now, more) = and-true (is_retried (attempts n)) _ both in
              let (d, fits, before, good) = loop-good rounds (n + 1) r' (ground arith) later in
              (
                suc d,
                omega arith,
                (λ i l. first_then n d (λ i. is_retried (attempts i) ≡ true) now before i l),
                rw (← shift n d) good,
              )
        ]

  -- With retries on and a resume point below the limit, the relax stage succeeds exactly when a
  -- good attempt follows attempts that are each retried, all from the resume point to the limit.
  pub run-succeeds_iff :
      (attempts : ℕ → Attempt) (w : World)
      → cfg.enabled ≡ true
      → (resume_point w).0 < cfg.max_retries
      → (is_success (run_relax_vasp_with_retry cfg attempts w).0 ≡ true)
        ↔ HasGoodAttempt attempts (resume_point w).0
  unfolding run_relax_vasp_with_retry
  run-succeeds_iff attempts w on below =
      let n0 = (resume_point w).0 in
      let open_budget : leb cfg.max_retries n0 ≡ false = ground arith in
      simp (open_budget, on)
        (
          loop-good attempts (cfg.max_retries + 1 - n0) n0 (fresh_run w) (omega arith),
          loop-succeeds attempts (cfg.max_retries + 1 - n0) n0 (fresh_run w) (omega arith),
        )
