-- ===== src/Runtime/Legality/Refinement.antt =====
-- The refinement that the policy requires, and the check of the action that asks for it.
use d_mobility.Prelude.{
  String, ◌≡◌, refl, sym, subst, ap, ◌∙◌, Bool, true, false, List, [], ◌∷◌, Option, none, some,
  contains, is_empty, leb, Bool-cases, inl, inr, arith,
}
use d_mobility.Agents.Params.{Params}
use d_mobility.Runtime.Registry.{refine_spec, get_action_spec}
use d_mobility.Runtime.Sampling.{Numbers, Direction, number, fit_threshold_of}
use d_mobility.Runtime.Legality.Types.{Bounds, State, Request}
use d_mobility.Runtime.Legality.Evidence.{
  required_evidence_status, evidence_of, evidence_fit, effective_fit, fit_entry,
  midpoint_parameters, validation_requires_refinement, has_applied_points, refinement_plan,
}
use d_mobility.Runtime.Legality.{
  canonicalize_channel_action_parameters, has_live_job, stage_names, guards_of, reasons_of,
  run_guards, target_guards, family_guards, check_legality_tool, is_allowed, with_spec, checked,
}
use d_mobility.Runtime.Legality.Allowed.{request_of, AllOff-reasons_of, reasons_of-AllOff, named}
use d_mobility.Runtime.Legality.Rules.{IsGoing}

module _ (numbers : Numbers) (bounds : Bounds numbers) (s : State numbers) (v : numbers.N)
    (e : fit_entry numbers bounds s ≡ number v) where
  open numbers use {one, same, lt}
  open bounds use {fit_bound, zero_number}

  required :
      validation_requires_refinement numbers bounds s ≡ true
      → same v zero_number ≡ false
      → (lt v (fit_threshold_of numbers s.fit fit_bound) ≡ true)
        × (leb s.max_refinement_rounds s.refinement_rounds ≡ false)
        × (has_applied_points numbers bounds
              (refinement_plan numbers bounds s (λ _. []) midpoint_parameters)
            ≡ true)
  unfolding validation_requires_refinement effective_fit
  required h k = let h' = rw (e, k) at h in ground (arith, h')

  evidence :
      same v zero_number ≡ false
      → required_evidence_status numbers bounds s ("fit_quality_warning" ∷ [])
        ≡ some (("fit_quality_warning", lt v fit_bound) ∷ [])
  unfolding required_evidence_status evidence_of evidence_fit
  evidence k = rw (e, k) refl

  no_evidence :
      same v zero_number ≡ true
      → required_evidence_status numbers bounds s ("fit_quality_warning" ∷ [])
        ≡ some (("fit_quality_warning", lt one fit_bound) ∷ [])
  unfolding required_evidence_status evidence_of evidence_fit
  no_evidence k = rw (e, k) refl

  module _ (t : String) (p : Params) (suggested : Direction → List (Option numbers.N))
      (submits waits : Bool) where
    abbrev refines : Request numbers
    refines = request_of numbers "refine_sampling" t p suggested submits waits

    refine-guards_of :
        (es : List (String × Bool))
        → required_evidence_status numbers bounds s ("fit_quality_warning" ∷ []) ≡ some es
        → is_allowed numbers bounds s refines
          ≡ is_empty (reasons_of (guards_of numbers bounds s refines es))
    unfolding is_allowed check_legality_tool get_action_spec checked with_spec
    refine-guards_of es k =
        ap
          (λ (o : Option (List (String × Bool))).
            elim (with_spec numbers bounds s refines refine_spec o) [
              | none ↦ false
              | some w ↦ w.allowed
            ])
          k

-- Where the policy requires a refinement, the check allows the sampling by midpoints that the
-- policy means, for a stage without a live external job; if the fit quality is a number other than
-- zero, the threshold is the default one, nobody is asked, and the run goes on.
pub required_refinement_allowed :
    (numbers : Numbers) (bounds : Bounds numbers) (s : State numbers) (v : numbers.N) (t : String)
    → fit_entry numbers bounds s ≡ number v
    → numbers.same v bounds.zero_number ≡ false
    → fit_threshold_of numbers s.fit bounds.fit_bound ≡ bounds.fit_bound
    → validation_requires_refinement numbers bounds s ≡ true
    → IsGoing numbers s
    → contains t stage_names ≡ true
    → has_live_job s.external_jobs t ≡ false
    → is_allowed numbers bounds s
        (request_of numbers "refine_sampling" t midpoint_parameters (λ _. []) false false)
      ≡ true
unfolding run_guards target_guards family_guards canonicalize_channel_action_parameters
required_refinement_allowed numbers bounds s v t e nonzero same_bound h going k free =
    let (low, rounds, points) = required numbers bounds s v e h nonzero in
    let low' : numbers.lt v bounds.fit_bound ≡ true =
      subst (λ (b : numbers.N). numbers.lt v b ≡ true) same_bound low in
    let n = named t k in
    let q0 = going.nobody_asked in
    let q3 = going.no_wait in
    refine-guards_of numbers bounds s v e t midpoint_parameters (λ _. []) false false
      (("fit_quality_warning", numbers.lt v bounds.fit_bound) ∷ [])
      (evidence numbers bounds s v e nonzero)
    ∙ AllOff-reasons_of
        (guards_of numbers bounds s
          (refines numbers bounds s v e t midpoint_parameters (λ _. []) false false)
          (("fit_quality_warning", numbers.lt v bounds.fit_bound) ∷ []))
        (
          ground (arith, q0),
          (
            going.unfinished,
            (
              refl,
              (
                ground (arith, q3),
                (
                  ground (arith, n),
                  (
                    refl,
                    (
                      ground (arith, n, k),
                      (
                        refl,
                        (
                          refl,
                          (
                            refl,
                            (
                              ground (arith, free),
                              (
                                refl,
                                (
                                  ground (arith, rounds),
                                  (
                                    ground (arith, points),
                                    (refl, (refl, (refl, (refl, (ground (arith, low'), tt))))),
                                  ),
                                ),
                              ),
                            ),
                          ),
                        ),
                      ),
                    ),
                  ),
                ),
              ),
            ),
          ),
        )

-- Where the fit quality is zero and the bound is not above one, the check refuses every
-- refinement.
pub zero_fit_refuses_refinement :
    (numbers : Numbers) (bounds : Bounds numbers) (s : State numbers) (v : numbers.N) (t : String)
    (p : Params) (suggested : Direction → List (Option numbers.N)) (submits waits : Bool)
    → fit_entry numbers bounds s ≡ number v
    → numbers.same v bounds.zero_number ≡ true
    → numbers.lt numbers.one bounds.fit_bound ≡ false
    → is_allowed numbers bounds s (request_of numbers "refine_sampling" t p suggested submits waits)
      ≡ false
unfolding run_guards target_guards family_guards
zero_fit_refuses_refinement numbers bounds s v t p suggested submits waits e zero high =
    let r =
      refine-guards_of numbers bounds s v e t p suggested submits waits _
        (no_evidence numbers bounds s v e zero) in
    elim (Bool-cases (
      is_allowed numbers bounds s
        (request_of numbers "refine_sampling" t p suggested submits waits))) [
          | inl on ↦
              let g =
                reasons_of-AllOff
                  (guards_of numbers bounds s
                    (refines numbers bounds s v e t p suggested submits waits)
                    (("fit_quality_warning", numbers.lt numbers.one bounds.fit_bound) ∷ []))
                  (sym r ∙ on) in
              let last = g.1.1.1.1.1.1.1.1.1.1.1.1.1.1.1.1.1.1.0 in
              absurd (ground (arith, last, high))
          | inr off ↦ off
        ]
