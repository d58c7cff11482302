-- ===== src/Runtime/Legality/Agreement.antt =====
-- What every allowed action meets, and the agreement with `action_is_legal` of the registry.
use d_mobility.Prelude.{
  String, ◌≡◌, refl, Bool, true, false, not, ◌&&◌, List, [], ◌∷◌, ◌++◌, Option, none, some, ◌==◌,
  contains, arith, All, if◌then◌else◌,
}
use d_mobility.Graph.Status.{terminal_run_statuses}
use d_mobility.Agents.Params.{get, truthy, is_channel_family}
use d_mobility.Runtime.Registry.{
  ActionSpec, get_action_spec, action_is_legal, targeted_families, has_target,
}
use d_mobility.Runtime.Sampling.{Numbers}
use d_mobility.Runtime.Legality.Types.{Bounds, State, Request, Verdict}
use d_mobility.Runtime.Legality.Evidence.{required_evidence_status}
use d_mobility.Runtime.Legality.{
  Guard, guards_of, run_guards, target_guards, family_guards, evidence_guards, target_text,
  check_legality_tool, is_allowed, unknown_family, with_spec, checked,
  canonicalize_channel_action_parameters,
}
use d_mobility.Runtime.Legality.Allowed.{AllOff, reasons_of-AllOff}

module _ (numbers : Numbers) (bounds : Bounds numbers) (s : State numbers)
    (q : Request numbers) where
  abbrev Passed : Type 0
  Passed =
      (spec : ActionSpec) × (get_action_spec q.action_family ≡ some spec)
      × (evidence : List (String × Bool)) × (required_evidence_status numbers bounds s
            spec.required_evidence
          ≡ some evidence)
      × AllOff (guards_of numbers bounds s q evidence)

  allowed-Passed : is_allowed numbers bounds s q ≡ true → Passed
  unfolding is_allowed check_legality_tool unknown_family with_spec checked
  allowed-Passed h = go (get_action_spec q.action_family) refl h
    where
      result : Option ActionSpec → Option Verdict
      result o = elim o [
        | none ↦ some (unknown_family numbers bounds s q)
        | some spec ↦
            with_spec numbers bounds s q spec
              (required_evidence_status numbers bounds s spec.required_evidence)
      ]

      go :
          (o : Option ActionSpec)
          → get_action_spec q.action_family ≡ o
          → (elim (result o) [ none ↦ false | some v ↦ v.allowed ]) ≡ true
          → Passed
      go none e k = absurd (cc k)
      go (some spec) e k =
          known (required_evidence_status numbers bounds s spec.required_evidence) refl k
        where
          known :
              (o : Option (List (String × Bool)))
              → required_evidence_status numbers bounds s spec.required_evidence ≡ o
              → (elim (with_spec numbers bounds s q spec o) [ none ↦ false | some v ↦ v.allowed ])
                ≡ true
              → Passed
          known none f l = absurd (cc l)
          known (some evidence) f l =
              (spec, e, evidence, f, reasons_of-AllOff (guards_of numbers bounds s q evidence) l)

  AllOff-evidence :
      (es : List (String × Bool)) → AllOff (evidence_guards es) → All (λ e. e.1 ≡ true) es
  AllOff-evidence [] h = tt
  AllOff-evidence (e ∷ es) (a, b) = (ground (arith, a), AllOff-evidence es b)

  AllOff-append : (xs ys : List Guard) → AllOff (xs ++ ys) → AllOff ys
  AllOff-append [] ys h = h
  AllOff-append (x ∷ xs) ys h = AllOff-append xs ys h.1

-- An action that the check allows is legal by the registry with its canonical parameters, the run
-- has not ended, and each piece of evidence that the registry requires of its family is there.
pub allowed_agrees :
    (numbers : Numbers) (bounds : Bounds numbers) (s : State numbers) (q : Request numbers)
    → is_allowed numbers bounds s q ≡ true
    → (action_is_legal q.action_family q.target_capability
          (canonicalize_channel_action_parameters q.action_family q.parameters)
        ≡ true)
      × (contains s.run_status terminal_run_statuses ≡ false)
      × (spec : ActionSpec) × (get_action_spec q.action_family ≡ some spec)
      × (evidence : List (String × Bool)) × (required_evidence_status numbers bounds s
            spec.required_evidence
          ≡ some evidence)
      × All (λ (e : String × Bool). e.1 ≡ true) evidence
unfolding action_is_legal run_guards target_guards family_guards
allowed_agrees numbers bounds s q h =
    let (spec, e, evidence, f, g) = allowed-Passed numbers bounds s q h in
    let g4 = g.1.1.1.1.0 in
    let g5 = g.1.1.1.1.1.0 in
    (
      rw e (legal q.target_capability g4 g5),
      g.1.0,
      spec,
      e,
      evidence,
      f,
      AllOff-evidence numbers bounds s q evidence g.1.1.1.1.1.1.1.1.1.1.1.1.1.1.1.1.1.1,
    )
  where
    legal :
        (target : Option String)
        → (contains q.action_family targeted_families && target_text target == "") ≡ false
        → (is_channel_family q.action_family
            && not (
                truthy (
                  get "target_channels"
                    (canonicalize_channel_action_parameters q.action_family q.parameters))))
          ≡ false
        → (if contains q.action_family targeted_families
            then has_target target
            else if is_channel_family q.action_family
            then truthy (
                get "target_channels"
                  (canonicalize_channel_action_parameters q.action_family q.parameters))
            else true)
          ≡ true
    legal none a b = ground (arith, a, b)
    legal (some t) a b = ground (arith, a, b)
