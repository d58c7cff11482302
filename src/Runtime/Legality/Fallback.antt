-- ===== src/Runtime/Legality/Fallback.antt =====
-- The fallback actions that the check proposes, followed from one action to the next.
use d_mobility.Prelude.{
  ℕ, suc, ◌-◌, ◌≤◌, String, ◌≡◌, refl, sym, subst, ap, ◌∙◌, Bool, true, ◌||◌, List, [], ◌∷◌, Option,
  none, some, ◌==◌, contains, Bool-cases, All, leb, if◌then◌else◌, inl, inr, eq_iff, arith,
}
use d_mobility.Runtime.Registry.{ActionSpec, find_spec, action_registry, get_action_spec}
use d_mobility.Runtime.Sampling.{Numbers}
use d_mobility.Runtime.Legality.Types.{Bounds, State, Request, Verdict}
use d_mobility.Runtime.Legality.Evidence.{required_evidence_status}
use d_mobility.Runtime.Legality.{
  first_fallback, check_legality_tool, unknown_family, with_spec, checked,
}

-- The fallback of a family.
fallback_of : String → String
fallback_of family = elim (get_action_spec family) [
  | none ↦ "abort_material"
  | some spec ↦ first_fallback spec
]

module _ (numbers : Numbers) (bounds : Bounds numbers) where
  check-fallback :
      (s : State numbers) (q : Request numbers) (v : Verdict)
      → check_legality_tool numbers bounds s q ≡ some v
      → v.fallback_action ≡ fallback_of q.action_family
  unfolding check_legality_tool fallback_of unknown_family with_spec checked
  check-fallback s q v h = go (get_action_spec q.action_family) h
    where
      go :
          (o : Option ActionSpec)
          → (elim o [
            | none ↦ some (unknown_family numbers bounds s q)
            | some spec ↦
                with_spec numbers bounds s q spec
                  (required_evidence_status numbers bounds s spec.required_evidence)
          ])
            ≡ some v
          → v.fallback_action
            ≡ (elim o [ none ↦ "abort_material" | some spec ↦ first_fallback spec ])
      go none e =
          ap
            (λ (o : Option Verdict). elim o [
              | none ↦ "abort_material"
              | some w ↦ w.fallback_action
            ])
            (sym e)
      go (some spec) e = known (required_evidence_status numbers bounds s spec.required_evidence) e
        where
          known :
              (o : Option (List (String × Bool)))
              → with_spec numbers bounds s q spec o ≡ some v
              → v.fallback_action ≡ first_fallback spec
          known none e = absurd (cc e)
          known (some evidence) e =
              ap
                (λ (o : Option Verdict). elim o [
                  | none ↦ first_fallback spec
                  | some w ↦ w.fallback_action
                ])
                (sym e)

-- How many fallbacks it takes at most from a family to the end.
rank : String → ℕ
rank f =
    if f == "abort_material"
    then 0
    else if f == "run_capability"
    then 4
    else if f == "retry_capability" || f == "refine_sampling"
    then 3
    else if contains f (
        "rerun_from_capability" ∷ "repair_execution_context" ∷ "revalidate_result"
        ∷ "invalidate_channel" ∷ [])
    then 2
    else 1

find_spec-All :
    (P : ActionSpec → Type 0) (specs : List ActionSpec) (f : String) (spec : ActionSpec)
    → All P specs
    → find_spec f specs ≡ some spec
    → P spec × (spec.action_family ≡ f)
unfolding find_spec
find_spec-All P [] f spec h e = absurd (cc e)
find_spec-All P (u ∷ rest) f spec h e = elim (Bool-cases (u.action_family == f)) [
  | inl k ↦
      let same : u ≡ spec = cc (rw k at e) in
      (
        subst P same h.0,
        ap (λ (v : ActionSpec). v.action_family) (sym same) ∙ (eq_iff u.action_family f).0 k,
      )
  | inr k ↦ find_spec-All P rest f spec h.1 (rw k at e)
]

abbrev IsLower : ActionSpec → Type 0
IsLower spec = leb (rank (first_fallback spec)) (rank spec.action_family - 1) ≡ true

registry-IsLower : All IsLower action_registry
unfolding rank
registry-IsLower =
    (refl, (refl, (refl, (refl, (refl, (refl, (refl, (refl, (refl, (refl, (refl, tt)))))))))))

rank-fallback_of : (f : String) → leb (rank (fallback_of f)) (rank f - 1) ≡ true
unfolding fallback_of get_action_spec
rank-fallback_of f = go (find_spec f action_registry) refl
  where
    go :
        (o : Option ActionSpec)
        → find_spec f action_registry ≡ o
        → leb
            (rank (elim o [ none ↦ "abort_material" | some spec ↦ first_fallback spec ]))
            (rank f - 1)
          ≡ true
    go none e = unfold rank in ground arith
    go (some spec) e =
        let (low, same) = find_spec-All IsLower action_registry f spec registry-IsLower e in
        subst (λ (g : String). leb (rank (first_fallback spec)) (rank g - 1) ≡ true) same low

rank_bound : (f : String) → leb (rank f) 4 ≡ true
unfolding rank
rank_bound f = ground arith

rank_end : (f : String) → leb (rank f) 0 ≡ true → f ≡ "abort_material"
unfolding rank
rank_end f h = (eq_iff f "abort_material").0 (ground (arith, h))

-- From the first family the check, on any state, proposes the fallback of the next request, and so
-- on to the last family.
pub data Fallbacks (numbers : Numbers) (bounds : Bounds numbers)
    : ℕ → String → String → Type 1 where
  here : (f : String) → Fallbacks numbers bounds 0 f f
  follow :
      (n : ℕ) (s : State numbers) (q : Request numbers) (v : Verdict) (last : String)
      → check_legality_tool numbers bounds s q ≡ some v
      → Fallbacks numbers bounds n v.fallback_action last
      → Fallbacks numbers bounds (suc n) q.action_family last

ranked_end :
    (numbers : Numbers) (bounds : Bounds numbers) (n : ℕ) (f g : String)
    → Fallbacks numbers bounds n f g
    → leb (rank f) n ≡ true
    → g ≡ "abort_material"
ranked_end numbers bounds _ _ _ (here f) h = rank_end f h
ranked_end numbers bounds _ _ _ (follow n s q v last e rest) h =
    let same = check-fallback numbers bounds s q v e in
    let low =
      subst (λ (k : String). leb (rank k) (rank q.action_family - 1) ≡ true) (sym same)
        (rank-fallback_of q.action_family) in
    ranked_end numbers bounds n v.fallback_action last rest (ground (arith, low, h))

-- Following the fallback that the check proposes from request to request, on any states, leads to
-- abort_material in at most four steps, and it stays there.
pub fallback_chain_ends :
    (numbers : Numbers) (bounds : Bounds numbers) (n : ℕ) (f g : String)
    → Fallbacks numbers bounds n f g
    → 4 ≤ n
    → (g == "abort_material") ≡ true
fallback_chain_ends numbers bounds n f g c h =
    (eq_iff g "abort_material").1
      (ranked_end numbers bounds n f g c (ground (arith, rank_bound f, h)))
