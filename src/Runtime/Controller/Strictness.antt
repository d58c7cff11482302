-- ===== src/Runtime/Controller/Strictness.antt =====
-- A stricter policy asks every agent that a laxer one asks.
use d_mobility.Prelude.{
  ◌≡◌, refl, Bool, true, false, not, ◌||◌, List, [], ◌∷◌, any, Bool-cases, inl, inr, arith,
}
use d_mobility.Agents.Guardrail.{Stance}
use d_mobility.Runtime.Controller.Plan.{Council, strict, balanced, permissive}
use d_mobility.Runtime.Controller.Council.{
  Brief, is_costly, guards_cost, requires_cost_guardian, requires_critic, by_objection,
  is_expensive,
}

any_mono {ℓ} :
    {A : Type ℓ} (p q : A → Bool) (xs : List A)
    → ((x : A) → p x ≡ true → q x ≡ true)
    → any p xs ≡ true
    → any q xs ≡ true
any_mono p q [] f h = h
any_mono p q (x ∷ xs) f h = elim (Bool-cases (p x)) [
  | inl e ↦ rw (f x e) refl
  | inr e ↦ ground (arith, any_mono p q xs f (rw e at h))
]

lax_costly :
    (p : Brief)
    → (is_expensive p || is_costly permissive p) ≡ true
    → (is_expensive p || is_costly balanced p) ≡ true
unfolding is_costly
lax_costly p h = ground (arith, h)

cost-balanced :
    (council : Council) (proposals : List Brief)
    → requires_cost_guardian permissive council proposals ≡ true
    → requires_cost_guardian balanced council proposals ≡ true
unfolding requires_cost_guardian guards_cost
cost-balanced Council.validation_followup_council proposals h = refl
cost-balanced Council.failure_council proposals h = h
cost-balanced Council.segment_council proposals h = any_mono _ _ proposals lax_costly h

critic-balanced :
    (council : Council) (proposals : List Brief) (stances : List Stance)
    → requires_critic permissive council proposals stances ≡ true
    → requires_critic balanced council proposals stances ≡ true
unfolding requires_critic by_objection
critic-balanced council proposals stances h = ground (arith, h)

abbrev pub implies : Bool → Bool → Bool
implies a b = not a || b

implied : (a b : Bool) → (a ≡ true → b ≡ true) → implies a b ≡ true
implied true b f = f refl
implied false b f = refl

-- Where there is a proposal, a balanced policy asks the cost guardian and the critic wherever a
-- permissive one does, and a strict one always asks both.
pub strictness_is_monotone :
    (council : Council) (p : Brief) (proposals : List Brief) (stances : List Stance)
    → (implies
          (requires_cost_guardian permissive council (p ∷ proposals))
          (requires_cost_guardian balanced council (p ∷ proposals))
        ≡ true)
      × (implies
            (requires_critic permissive council (p ∷ proposals) stances)
            (requires_critic balanced council (p ∷ proposals) stances)
          ≡ true)
      × (requires_cost_guardian strict council (p ∷ proposals) ≡ true)
      × (requires_critic strict council (p ∷ proposals) stances ≡ true)
unfolding requires_critic requires_cost_guardian
strictness_is_monotone council p proposals stances = (
  implied _ _ (cost-balanced council (p ∷ proposals)),
  implied _ _ (critic-balanced council (p ∷ proposals) stances),
  refl,
  strict_critic council,
)
  where
    strict_critic : (c : Council) → requires_critic strict c (p ∷ proposals) stances ≡ true
    strict_critic Council.validation_followup_council = refl
    strict_critic Council.failure_council = refl
    strict_critic Council.segment_council = refl
