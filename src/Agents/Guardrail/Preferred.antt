-- ===== src/Agents/Guardrail/Preferred.antt =====
-- The preferred proposal is legal, and none of the legal ones is better by the key.
use d_mobility.Prelude.{
  ℕ, String, ◌≡◌, refl, sym, subst, Bool-cases, inl, inr, Bool, true, false, not, ◌&&◌, ◌||◌, List,
  [], ◌∷◌, none, some, ltb, eqb, arith, sort_by, All, All-mono,
}
use d_mobility.Prelude.Sorting.{All-sort_by, sort_by-All, sort_by-IsSorted, IsSorted}
use d_mobility.Agents.Proposals.{Proposal, canonicalize_proposal}
use d_mobility.Agents.Guardrail.{
  Floats, Critique, Preference, objections, supports, strength, key_lt, key_le, preferred_of,
  viable_proposals,
}

-- The order of the key on numbers.
abbrev lex : ℕ → ℕ → Bool → Bool
lex a b rest = ltb a b || (eqb a b && rest)

lex_asym : (a b : ℕ) (r s : Bool) → (r ≡ true → s ≡ false) → lex a b r ≡ true → lex b a s ≡ false
lex_asym a b r s f h = ground arith

-- Not before is transitive, if it is for the rest of the key.
lex_trans :
    (a b c : ℕ) (r s t : Bool)
    → (r ≡ false → s ≡ false → t ≡ false)
    → lex b a r ≡ false
    → lex c b s ≡ false
    → lex c a t ≡ false
lex_trans a b c r s t f h k = ground arith

lex_trans_rev :
    (a b c : ℕ) (r s t : Bool)
    → (r ≡ false → s ≡ false → t ≡ false)
    → lex a b r ≡ false
    → lex b c s ≡ false
    → lex a c t ≡ false
lex_trans_rev a b c r s t f h k = ground arith

ltb_trans : (a b c : ℕ) → ltb b a ≡ false → ltb c b ≡ false → ltb c a ≡ false
ltb_trans a b c h k = ground arith

ltb_asym : (a b : ℕ) → ltb a b ≡ true → ltb b a ≡ false
ltb_asym a b h = ground arith

eqb_sym : (a b : ℕ) → eqb a b ≡ eqb b a
eqb_sym a b = ground arith

not-true : (b : Bool) → not b ≡ true → b ≡ false
not-true true h = sym h
not-true false h = refl

preferred_mem :
    {A : Type 0} (P : A → Type 0) (sorted : List A) (p : A)
    → All P sorted
    → (elim sorted [ [] ↦ none | q ∷ qs ↦ some q ]) ≡ some p
    → P p
preferred_mem P [] p h e = absurd (cc e)
preferred_mem P (q ∷ qs) p h e = subst P (cc e) h.0

module _ (fl : Floats) (critiques : List Critique) (preferences : List (Preference fl.F)) where
  abbrev key : Proposal fl.F → Proposal fl.F → Bool
  key p q = lex (objections fl critiques preferences p) (objections fl critiques preferences q) (
      lex (supports fl critiques preferences q) (supports fl critiques preferences p) (
        lex (fl.rank (strength fl critiques preferences q))
          (fl.rank (strength fl critiques preferences p))
          (lex (fl.rank p.risk_estimate) (fl.rank q.risk_estimate)
            (ltb (fl.rank p.cost_estimate) (fl.rank q.cost_estimate)))))

  key_lt-eq-key : (p q : Proposal fl.F) → key_lt fl critiques preferences p q ≡ key p q
  unfolding key_lt
  key_lt-eq-key p q =
      simp (fl.lt_rank, fl.eq_rank)
        (rw (
          eqb_sym (supports fl critiques preferences p) (supports fl critiques preferences q),
          eqb_sym (fl.rank (strength fl critiques preferences p))
              (fl.rank (strength fl critiques preferences q)),
        ))

  abbrev o : Proposal fl.F → ℕ
  o = objections fl critiques preferences

  abbrev u : Proposal fl.F → ℕ
  u = supports fl critiques preferences

  abbrev w : Proposal fl.F → ℕ
  w p = fl.rank (strength fl critiques preferences p)

  key_trans : (p q r : Proposal fl.F) → key q p ≡ false → key r q ≡ false → key r p ≡ false
  key_trans p q r = lex_trans (o p) (o q) (o r) _ _ _ (
      lex_trans_rev (u p) (u q) (u r) _ _ _ (
        lex_trans_rev (w p) (w q) (w r) _ _ _ (
          lex_trans (fl.rank p.risk_estimate) (fl.rank q.risk_estimate) (fl.rank r.risk_estimate) _
            _ _
            (ltb_trans (fl.rank p.cost_estimate) (fl.rank q.cost_estimate)
              (fl.rank r.cost_estimate)))))

  key_asym : (p q : Proposal fl.F) → key p q ≡ true → key q p ≡ false
  key_asym p q = lex_asym (o p) (o q) _ _ (
      lex_asym (u q) (u p) _ _ (
        lex_asym (w q) (w p) _ _ (
          lex_asym (fl.rank p.risk_estimate) (fl.rank q.risk_estimate) _ _
            (ltb_asym (fl.rank p.cost_estimate) (fl.rank q.cost_estimate)))))

  key_le-total :
      (p q : Proposal fl.F)
      → key_le fl critiques preferences p q ≡ false
      → key_le fl critiques preferences q p ≡ true
  unfolding key_le
  key_le-total p q h = ground (arith, key_lt-eq-key p q, key_lt-eq-key q p, key_asym q p)

  key_le_trans :
      (p q r : Proposal fl.F)
      → key_le fl critiques preferences p q ≡ true
      → key_le fl critiques preferences q r ≡ true
      → key_le fl critiques preferences p r ≡ true
  unfolding key_le
  key_le_trans p q r h k =
      ground (arith, key_lt-eq-key q p, key_lt-eq-key r q, key_lt-eq-key r p, key_trans p q r)

  key_le_refl : (p : Proposal fl.F) → key_le fl critiques preferences p p ≡ true
  key_le_refl p = elim (Bool-cases (key_le fl critiques preferences p p)) [
    | inl e ↦ e
    | inr e ↦ key_le-total p p e
  ]

  -- The preferred proposal comes first in the sorted list, so each of the viable ones is behind it.
  preferred_first :
      (sorted : List (Proposal fl.F)) {p : Proposal fl.F}
      → IsSorted (key_le fl critiques preferences) sorted
      → (elim sorted [ [] ↦ none | q ∷ qs ↦ some q ]) ≡ some p
      → All (λ q. key_le fl critiques preferences p q ≡ true) sorted
  preferred_first [] h e = absurd (cc e)
  preferred_first (q ∷ qs) {p} h e =
      let same : q ≡ p = cc e in
      subst (λ (x : Proposal fl.F). All (λ y. key_le fl critiques preferences x y ≡ true) (q ∷ qs))
        same (key_le_refl q, h.0)

  module _ (legality : Proposal fl.F → Bool × List String) where
    viable_legal :
        (proposals : List (Proposal fl.F))
        → All
            (λ p. (legality p).0 ≡ true)
            (viable_proposals fl critiques preferences legality proposals)
    unfolding viable_proposals
    viable_legal [] = tt
    viable_legal (original ∷ rest) =
        elim (Bool-cases (legality (canonicalize_proposal original).0).0) [
          | inl allowed ↦ rw allowed (allowed, viable_legal rest)
          | inr refused ↦ rw refused (viable_legal rest)
        ]

  -- The preferred proposal of the legal ones passes the legality check, and by the key none of the
  -- legal proposals is strictly better.
  pub preferred_is_best :
      (legality : Proposal fl.F → Bool × List String) (proposals : List (Proposal fl.F))
      {p : Proposal fl.F}
      → preferred_of fl critiques preferences
          (viable_proposals fl critiques preferences legality proposals)
        ≡ some p
      → ((legality p).0 ≡ true)
        × All
            (λ q. key_lt fl critiques preferences q p ≡ false)
            (viable_proposals fl critiques preferences legality proposals)
  unfolding preferred_of key_le
  preferred_is_best legality proposals {p} h =
      let le = key_le fl critiques preferences in
      let viable = viable_proposals fl critiques preferences legality proposals in
      let first =
        preferred_first (sort_by le viable) {p = p}
          (sort_by-IsSorted le key_le-total key_le_trans viable) h in
      (
        preferred_mem (λ q. (legality q).0 ≡ true) (sort_by le viable) p
            (All-sort_by le (λ q. (legality q).0 ≡ true) viable (viable_legal legality proposals))
            h,
        sort_by-All le (λ q. key_lt fl critiques preferences q p ≡ false) viable
            (All-mono _ _ (sort_by le viable)
              (λ q e. not-true (key_lt fl critiques preferences q p) e) first),
      )
