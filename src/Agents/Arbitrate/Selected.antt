-- ===== src/Agents/Arbitrate/Selected.antt =====
-- The action that an arbitration selects.
use d_mobility.Prelude.{
  String, ◌≡◌, refl, sym, ap, subst, ◌∙◌, ◌⊎◌, inl, inr, Bool, true, false, ◌||◌, List, [], ◌∷◌,
  ◌++◌, Option, none, some, ◌==◌, contains, map, is_empty, IsDistinct, contains-dedupe_from,
  dedupe_texts, strip, or_text, Bool-cases, eq_iff, arith,
}
use d_mobility.Agents.Proposals.{
  Proposal, SelectedAction, canonicalize_proposal, local_execution_action_families,
}
use d_mobility.Agents.Guardrail.{
  Floats, Critique, Preference, Situation, ArbitrationRecord, guardrail_arbitration,
  viable_proposals, ids, without_proposals, without_viable, with_viable, noop_record, Note,
  is_budget_exhausted,
}
use d_mobility.Agents.Arbitrate.{
  Decision, find_proposal, resolve_selection, decision_record, normalization_notes, normalize,
  arbitrate,
}
use d_mobility.Agents.Arbitrate.Origin.{IsActionOf, Origin, resolve-Origin}

canonicalize_proposal_id :
    {F : Type 0} (p : Proposal F) → (canonicalize_proposal p).0.proposal_id ≡ p.proposal_id
unfolding canonicalize_proposal
canonicalize_proposal_id p =
    elim (Bool-cases (contains p.action_family local_execution_action_families)) [
      | inl e ↦ rw e
      | inr e ↦ rw e
    ]

or-true : (a b : Bool) → (a || b) ≡ true → (a ≡ true) ⊎ (b ≡ true)
or-true true b h = inl refl
or-true false b h = inr h

or_right : (a b : Bool) → b ≡ true → (a || b) ≡ true
or_right true b h = refl
or_right false b h = h

once :
    (x key : String) (xs : List String)
    → contains x xs ≡ false
    → x ≡ key
    → contains key xs ≡ true
    → ⊥
once x key xs h e k = cc (ap (λ (y : String). contains y xs) e)

module _ (fl : Floats) (critiques : List Critique) (preferences : List (Preference fl.F))
    (legality : Proposal fl.F → Bool × List String) where
  abbrev viable : List (Proposal fl.F) → List (Proposal fl.F)
  viable = viable_proposals fl critiques preferences legality

  abbrev names : List (Proposal fl.F) → List String
  names ps = map (λ (p : Proposal fl.F). p.proposal_id) ps

  -- A legal id is the id of a proposal.
  viable_named :
      (key : String) (ps : List (Proposal fl.F))
      → contains key (names (viable ps)) ≡ true
      → contains key (names ps) ≡ true
  unfolding viable_proposals
  viable_named key [] h = h
  viable_named key (p ∷ ps) h = elim (Bool-cases (legality (canonicalize_proposal p).0).0) [
    | inl allowed ↦
        elim (or-true ((canonicalize_proposal p).0.proposal_id == key)
          (contains key (names (viable ps))) (rw allowed at h)) [
            | inl here ↦
                ap (λ (x : String). (x == key) || contains key (names ps))
                  (sym (canonicalize_proposal_id p))
                ∙ ap (λ (b : Bool). b || contains key (names ps)) here
            | inr there ↦
                or_right (p.proposal_id == key) (contains key (names ps))
                  (viable_named key ps there)
          ]
    | inr refused ↦
        or_right (p.proposal_id == key) (contains key (names ps))
          (viable_named key ps (rw refused at h))
  ]

  -- Where no two proposals share an id, the proposal that is found for a legal id is legal.
  found_legal :
      (key : String) (ps : List (Proposal fl.F)) {p : Proposal fl.F}
      → IsDistinct (names ps)
      → contains key (names (viable ps)) ≡ true
      → find_proposal key ps ≡ some p
      → (legality (canonicalize_proposal p).0).0 ≡ true
  unfolding find_proposal viable_proposals
  found_legal key [] d h e = absurd (cc e)
  found_legal key (q ∷ ps) {p} d h e = elim (Bool-cases (q.proposal_id == key)) [
    | inl here ↦
        let same : q ≡ p = cc (rw here at e) in
        elim (Bool-cases (legality (canonicalize_proposal q).0).0) [
          | inl allowed ↦
              subst (λ (x : Proposal fl.F). (legality (canonicalize_proposal x).0).0 ≡ true) same
                allowed
          | inr refused ↦ absurd (
              once q.proposal_id key (names ps) d.0 ((eq_iff q.proposal_id key).0 here)
                (viable_named key ps (rw refused at h)))
        ]
    | inr away ↦
        found_legal key ps d.1
          (elim (Bool-cases (legality (canonicalize_proposal q).0).0) [
            | inl allowed ↦
                elim (or-true ((canonicalize_proposal q).0.proposal_id == key)
                  (contains key (names (viable ps))) (rw allowed at h)) [
                    | inl here ↦
                        absurd (cc (ap (λ (x : String). x == key) (canonicalize_proposal_id q)))
                    | inr there ↦ there
                  ]
            | inr refused ↦ rw refused at h
          ])
          (rw away at e)
  ]

abbrev IsBare : ArbitrationRecord → Type 0
IsBare r = (r.legal_proposal_ids ≡ []) × (r.selected_action ≡ none)

without_proposals-IsBare : (s : Situation) → IsBare (without_proposals s)
unfolding without_proposals noop_record
without_proposals-IsBare s = (ground arith, ground arith)

module _ (fl : Floats) (critiques : List Critique) (preferences : List (Preference fl.F))
    (legality : Proposal fl.F → Bool × List String) where
  without_viable-IsBare :
      (s : Situation) (rejected : List String) (notes : List Note)
      → IsBare (without_viable fl critiques preferences legality s rejected notes)
  unfolding without_viable noop_record
  without_viable-IsBare s rejected notes = (ground arith, ground arith)

  -- The guardrail's record names no legal proposal, or names those that the check allows; it
  -- selects no action.
  guardrail_ids :
      (s : Situation) (ps : List (Proposal fl.F))
      → let r = guardrail_arbitration fl critiques preferences legality s ps in
        (IsBare r)
        ⊎ ((r.legal_proposal_ids
              ≡ names fl critiques preferences legality
                  (viable_proposals fl critiques preferences legality ps))
            × (r.selected_action ≡ none))
  unfolding guardrail_arbitration with_viable noop_record
  guardrail_ids s ps = elim (Bool-cases (is_budget_exhausted s)) [
    | inl e ↦ rw e (inl (refl, refl))
    | inr e ↦ elim (Bool-cases (is_empty ps)) [
      | inl f ↦ rw (e, f) (inl (without_proposals-IsBare s))
      | inr f ↦
          elim (Bool-cases (is_empty (viable_proposals fl critiques preferences legality ps))) [
            | inl g ↦ rw (e, f, g) (inl (without_viable-IsBare s _ _))
            | inr g ↦ rw (e, f, g) (inr (refl, refl))
          ]
    ]
  ]

module _ (fl : Floats) (critiques : List Critique) (preferences : List (Preference fl.F))
    (legality : Proposal fl.F → Bool × List String)
    (action_legality : SelectedAction → Bool × List String) (supporting : List String)
    (ask : List (Proposal fl.F) → ArbitrationRecord → Option Decision) where
  -- What is selected is legal: the action is that of a proposal that the legality check of
  -- proposals allows, or one that the check of actions allows.
  abbrev pub IsLegalAction : List (Proposal fl.F) → SelectedAction → Type 0
  IsLegalAction proposals a =
      ((p : Proposal fl.F) × (find_proposal p.proposal_id proposals ≡ some p)
        × IsActionOf p a
        × ((legality (canonicalize_proposal p).0).0 ≡ true))
      ⊎ ((action_legality a).0 ≡ true)

  find_id :
      (key : String) (ps : List (Proposal fl.F)) (p : Proposal fl.F)
      → find_proposal key ps ≡ some p
      → p.proposal_id ≡ key
  unfolding find_proposal
  find_id key [] p h = absurd (cc h)
  find_id key (q ∷ ps) p h = elim (Bool-cases (q.proposal_id == key)) [
    | inl e ↦
        let same : q ≡ p = cc (rw e at h) in
        subst (λ (x : Proposal fl.F). x.proposal_id ≡ key) same ((eq_iff q.proposal_id key).0 e)
    | inr e ↦ find_id key ps p (rw e at h)
  ]

  Origin-legal :
      (ps : List (Proposal fl.F)) (ids : List String) (a : SelectedAction)
      → IsDistinct (names fl critiques preferences legality ps)
      → ids
        ≡ names fl critiques preferences legality
            (viable_proposals fl critiques preferences legality ps)
      → Origin action_legality ps (dedupe_texts ids) a
      → IsLegalAction ps a
  Origin-legal ps ids a d e (inr allowed) = inr allowed
  Origin-legal ps ids a d e (inl (key, p, known, found, action)) = inl (
    p,
    subst (λ (k : String). find_proposal k ps ≡ some p) (sym (find_id key ps p found)) found,
    action,
    found_legal fl critiques preferences legality key ps d
        (subst (λ (xs : List String). contains key xs ≡ true) e
          (contains-dedupe_from key [] ids known))
        found,
  )

  same_record :
      (x y : ArbitrationRecord) → ◌≡◌ {A = Option ArbitrationRecord} (some x) (some y) → x ≡ y
  same_record x y h = cc h

  no_selection :
      (g r : ArbitrationRecord) (a : SelectedAction)
      → g.selected_action ≡ none
      → ◌≡◌ {A = Option ArbitrationRecord} (some g) (some r)
      → r.selected_action ≡ some a
      → ⊥
  no_selection g r a n h e =
      cc (n, ap (λ (x : ArbitrationRecord). x.selected_action) (same_record g r h), e)

  decision_selects :
      (ps : List (Proposal fl.F)) (g : ArbitrationRecord) (d : Decision)
      (o : Option (String × Option SelectedAction)) (r : ArbitrationRecord) (a : SelectedAction)
      → (elim o [ none ↦ none | some selection ↦ some (decision_record ps g d selection) ]) ≡ some r
      → r.selected_action ≡ some a
      → (key : String) × (o ≡ some (key, some a))
  unfolding decision_record
  decision_selects ps g d none r a h e = absurd (cc h)
  decision_selects ps g d (some (key, action)) r a h e = (
    key,
    ap (λ (x : Option SelectedAction). some (key, x))
        (ap (λ (x : ArbitrationRecord). x.selected_action)
            (same_record (decision_record ps g d (key, action)) r h)
          ∙ e),
  )

  -- What the rest of the arbitration returns, once the model has answered.
  asked-Origin :
      (ps : List (Proposal fl.F)) (g : ArbitrationRecord) (legal : List String) (preferred : String)
      (o : Option Decision) (r : ArbitrationRecord) (a : SelectedAction)
      → (elim o [
        | none ↦ none
        | some d ↦ elim (resolve_selection action_legality supporting ps legal preferred d) [
          | none ↦ none
          | some selection ↦ some (decision_record ps g d selection)
        ]
      ])
        ≡ some r
      → r.selected_action ≡ some a
      → Origin action_legality ps legal a
  asked-Origin ps g legal preferred none r a h e = absurd (cc h)
  asked-Origin ps g legal preferred (some d) r a h e =
      let (key, q) =
        decision_selects ps g d (resolve_selection action_legality supporting ps legal preferred d)
          r a h e in
      resolve-Origin action_legality supporting ps legal preferred d key a q

  -- Where no two proposals share an id, an action that the arbitration selects is that of a
  -- proposal that the legality check of proposals allows, in canonical form, or one that the check
  -- of actions allows; whatever the language model answers.
  pub arbitrate_selects_legal :
      (s : Situation) (proposals : List (Proposal fl.F)) (r : ArbitrationRecord)
      (a : SelectedAction)
      → IsDistinct (names fl critiques preferences legality (normalize proposals))
      → arbitrate fl critiques preferences legality action_legality supporting ask s proposals
        ≡ some r
      → r.selected_action ≡ some a
      → IsLegalAction (normalize proposals) a
  unfolding arbitrate
  arbitrate_selects_legal s proposals r a d h e =
      main (guardrail_ids fl critiques preferences legality s ps)
        (Bool-cases (is_empty ps || is_empty legal))
    where
      ps : List (Proposal fl.F)
      ps = normalize proposals

      found : ArbitrationRecord
      found = guardrail_arbitration fl critiques preferences legality s ps

      legal : List String
      legal = dedupe_texts found.legal_proposal_ids

      guardrail : ArbitrationRecord
      guardrail = record found {
        guardrail_notes = found.guardrail_notes ++ normalization_notes proposals;
      }

      main :
          ((IsBare found)
            ⊎ ((found.legal_proposal_ids
                  ≡ names fl critiques preferences legality
                      (viable_proposals fl critiques preferences legality ps))
                × (found.selected_action ≡ none)))
          → ((is_empty ps || is_empty legal) ≡ true) ⊎ ((is_empty ps || is_empty legal) ≡ false)
          → IsLegalAction ps a
      main (inl b) (inl c) = absurd (no_selection guardrail r a b.1 (rw c at h) e)
      main (inr b) (inl c) = absurd (no_selection guardrail r a b.1 (rw c at h) e)
      main (inl b) (inr c) = absurd (
          cc (
            c,
            or_right (is_empty ps) (is_empty legal)
                (ap (λ (xs : List String). is_empty (dedupe_texts xs)) b.0),
          ))
      main (inr b) (inr c) = Origin-legal ps found.legal_proposal_ids a d b.0 (
          asked-Origin ps guardrail legal
            (strip (or_text guardrail.guardrail_preferred_proposal_id "")) (ask ps guardrail) r a
            (rw c at h) e)
