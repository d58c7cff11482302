-- ===== src/Agents/Arbitrate/Origin.antt =====
-- Where the action that a decision comes to is from.
use d_mobility.Prelude.{
  String, ◌≡◌, refl, subst, ◌∙◌, ◌⊎◌, inl, inr, Bool, true, false, ◌&&◌, List, Option, none, some,
  contains, Bool-cases,
}
use d_mobility.Agents.Params.{canonicalize_action_parameters}
use d_mobility.Agents.Proposals.{
  Proposal, SelectedAction, canonicalize_selected_action, canonicalize_override_selected_action,
}
use d_mobility.Agents.Arbitrate.{
  Decision, is_override_id, decided_id, find_proposal, action_of_source, override_action,
  selected_of, final_id, resolve_selection, with_key, after_id,
}

-- The action executes what the proposal proposes, with its parameters in canonical form.
pub record IsActionOf {F : Type 0} (p : Proposal F) (a : SelectedAction) : Type 0 where
  pub family : a.action_family ≡ p.action_family
  pub target : a.target_capability ≡ p.target_capability
  pub skill : a.selected_skill ≡ p.selected_skill
  pub parameters : a.parameters ≡ (canonicalize_action_parameters p.action_family p.parameters).0
  pub source : a.source_proposal_id ≡ some p.proposal_id
  pub external : a.submit_external_job ≡ p.submit_external_job
  pub waiting : a.wait_for_event_after_submission ≡ p.wait_for_event_after_submission

canonicalize-IsActionOf :
    {F : Type 0} (p : Proposal F) (key : String) (parsed : Option SelectedAction)
    (supporting : List String)
    → IsActionOf p (canonicalize_selected_action p key parsed supporting).0
unfolding canonicalize_selected_action
canonicalize-IsActionOf p key none supporting = record {
  family = refl;
  target = refl;
  skill = refl;
  parameters = refl;
  source = refl;
  external = refl;
  waiting = refl;
}
canonicalize-IsActionOf p key (some a) supporting = record {
  family = refl;
  target = refl;
  skill = refl;
  parameters = refl;
  source = refl;
  external = refl;
  waiting = refl;
}

and_right : (a b : Bool) → (a && b) ≡ true → b ≡ true
and_right true b h = h
and_right false b h = absurd (cc h)

-- Where a selected action comes from: the first proposal of a legal id, or an override that the
-- check allows.
abbrev pub Origin :
    (SelectedAction → Bool × List String)
    → {F : Type 0} → List (Proposal F)
    → List String
    → SelectedAction
    → Type 0
Origin action_legality {F} proposals legal a =
    ((key : String) × (p : Proposal F) × (contains key legal ≡ true)
      × (find_proposal key proposals ≡ some p)
      × IsActionOf p a)
    ⊎ ((action_legality a).0 ≡ true)

same_action :
    (k key : String) (u v : Option SelectedAction)
    → ◌≡◌ {A = Option (String × Option SelectedAction)} (some (k, u)) (some (key, v))
    → some u ≡ some v
same_action k key u v q = cc q

module _ (action_legality : SelectedAction → Bool × List String) (supporting : List String) where
  override_legal :
      (key : String) (parsed : Option SelectedAction) (a : SelectedAction)
      → override_action action_legality supporting key parsed ≡ some a
      → (action_legality a).0 ≡ true
  unfolding override_action
  override_legal key none a h = absurd (cc h)
  override_legal key (some b) a h =
      let c = (canonicalize_override_selected_action b supporting).0 in
      elim (Bool-cases (is_override_id key && (action_legality c).0)) [
        | inl both ↦
            let e : c ≡ a = cc (rw both at h) in
            subst (λ (x : SelectedAction). (action_legality x).0 ≡ true) e (and_right _ _ both)
        | inr neither ↦ absurd (cc (rw neither at h))
      ]

  selected-Origin :
      {F : Type 0} (proposals : List (Proposal F)) (legal : List String)
      (parsed : Option SelectedAction) (key : String) (override : Option SelectedAction)
      (a : SelectedAction)
      → ((b : SelectedAction) → override ≡ some b → (action_legality b).0 ≡ true)
      → selected_of action_legality supporting proposals legal parsed key override ≡ some (some a)
      → Origin action_legality proposals legal a
  unfolding selected_of
  selected-Origin proposals legal parsed key override a over h =
      elim (Bool-cases (contains key legal)) [
        | inl known ↦ go (find_proposal key proposals) refl known (rw known at h)
        | inr new ↦ inr (over a (cc (rw new at h)))
      ]
    where
      go :
          (o : Option (Proposal _))
          → find_proposal key proposals ≡ o
          → contains key legal ≡ true
          → (elim o [
            | none ↦ none
            | some p ↦ some (
                some
                  (canonicalize_selected_action p key (action_of_source key parsed) supporting).0)
          ])
            ≡ some (some a)
          → Origin action_legality proposals legal a
      go none e known k = absurd (cc k)
      go (some p) e known k = inl (
        key,
        p,
        known,
        e,
        subst (IsActionOf p) (cc k)
            (canonicalize-IsActionOf p key (action_of_source key parsed) supporting),
      )

  pub resolve-Origin :
      {F : Type 0} (proposals : List (Proposal F)) (legal : List String) (preferred : String)
      (d : Decision) (key : String) (a : SelectedAction)
      → resolve_selection action_legality supporting proposals legal preferred d
        ≡ some (key, some a)
      → Origin action_legality proposals legal a
  unfolding resolve_selection
  resolve-Origin proposals legal preferred d key a h =
      outer (final_id action_legality supporting legal preferred d override) h
    where
      override : Option SelectedAction
      override = override_action action_legality supporting (decided_id d) d.selected_action

      inner :
          (k : String) (o : Option (Option SelectedAction))
          → selected_of action_legality supporting proposals legal d.selected_action k override ≡ o
          → with_key k o ≡ some (key, some a)
          → Origin action_legality proposals legal a
      inner k none e q = absurd (cc q)
      inner k (some action) e q =
          selected-Origin proposals legal d.selected_action k override a
            (λ b. override_legal (decided_id d) d.selected_action b)
            (e ∙ same_action k key action (some a) q)

      chosen : String → Option (Option SelectedAction)
      chosen k = selected_of action_legality supporting proposals legal d.selected_action k override

      outer :
          (o : Option String)
          → after_id o chosen ≡ some (key, some a)
          → Origin action_legality proposals legal a
      outer none q = absurd (cc q)
      outer (some k) q = inner k (chosen k) refl q
