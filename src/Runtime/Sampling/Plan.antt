-- ===== src/Runtime/Sampling/Plan.antt =====
-- What a refinement adds to the plan of a channel.
use d_mobility.Prelude.{
  ℕ, zero, suc, ◌+◌, ◌-◌, ◌≤◌, ◌≡◌, refl, sym, subst, ◌∙◌, ◌⊎◌, inl, inr, Bool, not, ◌&&◌, List, [],
  ◌∷◌, ◌++◌, map, Option, is_empty, eqb, leb, length, length-append, filter_by, sort_by, insert_by,
  All, IsDistinctBy, IsNew, IsNew-rest, IsNew-first, Bool-cases, arith, if◌then◌else◌,
}
use d_mobility.Agents.Params.{Value, Params, get}
use d_mobility.Runtime.Sampling.{
  Numbers, Direction, Fit, ChannelPlan, has_point, normalize_points, midpoint_candidates, choose,
  sample_channel, point_limit, resolve_refinement_sampling, infer_refinement_channels,
  is_midpoint_strategy,
}

length-insert_by {ℓ} :
    {A : Type ℓ} (le : A → A → Bool) (x : A) (ys : List A)
    → length (insert_by le x ys) ≡ suc (length ys)
length-insert_by le x [] = refl
length-insert_by le x (y ∷ ys) = ground (arith, length-insert_by le x ys)

length-sort_by {ℓ} :
    {A : Type ℓ} (le : A → A → Bool) (xs : List A) → length (sort_by le xs) ≡ length xs
length-sort_by le [] = refl
length-sort_by le (x ∷ xs) =
    omega (arith, length-sort_by le xs, length-insert_by le x (sort_by le xs))

module _ (numbers : Numbers) where
  open numbers use {N, same, le}

  choose-fits :
      (seen : List N) (room : ℕ) (vs : List N)
      → suc zero ≤ room
      → length (choose numbers seen room vs) ≤ room
  unfolding choose
  choose-fits seen room [] h = omega arith
  choose-fits seen room (v ∷ vs) h = elim (Bool-cases (has_point numbers v seen)) [
    | inl old ↦ rw old (choose-fits seen room vs h)
    | inr new ↦ elim (Bool-cases (leb room 1)) [
      | inl last ↦ rw (new, last) (omega arith)
      | inr more ↦
          let rest = choose-fits (v ∷ seen) (room - 1) vs (ground arith) in
          rw (new, more) (ground (arith, rest))
    ]
  ]

  choose-IsNew :
      (seen : List N) (room : ℕ) (vs : List N) → All (IsNew same seen) (choose numbers seen room vs)
  unfolding choose
  choose-IsNew seen room [] = tt
  choose-IsNew seen room (v ∷ vs) = elim (Bool-cases (has_point numbers v seen)) [
    | inl old ↦ rw old (choose-IsNew seen room vs)
    | inr new ↦ elim (Bool-cases (leb room 1)) [
      | inl last ↦ rw (new, last) (new, tt)
      | inr more ↦
          rw (new, more) (new, IsNew-rest same v seen _ (choose-IsNew (v ∷ seen) (room - 1) vs))
    ]
  ]

  choose-IsDistinctBy :
      (seen : List N) (room : ℕ) (vs : List N) → IsDistinctBy same (choose numbers seen room vs)
  unfolding choose
  choose-IsDistinctBy seen room [] = tt
  choose-IsDistinctBy seen room (v ∷ vs) = elim (Bool-cases (has_point numbers v seen)) [
    | inl old ↦ rw old (choose-IsDistinctBy seen room vs)
    | inr new ↦ elim (Bool-cases (leb room 1)) [
      | inl last ↦ rw (new, last) (tt, tt)
      | inr more ↦
          rw (new, more)
            (
              IsNew-first same v seen _ (choose-IsNew (v ∷ seen) (room - 1) vs),
              choose-IsDistinctBy (v ∷ seen) (room - 1) vs,
            )
    ]
  ]

  -- What a plan for a channel holds, against the points that are planned already.
  pub record IsWithinLimit (limit : ℕ) (existing : List N) (plan : ChannelPlan numbers)
      : Type 0 where
    pub full_count : length plan.full ≡ length existing + length plan.applied
    pub fits : (plan.applied ≡ []) ⊎ (length existing + length plan.applied ≤ limit)
    pub new : All (IsNew same existing) plan.applied
    pub distinct : IsDistinctBy same plan.applied

  sample_channel-IsWithinLimit :
      (limit : ℕ) (is_midpoint : Bool) (planned suggested : List (Option N)) (c : Direction)
      → IsWithinLimit limit
          (normalize_points numbers planned)
          (sample_channel numbers limit is_midpoint planned suggested c)
  unfolding sample_channel
  sample_channel-IsWithinLimit limit is_midpoint planned suggested c =
      let existing = normalize_points numbers planned in
      let explicit =
        filter_by (λ v. not (has_point numbers v existing)) (normalize_points numbers suggested) in
      let candidates =
        if is_empty explicit && is_midpoint
        then midpoint_candidates numbers existing
        else explicit in
      let room = limit - length existing in
      let chosen = choose numbers existing room candidates in
      elim (Bool-cases (eqb room 0)) [
        | inl closed ↦
            rw closed
              (record { full_count = omega arith; fits = inl refl; new = tt; distinct = tt })
        | inr open_slots ↦
            let some_room : suc zero ≤ room = ground arith in
            let fit = choose-fits existing room candidates some_room in
            rw open_slots (record {
              full_count = length-sort_by le (existing ++ chosen) ∙ length-append existing chosen;
              fits = inr (omega (arith, fit, some_room));
              new = choose-IsNew existing room candidates;
              distinct = choose-IsDistinctBy existing room candidates;
            })
      ]

  All-map {ℓ κ} :
      {A : Type ℓ} {B : Type κ} (P : B → Type 0) (f : A → B) (xs : List A)
      → ((x : A) → P (f x))
      → All P (map f xs)
  All-map P f [] h = tt
  All-map P f (x ∷ xs) h = (h x, All-map P f xs h)

  sample_channel-channel :
      (limit : ℕ) (is_midpoint : Bool) (planned suggested : List (Option N)) (c : Direction)
      → (sample_channel numbers limit is_midpoint planned suggested c).channel ≡ c
  unfolding sample_channel
  sample_channel-channel limit is_midpoint planned suggested c = ground arith

  -- In each plan of a refinement, the full plan has as many points as the planned and the applied
  -- ones together; no point is applied, or these stay within the limit; and no applied point is
  -- the same as a planned one or as another applied one.
  pub resolve_refinement_sampling-IsWithinLimit :
      (fit : Fit numbers) (default : N) (accepted : Value)
      (planned suggested : Direction → List (Option N)) (p : Params) (max_points : ℕ)
      → All
          (λ (plan : ChannelPlan numbers).
            IsWithinLimit
              (point_limit max_points)
              (normalize_points numbers (planned plan.channel))
              plan)
          (resolve_refinement_sampling numbers fit default accepted planned suggested p max_points)
  unfolding resolve_refinement_sampling
  resolve_refinement_sampling-IsWithinLimit fit default accepted planned suggested p max_points =
      All-map _ _ (infer_refinement_channels numbers fit default accepted p) λ c.
        let plan =
          sample_channel numbers (point_limit max_points)
            (is_midpoint_strategy (get "refinement_strategy" p)) (planned c) (suggested c) c in
        subst
          (λ (d : Direction).
            IsWithinLimit (point_limit max_points) (normalize_points numbers (planned d)) plan)
          (sym (
            sample_channel-channel (point_limit max_points)
              (is_midpoint_strategy (get "refinement_strategy" p)) (planned c) (suggested c) c))
          (sample_channel-IsWithinLimit (point_limit max_points)
            (is_midpoint_strategy (get "refinement_strategy" p)) (planned c) (suggested c) c)
