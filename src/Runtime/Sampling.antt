-- ===== src/Runtime/Sampling.antt =====
-- mobility_agent/runtime/refinement_policy.py: which strain points a refinement adds. A point is a
-- number rounded to six places, a fit metric a number of the same kind; what cannot be read as a
-- number is its own case.
pub mod Plan
pub mod Channels
use Prim.Native.Char.{code}
use d_mobility.Prelude.{
  ℕ, zero, suc, ◌+◌, ◌-◌, String, Bool, true, false, not, ◌&&◌, ◌||◌, List, [], ◌∷◌, ◌++◌, map,
  Option, none, some, ◌==◌, any, is_empty, leb, eqb, strip, filter_by, sort_by, length,
  dedupe_keep_order, if◌then◌else◌,
}
use d_mobility.Agents.Params.{Value, Params, get}

-- Numbers, with the order of `sorted` on points, that of the midpoints by `(abs(value), value)`,
-- and the rounded midpoint.
pub record Numbers : Type 1 where
  pub N : Type 0
  pub one : N
  pub same : N → N → Bool
  pub lt : N → N → Bool
  pub le : N → N → Bool
  pub candidate_le : N → N → Bool
  pub midpoint : N → N → N

pub data Direction : Type 0 where
  along_x along_y : Direction

abbrev pub same_direction : Direction → Direction → Bool
same_direction along_x along_x = true
same_direction along_y along_y = true
same_direction _ _ = false

-- `text.lower() == token`, for a token of lower-case ASCII letters and signs.
lower_code : ℕ → ℕ
lower_code c = if leb b'A' c && leb c b'Z' then c + 32 else c

unfoldable pub lower_is : String → String → Bool
unfolding lower_code
lower_is String.[] String.[] = true
lower_is (String.◌∷◌ c s) (String.◌∷◌ d t) = eqb (lower_code (code c)) (code d) && lower_is s t
lower_is _ _ = false

-- `text.lower().endswith(token)`
unfoldable pub lower_ends_with : String → String → Bool
lower_ends_with String.[] token = lower_is String.[] token
lower_ends_with (String.◌∷◌ c s) token =
    let rest = lower_ends_with s token in if lower_is (String.◌∷◌ c s) token then true else rest

-- A token of `_normalize_channels`: one of the two valid directions, or dropped.
unfoldable pub read_direction : String → List Direction
read_direction item =
    let token = strip item in
    if lower_is token "x" then along_x ∷ [] else if lower_is token "y" then along_y ∷ [] else []

read_directions : List String → List Direction
read_directions [] = []
read_directions (item ∷ rest) = read_direction item ++ read_directions rest

-- `_normalize_channels`. The source drops repetitions before it drops what is not a direction,
-- which leaves the same list.
unfoldable pub normalize_channels : Value → List Direction
unfolding read_directions
normalize_channels Value.null = []
normalize_channels (Value.text item) = read_direction item
normalize_channels (Value.items items) = dedupe_keep_order same_direction (read_directions items)

-- The direction that the name of a target fit ends in.
unfoldable pub direction_of_fit : String → List Direction
direction_of_fit item =
    let token = strip item in
    let ends = λ (a b c : String).
      lower_ends_with token a || lower_ends_with token b || lower_ends_with token c in
    if ends "_x" ":x" "/x" then along_x ∷ [] else if ends "_y" ":y" "/y" then along_y ∷ [] else []

abbrev pub directions_of_fits : List String → List Direction
directions_of_fits [] = []
directions_of_fits (item ∷ rest) = direction_of_fit item ++ directions_of_fits rest

-- `list(value or [])`, of which only a list of names can hold the name of a fit.
abbrev pub fit_names : Value → List String
fit_names (Value.items items) = items
fit_names _ = []

-- A value under a key of the diagnostics: missing; `None`, or an empty text or collection, which a
-- test reads as false like `None`; another one that `float` cannot read; or a number.
pub data Field (N : Type 0) : Type 0 where
  absent null unreadable : Field N
  number : N → Field N

abbrev pub or_absent : {N : Type 0} → Field N → Field N → Field N
or_absent absent other = other
or_absent value other = value

-- `or` on lists: the first one that is not empty.
abbrev pub or_channels : List Direction → List Direction → List Direction
or_channels [] other = other
or_channels (c ∷ cs) other = c ∷ cs

module _ (numbers : Numbers) where
  open numbers use {N, one, same, lt, le, candidate_le, midpoint}

  -- The entries of `diagnostics.fit_diagnostics` that the policy reads, and the threshold of the
  -- mission's runtime constraints.
  pub record Fit : Type 0 where
    pub fit_r2_threshold : Field N
    pub mission_threshold : Field N
    pub fit_r2_min : Field N
    pub effective_fit_quality : Direction → Field N
    pub edge_fit_r2 : Direction → Field N

  -- `_fit_threshold`
  unfoldable pub fit_threshold_of : Fit → N → N
  fit_threshold_of fit default = elim fit.fit_r2_threshold [
    | number v ↦ v
    | _ ↦ elim fit.mission_threshold [ number v ↦ v | _ ↦ default ]
  ]

  unfoldable pub metric_value : Fit → Direction → N
  metric_value fit d =
      elim (or_absent (fit.effective_fit_quality d)
        (or_absent (fit.edge_fit_r2 d) fit.fit_r2_min)) [ number v ↦ v | _ ↦ one ]

  unfoldable pub weak_channels : Fit → N → List Direction
  unfolding metric_value fit_threshold_of
  weak_channels fit default =
      filter_by (λ d. lt (metric_value fit d) (fit_threshold_of fit default))
        (along_x ∷ along_y ∷ [])

  -- `infer_refinement_channels`; the accepted channels are those of the physics results.
  unfoldable pub infer_refinement_channels : Fit → N → Value → Params → List Direction
  unfolding normalize_channels weak_channels
  infer_refinement_channels fit default accepted p =
      or_channels (normalize_channels (get "target_channels" p)) (
        or_channels (normalize_channels (get "target_directions" p)) (
          or_channels (normalize_channels (get "channels" p)) (
            or_channels (normalize_channels (get "directions" p)) (
              or_channels
                (dedupe_keep_order same_direction
                  (directions_of_fits (fit_names (get "target_fits" p))))
                (or_channels (weak_channels fit default)
                  (or_channels (normalize_channels accepted) (along_x ∷ along_y ∷ [])))))))

  -- `v in points`
  abbrev pub has_point : N → List N → Bool
  has_point v points = any (λ q. same q v) points

  readable : List (Option N) → List N
  readable [] = []
  readable (none ∷ rest) = readable rest
  readable (some v ∷ rest) = v ∷ readable rest

  -- `_normalize_points`
  unfoldable pub normalize_points : List (Option N) → List N
  unfolding readable
  normalize_points values = sort_by le (dedupe_keep_order same (readable values))

  -- The midpoints of neighbours that are new and lie strictly between them.
  unfoldable pub midpoints : List N → List N → List N
  midpoints existing [] = []
  midpoints existing (left ∷ []) = []
  midpoints existing (left ∷ right ∷ rest) =
      let others = midpoints existing (right ∷ rest) in
      let m = midpoint left right in
      if has_point m existing || not (lt left m) || not (lt m right) then others else m ∷ others

  -- `_midpoint_candidates`
  unfoldable pub midpoint_candidates : List N → List N
  unfolding midpoints
  midpoint_candidates existing =
      sort_by candidate_le (dedupe_keep_order same (midpoints existing existing))

  -- The loop over the candidates, with room for at least one more point.
  unfoldable pub choose : List N → ℕ → List N → List N
  choose seen room [] = []
  choose seen room (v ∷ vs) =
      let skipped = choose seen room vs in
      let rest = choose (v ∷ seen) (room - 1) vs in
      if has_point v seen then skipped else v ∷ (if leb room 1 then [] else rest)

  -- What the sampling says of a channel: `applied_points` (also the suggested ones; no entry is the
  -- empty list) and `full_plan_by_direction`.
  pub record ChannelPlan : Type 0 where
    pub channel : Direction
    pub applied : List N
    pub full : List N

  unfoldable pub sample_channel :
      ℕ → Bool → List (Option N) → List (Option N) → Direction → ChannelPlan
  unfolding normalize_points midpoint_candidates
  sample_channel limit is_midpoint planned suggested channel =
      let existing = normalize_points planned in
      let remaining_slots = limit - length existing in
      let explicit = filter_by (λ v. not (has_point v existing)) (normalize_points suggested) in
      let candidates =
        if is_empty explicit && is_midpoint then midpoint_candidates existing else explicit in
      let chosen = choose existing remaining_slots candidates in
      if eqb remaining_slots 0
      then record { channel = channel; applied = []; full = existing }
      else record { channel = channel; applied = chosen; full = sort_by le (existing ++ chosen) }

-- `max(0, int(max_points_per_direction or DEFAULT_REFINEMENT_TARGET_POINTS))`
abbrev pub point_limit : ℕ → ℕ
point_limit zero = 9
point_limit (suc n) = suc n

abbrev strategy_text : Value → String
strategy_text (Value.text s) = s
strategy_text _ = ""

-- `strategy in _MIDPOINT_STRATEGIES`
unfoldable pub is_midpoint_strategy : Value → Bool
is_midpoint_strategy strategy =
    any (lower_is (strip (strategy_text strategy)))
      ("midpoint" ∷ "midpoint_enrichment" ∷ "midpoint_refinement" ∷ "midpoint_sampling" ∷ [])

module _ (numbers : Numbers) where
  open numbers use {N}

  -- The plans of the target channels, in their order. The suggested points of the parameters are
  -- an argument of their own.
  unfoldable pub resolve_refinement_sampling :
      Fit numbers
      → N
      → Value
      → (Direction → List (Option N))
      → (Direction → List (Option N))
      → Params
      → ℕ
      → List (ChannelPlan numbers)
  resolve_refinement_sampling fit default accepted planned suggested p max_points =
      map
        (λ c.
          sample_channel numbers (point_limit max_points)
            (is_midpoint_strategy (get "refinement_strategy" p)) (planned c) (suggested c) c)
        (infer_refinement_channels numbers fit default accepted p)
