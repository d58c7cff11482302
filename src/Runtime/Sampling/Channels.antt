-- ===== src/Runtime/Sampling/Channels.antt =====
-- The channels that a refinement targets.
use d_mobility.Prelude.{
  ◌≡◌, refl, Bool, true, false, List, [], ◌∷◌, filter_by, is_empty, IsDistinctBy, dedupe_keep_order,
  dedupe_from-IsDistinctBy, Bool-cases, inl, inr, strip, String,
}
use d_mobility.Agents.Params.{Value, Params, get}
use d_mobility.Runtime.Sampling.{
  Numbers, Direction, along_x, along_y, same_direction, Fit, or_channels, fit_names,
  infer_refinement_channels, normalize_channels, read_direction, lower_is, weak_channels,
  directions_of_fits, metric_value, fit_threshold_of,
}

-- Both of the two lists are without repetitions, and the second is not empty.
or_channels-IsDistinctBy :
    (cs ds : List Direction)
    → IsDistinctBy same_direction cs
    → IsDistinctBy same_direction ds × (is_empty ds ≡ false)
    → IsDistinctBy same_direction (or_channels cs ds) × (is_empty (or_channels cs ds) ≡ false)
or_channels-IsDistinctBy [] ds h k = k
or_channels-IsDistinctBy (c ∷ cs) ds h k = (h, refl)

read_direction-IsDistinctBy : (item : String) → IsDistinctBy same_direction (read_direction item)
unfolding read_direction
read_direction-IsDistinctBy item = elim (Bool-cases (lower_is (strip item) "x")) [
  | inl e ↦ rw e (tt, tt)
  | inr e ↦ elim (Bool-cases (lower_is (strip item) "y")) [
    | inl f ↦ rw (e, f) (tt, tt)
    | inr f ↦ rw (e, f) tt
  ]
]

normalize_channels-IsDistinctBy : (v : Value) → IsDistinctBy same_direction (normalize_channels v)
unfolding normalize_channels
normalize_channels-IsDistinctBy Value.null = tt
normalize_channels-IsDistinctBy (Value.text item) = read_direction-IsDistinctBy item
normalize_channels-IsDistinctBy (Value.items items) = dedupe_from-IsDistinctBy same_direction [] _

filter_both :
    (p : Direction → Bool) → IsDistinctBy same_direction (filter_by p (along_x ∷ along_y ∷ []))
filter_both p = go (p along_x) (p along_y)
  where
    tail : Bool → List Direction
    tail b = elim b [ true ↦ along_y ∷ [] | false ↦ [] ]

    go :
        (a b : Bool)
        → IsDistinctBy same_direction (elim a [ true ↦ along_x ∷ tail b | false ↦ tail b ])
    go true true = ((refl, tt), (tt, tt))
    go true false = (tt, tt)
    go false true = (tt, tt)
    go false false = tt

valid-IsDistinctBy :
    IsDistinctBy same_direction (along_x ∷ along_y ∷ [])
    × (is_empty {A = Direction} (along_x ∷ along_y ∷ []) ≡ false)
valid-IsDistinctBy = (((refl, tt), (tt, tt)), refl)

-- The channels that a refinement targets hold no direction twice, and there is at least one.
pub infer_refinement_channels-IsDistinctBy :
    (numbers : Numbers) (fit : Fit numbers) (default : numbers.N) (accepted : Value) (p : Params)
    → let cs = infer_refinement_channels numbers fit default accepted p in
      IsDistinctBy same_direction cs × (is_empty cs ≡ false)
unfolding infer_refinement_channels weak_channels
infer_refinement_channels-IsDistinctBy numbers fit default accepted p =
    let channels = normalize_channels-IsDistinctBy in
    let fits = directions_of_fits (fit_names (get "target_fits" p)) in
    let weak = weak_channels numbers fit default in
    let last = or_channels (normalize_channels accepted) (along_x ∷ along_y ∷ []) in
    or_channels-IsDistinctBy _ _ (channels (get "target_channels" p)) (
      or_channels-IsDistinctBy _ _ (channels (get "target_directions" p)) (
        or_channels-IsDistinctBy _ _ (channels (get "channels" p)) (
          or_channels-IsDistinctBy _ _ (channels (get "directions" p)) (
            or_channels-IsDistinctBy (dedupe_keep_order same_direction fits) (or_channels weak last)
              (dedupe_from-IsDistinctBy same_direction [] fits)
              (or_channels-IsDistinctBy weak last
                (filter_both (λ d.
                  numbers.lt (metric_value numbers fit d) (fit_threshold_of numbers fit default)))
                (or_channels-IsDistinctBy _ _ (channels accepted) valid-IsDistinctBy))))))
