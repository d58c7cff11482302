-- ===== src/Checks/Sampling.antt =====
-- The sampling of strain points at concrete inputs, with numbers in thousandths.
use Prim.Native.Nat.{◌/◌}
use d_mobility.Prelude.{
  ℕ, ◌+◌, ◌-◌, ◌≡◌, refl, false, List, [], ◌∷◌, Option, none, some, map, ltb, leb, eqb, All,
  IsDistinctBy, is_empty, strip,
}
use d_mobility.Agents.Params.{Value, Params, get}
use d_mobility.Runtime.Sampling.{
  Numbers, Direction, along_x, along_y, same_direction, number, absent, null, Fit, ChannelPlan,
  point_limit, normalize_points, resolve_refinement_sampling, infer_refinement_channels,
  sample_channel, choose, is_midpoint_strategy, lower_is,
}
use d_mobility.Runtime.Sampling.Plan.{IsWithinLimit, resolve_refinement_sampling-IsWithinLimit}
use d_mobility.Runtime.Sampling.Channels.{infer_refinement_channels-IsDistinctBy}

abbrev pub numbers : Numbers
numbers = record {
  N = ℕ;
  one = 1000;
  same = eqb;
  lt = ltb;
  le = leb;
  candidate_le = leb;
  midpoint = λ a b. a + (b - a) / 2;
}

abbrev pub fit : Fit numbers
fit = record {
  fit_r2_threshold = absent;
  mission_threshold = null;
  fit_r2_min = number 950;
  effective_fit_quality = λ d. elim d [ along_x ↦ number 700 | along_y ↦ number 960 ];
  edge_fit_r2 = λ d. absent;
}

abbrev pub planned : Direction → List (Option ℕ)
planned d = some 10 ∷ some 30 ∷ none ∷ some 20 ∷ some 10 ∷ []

abbrev pub no_points : Direction → List (Option ℕ)
no_points d = []

abbrev pub parameters : Params
parameters = ("refinement_strategy", Value.text "Midpoint_Enrichment") ∷ []

infer_refinement_channels-IsDistinctBy_example :
    IsDistinctBy same_direction (infer_refinement_channels numbers fit 900 Value.null parameters)
    × (is_empty (infer_refinement_channels numbers fit 900 Value.null parameters) ≡ false)
infer_refinement_channels-IsDistinctBy_example =
    infer_refinement_channels-IsDistinctBy numbers fit 900 Value.null parameters

resolve_refinement_sampling-IsWithinLimit_example :
    All
      (λ (plan : ChannelPlan numbers).
        IsWithinLimit numbers
          (point_limit 4)
          (normalize_points numbers (planned plan.channel))
          plan)
      (resolve_refinement_sampling numbers fit 900 Value.null planned no_points parameters 4)
resolve_refinement_sampling-IsWithinLimit_example =
    resolve_refinement_sampling-IsWithinLimit numbers fit 900 Value.null planned no_points
      parameters 4

-- Only the weak direction is refined, up to the limit of four points.
sampled_points :
    map
      (λ (plan : ChannelPlan numbers). plan.full)
      (resolve_refinement_sampling numbers fit 900 Value.null planned no_points parameters 4)
    ≡ (10 ∷ 15 ∷ 20 ∷ 30 ∷ []) ∷ []
unfolding resolve_refinement_sampling infer_refinement_channels get sample_channel choose
    is_midpoint_strategy lower_is strip
sampled_points = refl
