-- ===== src/Runtime/Validation/Reviews.antt =====
-- mobility_agent/runtime/validation_policy.py: `_channel_review`, the review of one channel (a
-- direction and a carrier).
use d_mobility.Prelude.{
  String, Bool, true, false, not, ◌&&◌, ◌||◌, List, [], ◌∷◌, ◌++◌, Option, none, some, all,
  dedupe_texts, if◌then◌else◌,
}
use d_mobility.Runtime.Sampling.{Numbers, Direction, along_x, along_y, same_direction}

pub data Carrier : Type 0 where
  electron hole : Carrier

-- A channel, in place of its token `f"{carrier}_{direction}"`.
abbrev pub Channel : Type 0
Channel = Direction × Carrier

abbrev pub same_channel : Channel → Channel → Bool
same_channel (d, electron) (e, electron) = same_direction d e
same_channel (d, hole) (e, hole) = same_direction d e
same_channel (d, electron) (e, hole) = false
same_channel (d, hole) (e, electron) = false

-- `default_subchannels`, in the order of the loops of the report
abbrev pub default_subchannels : List Channel
default_subchannels =
    (along_x, electron) ∷ (along_x, hole) ∷ (along_y, electron) ∷ (along_y, hole) ∷ []

-- What the review needs of floats: `float` reads a literal of the source.
pub record Reals (numbers : Numbers) : Type 0 where
  pub float : String → numbers.N
  pub is_finite : numbers.N → Bool
  pub abs : numbers.N → numbers.N
  pub div : numbers.N → numbers.N → numbers.N

-- The entries of a carrier that the review reads; what is not a number is `none`. `mass_warning`
-- says that the effective mass is not valid or rejected.
pub record ChannelData (N : Type 0) : Type 0 where
  pub mobility : Option N
  pub raw_mobility : Option N
  pub e1 : Option N
  pub e1_sigma : Option N
  pub e1_fit_r2 : Option N
  pub c2d : Option N
  pub c2d_sigma : Option N
  pub c2d_fit_r2 : Option N
  pub mass_warning : Bool

pub data ReviewStatus : Type 0 where
  accepted accepted_with_warning refine_candidate rejected : ReviewStatus

pub record Review : Type 0 where
  pub channel : Channel
  pub status : ReviewStatus
  pub reason : String
  pub warning_reasons : List String

abbrev or_some {ℓ} : {A : Type ℓ} → Option A → Option A → Option A
or_some none other = other
or_some (some a) other = some a

-- `[reason] if test else []`
abbrev reason_if : Bool → String → List String
reason_if true reason = reason ∷ []
reason_if false reason = []

abbrev pub is_rejected : ReviewStatus → Bool
is_rejected rejected = true
is_rejected _ = false

abbrev pub is_refine : ReviewStatus → Bool
is_refine refine_candidate = true
is_refine _ = false

module _ (numbers : Numbers) (reals : Reals numbers) where
  open numbers use {N, same, lt, le}
  open reals use {float, is_finite, abs, div}

  -- `_is_finite`
  abbrev finite : Option N → Bool
  finite none = false
  finite (some v) = is_finite v

  -- `value or default` on floats, where zero counts as missing
  abbrev or_float : Option N → N → N
  or_float none default = default
  or_float (some v) default = if same v (float "0.0") then default else v

  -- `_relative_sigma(...) is not None and ... > limit`
  unfoldable pub exceeds : Option N → Option N → N → Bool
  exceeds none baseline limit = false
  exceeds (some sigma) none limit = false
  exceeds (some sigma) (some baseline) limit =
      not (le (abs baseline) (float "1.0e-12")) && lt limit (abs (div sigma baseline))

  abbrev pub mobility_of : ChannelData N → Option N
  mobility_of d = or_some d.mobility d.raw_mobility

  unfoldable pub metrics_present : ChannelData N → Bool
  metrics_present d = all finite (mobility_of d ∷ d.e1 ∷ d.e1_fit_r2 ∷ d.c2d ∷ d.c2d_fit_r2 ∷ [])

  unfoldable pub catastrophic_mobility : ChannelData N → Bool
  catastrophic_mobility d = le (float "1.0e7") (abs (or_float (mobility_of d) (float "0.0")))

  unfoldable pub needs_refinement : N → ChannelData N → Bool
  unfolding exceeds
  needs_refinement fit_threshold d =
      lt (or_float d.e1_fit_r2 (float "1.0")) fit_threshold
      || lt (or_float d.c2d_fit_r2 (float "1.0")) fit_threshold
      || exceeds d.e1_sigma d.e1 (float "0.50")
      || exceeds d.c2d_sigma d.c2d (float "0.20")

  warnings_of : ChannelData N → List String
  warnings_of d =
      let zero_float = float "0.0" in
      let mobility = or_float (mobility_of d) zero_float in
      reason_if d.mass_warning "effective_mass_quality_warning"
      ++ reason_if (le mobility zero_float) "non_positive_signed_mobility"
      ++ reason_if (lt (or_float d.e1_fit_r2 zero_float) (float "0.20"))
          "severe_e1_fit_quality_warning"
      ++ reason_if
          (lt (abs (or_float d.e1 zero_float)) (float "0.05") && le (float "1.0e5") (abs mobility))
          "flat_deformation_potential_with_suspicious_mobility"

  -- The last two ways to leave the review: with a warning, or accepted.
  abbrev warned : Channel → List String → Review
  warned c [] = record {
    channel = c;
    status = accepted;
    reason = "channel_within_validation_window";
    warning_reasons = [];
  }
  warned c (w ∷ ws) = record {
    channel = c;
    status = accepted_with_warning;
    reason = w;
    warning_reasons = dedupe_texts (w ∷ ws);
  }

  -- `_channel_review`
  unfoldable pub channel_review : N → (Channel → ChannelData N) → Channel → Review
  unfolding warnings_of
  channel_review fit_threshold data_of c =
      let d = data_of c in
      if not (metrics_present d)
      then record {
        channel = c;
        status = rejected;
        reason = "missing_or_non_physical_channel_metrics";
        warning_reasons = [];
      }
      else if catastrophic_mobility d
      then record {
        channel = c;
        status = rejected;
        reason = "extreme_unphysical_mobility";
        warning_reasons = [];
      }
      else if needs_refinement fit_threshold d
      then record {
        channel = c;
        status = refine_candidate;
        reason = "fit_quality_or_uncertainty_suggests_additional_sampling";
        warning_reasons = dedupe_texts (warnings_of d);
      }
      else warned c (warnings_of d)
