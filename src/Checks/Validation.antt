-- ===== src/Checks/Validation.antt =====
-- The validation report at concrete inputs, with numbers in thousandths.
use Prim.Native.Nat.{◌*◌, ◌/◌}
use d_mobility.Prelude.{
  ℕ, ◌+◌, ◌-◌, ◌≡◌, String, true, false, List, [], ◌∷◌, Option, none, some, ltb, leb, eqb, all,
  ◌==◌, if◌then◌else◌,
}
use d_mobility.Agents.Params.{Value}
use d_mobility.Runtime.Sampling.{Numbers, Direction, number, absent, Fit, along_x, along_y}
use d_mobility.Runtime.Validation.{
  Channel, default_subchannels, Reals, ChannelData, electron, hole, build_validation_report,
}
use d_mobility.Runtime.Validation.Decided.{is_fail, is_unusable, build_validation_report-fail}

abbrev numbers : Numbers
numbers = record {
  N = ℕ;
  one = 1000;
  same = eqb;
  lt = ltb;
  le = leb;
  candidate_le = leb;
  midpoint = λ a b. a + (b - a) / 2;
}

abbrev literal : String → ℕ
literal text =
    if text == "1.0e7"
    then 10000000000
    else if text == "1.0e5"
    then 100000000
    else if text == "1.0"
    then 1000
    else if text == "0.50"
    then 500
    else if text == "0.20"
    then 200
    else if text == "0.05"
    then 50
    else 0

abbrev reals : Reals numbers
reals = record { float = literal; is_finite = λ v. true; abs = λ v. v; div = λ a b. a * 1000 / b }

abbrev fit : Fit numbers
fit = record {
  fit_r2_threshold = absent;
  mission_threshold = absent;
  fit_r2_min = number 950;
  effective_fit_quality = λ d. absent;
  edge_fit_r2 = λ d. absent;
}

-- The electrons along x are fine, the holes along x have a poor fit, and y has no data.
abbrev good : ChannelData ℕ
good = record {
  mobility = some 200000;
  raw_mobility = none;
  e1 = some 2500;
  e1_sigma = some 10;
  e1_fit_r2 = some 990;
  c2d = some 120000;
  c2d_sigma = some 100;
  c2d_fit_r2 = some 995;
  mass_warning = false;
}

abbrev data_of : Channel → ChannelData ℕ
data_of (along_x, electron) = good
data_of (along_x, hole) = record good { e1_fit_r2 = some 600 }
data_of (along_y, carrier) = record good { e1 = none }

abbrev planned : Direction → List (Option ℕ)
planned d = some 10 ∷ some 30 ∷ []

build_validation_report-fail_example :
    is_fail
      (build_validation_report numbers reals data_of fit 900 Value.null planned 9 0 2 []
        []).decision
    ≡ all (λ c. is_unusable numbers reals (data_of c)) default_subchannels
build_validation_report-fail_example =
    build_validation_report-fail numbers reals data_of fit 900 Value.null planned 9 0 2 [] []
