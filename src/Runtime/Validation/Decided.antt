-- ===== src/Runtime/Validation/Decided.antt =====
-- What the decision of a validation report says of the reviews.
use d_mobility.Prelude.{
  ℕ, String, ◌≡◌, refl, ◌∙◌, Bool, true, false, not, ◌&&◌, ◌||◌, List, [], ◌∷◌, map, Option,
  is_empty, all, filter_by, dedupe_keep_order, if◌then◌else◌, Bool-cases, inl, inr, arith,
}
use d_mobility.Agents.Params.{Value}
use d_mobility.Runtime.Sampling.{Numbers, Direction, Fit, same_direction}
use d_mobility.Runtime.Validation.{
  Channel, same_channel, default_subchannels, Reals, ChannelData, Review, is_rejected, is_refine,
  channel_review, metrics_present, catastrophic_mobility, retained_of, rejected_of,
  refinement_directions_of, resolve_unrefined, Decision, pass, fail, decide, report_on,
  applies_points, build_validation_report,
}

is_empty-dedupe {ℓ} :
    {A : Type ℓ} (same : A → A → Bool) (xs : List A)
    → is_empty (dedupe_keep_order same xs) ≡ is_empty xs
is_empty-dedupe same [] = refl
is_empty-dedupe same (x ∷ xs) = refl

is_empty-filter {ℓ κ} :
    {A : Type ℓ} {B : Type κ} (p : A → Bool) (f : A → B) (xs : List A)
    → is_empty (map f (filter_by p xs)) ≡ all (λ x. not (p x)) xs
is_empty-filter p f [] = refl
is_empty-filter p f (x ∷ xs) = ground (arith, is_empty-filter p f xs)

-- The channels that are rejected, and those that are candidates for a refinement.
abbrev pub all_rejected : List Review → Bool
all_rejected reviews = all (λ (r : Review). is_rejected r.status) reviews

abbrev pub none_refine : List Review → Bool
none_refine reviews = all (λ (r : Review). not (is_refine r.status)) reviews

abbrev pub none_rejected : List Review → Bool
none_rejected reviews = all (λ (r : Review). not (is_rejected r.status)) reviews

all-not-not {ℓ} :
    {A : Type ℓ} (p : A → Bool) (xs : List A) → all (λ x. not (not (p x))) xs ≡ all p xs
all-not-not p [] = refl
all-not-not p (x ∷ xs) = ground (arith, all-not-not p xs)

is_empty-retained : (rs : List Review) → is_empty (retained_of rs) ≡ all_rejected rs
unfolding retained_of
is_empty-retained rs =
    is_empty-dedupe same_channel _
    ∙ is_empty-filter _ _ rs
    ∙ all-not-not (λ (r : Review). is_rejected r.status) rs

is_empty-rejected : (rs : List Review) → is_empty (rejected_of rs) ≡ none_rejected rs
unfolding rejected_of
is_empty-rejected rs = is_empty-dedupe same_channel _ ∙ is_empty-filter _ _ rs

is_empty-targets : (rs : List Review) → is_empty (refinement_directions_of rs) ≡ none_refine rs
unfolding refinement_directions_of
is_empty-targets rs = is_empty-dedupe same_direction _ ∙ is_empty-filter _ _ rs

all_rejected-resolve :
    (reason : String) (rs : List Review)
    → all_rejected (map (resolve_unrefined reason) rs) ≡ all_rejected rs
unfolding resolve_unrefined
all_rejected-resolve reason [] = refl
all_rejected-resolve reason (r ∷ rs) = ground (arith, all_rejected-resolve reason rs)

-- What is rejected is not a candidate.
rejected_not_refine : (rs : List Review) → all_rejected rs ≡ true → none_refine rs ≡ true
rejected_not_refine [] h = refl
rejected_not_refine (r ∷ rs) h = ground (arith, rejected_not_refine rs, h)

none_rejected-resolve :
    (reason : String) (rs : List Review)
    → none_rejected (map (resolve_unrefined reason) rs) ≡ none_rejected rs
unfolding resolve_unrefined
none_rejected-resolve reason [] = refl
none_rejected-resolve reason (r ∷ rs) = ground (arith, none_rejected-resolve reason rs)

abbrev pub is_fail : Decision → Bool
is_fail fail = true
is_fail _ = false

abbrev pub is_pass : Decision → Bool
is_pass pass = true
is_pass _ = false

-- The reviews that a report is decided on.
abbrev final_reviews : String → Bool → List Review → List Review
final_reviews reason unresolved rs = if unresolved then map (resolve_unrefined reason) rs else rs

all_rejected-final :
    (reason : String) (unresolved : Bool) (rs : List Review)
    → is_empty (retained_of (final_reviews reason unresolved rs)) ≡ all_rejected rs
all_rejected-final reason true rs = is_empty-retained _ ∙ all_rejected-resolve reason rs
all_rejected-final reason false rs = is_empty-retained rs

none_rejected-final :
    (reason : String) (unresolved : Bool) (rs : List Review)
    → is_empty (rejected_of (final_reviews reason unresolved rs)) ≡ none_rejected rs
none_rejected-final reason true rs = is_empty-rejected _ ∙ none_rejected-resolve reason rs
none_rejected-final reason false rs = is_empty-rejected rs

decide-fail :
    (has_retained has_applied refines has_rejected has_flags has_warnings : Bool)
    → is_fail (decide has_retained has_applied refines has_rejected has_flags has_warnings)
      ≡ (not has_retained && not has_applied)
unfolding decide
decide-fail has_retained has_applied refines has_rejected has_flags has_warnings = ground arith

report_on-fail :
    (reason : String) (flags warnings : List String) (has_applied : Bool) (rs : List Review)
    → (none_refine rs ≡ true → has_applied ≡ false)
    → is_fail (report_on reason flags warnings has_applied rs).decision ≡ all_rejected rs
unfolding report_on
report_on-fail reason flags warnings has_applied rs h =
    let unresolved = not (is_empty (refinement_directions_of rs)) && not has_applied in
    let kept = all_rejected-final reason unresolved rs in
    decide-fail _ _ _ _ _ _ ∙ (elim (Bool-cases (all_rejected rs)) [
      | inl e ↦ rw (kept, e, h (rejected_not_refine rs e)) refl
      | inr e ↦ rw (kept, e) refl
    ])

all-map_review :
    {A : Type 0} (p : Review → Bool) (q : A → Bool) (f : A → Review) (xs : List A)
    → ((x : A) → p (f x) ≡ q x)
    → all p (map f xs) ≡ all q xs
all-map_review p q f [] h = refl
all-map_review p q f (x ∷ xs) h = ground (arith, h x, all-map_review p q f xs h)

module _ (numbers : Numbers) (reals : Reals numbers) where
  open numbers use {N}

  -- The channel cannot be used: a metric is missing or not finite, or the mobility is extreme.
  abbrev pub is_unusable : ChannelData N → Bool
  is_unusable d = not (metrics_present numbers reals d) || catastrophic_mobility numbers reals d

  channel_review-rejected :
      (fit_threshold : N) (data_of : Channel → ChannelData N) (c : Channel)
      → is_rejected (channel_review numbers reals fit_threshold data_of c).status
        ≡ is_unusable (data_of c)
  unfolding channel_review
  channel_review-rejected fit_threshold data_of c = ground arith

  applies_points-none :
      (fit : Fit numbers) (fit_threshold : N) (accepted_channels : Value)
      (planned : Direction → List (Option N)) (max_points : ℕ) (rs : List Review)
      → none_refine rs ≡ true
      → applies_points numbers reals fit fit_threshold accepted_channels planned max_points
          (refinement_directions_of rs)
        ≡ false
  unfolding applies_points
  applies_points-none fit fit_threshold accepted_channels planned max_points rs h =
      rw (is_empty-targets rs, h) refl

  -- The decision of a validation report is fail exactly where each of the four channels is
  -- unusable: a metric is missing or not finite, or the mobility is extreme.
  pub build_validation_report-fail :
      (data_of : Channel → ChannelData N) (fit : Fit numbers) (fit_threshold : N)
      (accepted_channels : Value) (planned : Direction → List (Option N))
      (max_points refinement_rounds max_rounds : ℕ) (flags warnings : List String)
      → is_fail
          (build_validation_report numbers reals data_of fit fit_threshold accepted_channels planned
            max_points refinement_rounds max_rounds flags warnings).decision
        ≡ all (λ c. is_unusable (data_of c)) default_subchannels
  unfolding build_validation_report
  build_validation_report-fail data_of fit fit_threshold accepted_channels planned max_points
        refinement_rounds max_rounds flags warnings =
      let review = channel_review numbers reals fit_threshold data_of in
      let reviews = map review default_subchannels in
      report_on-fail _ flags warnings
        (applies_points numbers reals fit fit_threshold accepted_channels planned max_points
          (refinement_directions_of reviews))
        reviews (applies_points-none fit fit_threshold accepted_channels planned max_points reviews)
      ∙ all-map_review (λ (r : Review). is_rejected r.status) (λ c. is_unusable (data_of c)) review
          default_subchannels (channel_review-rejected fit_threshold data_of)
