-- ===== src/Runtime/Legality/Channels.antt =====
-- The canonical parameters of the check and those of the orchestrator name the same channels.
use d_mobility.Prelude.{
  String, ◌≡◌, refl, sym, subst, Bool, true, not, map, filter_by, ap, ◌∙◌, if◌then◌else◌, is_blank,
  is_empty, strip, false, List, [], ◌∷◌, ◌==◌, contains, Bool-cases, inl, inr, eq_iff,
}
use d_mobility.Agents.Params.{
  Value, Params, get, put, first_value, is_null, single, or_value, pop_all, popped_keys,
  raw_channels, clean, alias_keys, is_channel_family, with_targets, canonicalize_action_parameters,
}
use d_mobility.Runtime.Legality.{
  channel_aliases, first_given, one_channel, given_channels, stripped_items,
  canonicalize_channel_action_parameters,
}

same_aliases : (family : String) → channel_aliases family ≡ alias_keys family
same_aliases family = elim (Bool-cases (family == "invalidate_channel")) [
  | inl e ↦ rw e refl
  | inr e ↦ rw e refl
]

get-pop_all :
    (key : String) (keys : List String) (p : Params)
    → contains key keys ≡ false
    → get key (pop_all keys p) ≡ get key p
unfolding get pop_all
get-pop_all key keys [] h = refl
get-pop_all key keys ((k, v) ∷ rest) h = elim (Bool-cases (k == key)) [
  | inl e ↦
      let gone = subst (λ (x : String). contains x keys ≡ false) (sym ((eq_iff k key).0 e)) h in
      rw gone (rw e refl)
  | inr e ↦ elim (Bool-cases (contains k keys)) [
    | inl g ↦ rw (g, e) (get-pop_all key keys rest h)
    | inr g ↦ rw g (rw e (get-pop_all key keys rest h))
  ]
]

first_given-first_value :
    (v : Value) (ks : List String) (p : Params)
    → first_given v ks p ≡ (if is_null v then first_value ks p else v)
unfolding first_given first_value
first_given-first_value Value.null [] p = refl
first_given-first_value Value.null (k ∷ ks) p = first_given-first_value (get k p) ks p
first_given-first_value (Value.text t) ks p = refl
first_given-first_value (Value.items xs) ks p = refl

one_channel-single :
    (p : Params) → one_channel p ≡ single (or_value (get "channel" p) (get "target_channel" p))
unfolding one_channel
one_channel-single p = go (or_value (get "channel" p) (get "target_channel" p))
  where
    go :
        (v : Value)
        → (elim v [
          | Value.null ↦ []
          | Value.text t ↦ if t == "" then [] else t ∷ []
          | Value.items xs ↦ []
        ])
          ≡ single v
    go Value.null = refl
    go (Value.text t) = refl
    go (Value.items xs) = refl

-- The two copies find the same channels.
given_channels-raw_channels :
    (family : String) (p : Params)
    → given_channels (first_given (get "target_channels" p) (channel_aliases family) p) p
      ≡ raw_channels (alias_keys family) p
unfolding given_channels raw_channels first_value
given_channels-raw_channels family p =
    ap (λ (v : Value). given_channels v p)
      (first_given-first_value (get "target_channels" p) (channel_aliases family) p
        ∙ ap
            (λ (ks : List String).
              if is_null (get "target_channels" p)
              then first_value ks p
              else get "target_channels" p)
            (same_aliases family))
    ∙ go (first_value ("target_channels" ∷ alias_keys family) p)
  where
    go :
        (v : Value)
        → given_channels v p ≡ (elim v [
          | Value.null ↦ single (or_value (get "channel" p) (get "target_channel" p))
          | Value.text t ↦ t ∷ []
          | Value.items xs ↦ xs
        ])
    go Value.null = one_channel-single p
    go (Value.text t) = refl
    go (Value.items xs) = refl

stripped_items-clean : (xs : List String) → stripped_items xs ≡ clean xs
unfolding stripped_items clean
stripped_items-clean [] = refl
stripped_items-clean (x ∷ xs) = go (is_blank x) (stripped_items-clean xs)
  where
    go :
        (b : Bool)
        → stripped_items xs ≡ clean xs
        → (if b then stripped_items xs else strip x ∷ stripped_items xs)
          ≡ map strip (elim (not b) [
            | true ↦ x ∷ filter_by (λ y. not (is_blank y)) xs
            | false ↦ filter_by (λ y. not (is_blank y)) xs
          ])
    go true h = h
    go false h = ap (λ (ys : List String). strip x ∷ ys) h

put_if_any :
    (xs : List String) (p : Params)
    → (if is_empty xs then p else put "target_channels" (Value.items xs) p) ≡ with_targets xs p
put_if_any [] p = refl
put_if_any (x ∷ xs) p = refl

-- The canonical parameters of the check and those of the orchestrator hold the same target
-- channels, for every family and all parameters.
pub same_target_channels :
    (family : String) (p : Params)
    → get "target_channels" (canonicalize_channel_action_parameters family p)
      ≡ get "target_channels" (canonicalize_action_parameters family p).0
unfolding canonicalize_channel_action_parameters canonicalize_action_parameters
same_target_channels family p =
    let xs = given_channels (first_given (get "target_channels" p) (channel_aliases family) p) p in
    let ys = clean (raw_channels (alias_keys family) p) in
    let same : stripped_items xs ≡ ys =
      stripped_items-clean xs ∙ ap clean (given_channels-raw_channels family p) in
    elim (Bool-cases (is_channel_family family)) [
      | inl e ↦ rw e (
          ap (λ (q : Params). get "target_channels" q)
            (put_if_any (stripped_items xs) p ∙ ap (λ (zs : List String). with_targets zs p) same)
          ∙ sym (get-pop_all "target_channels" popped_keys (with_targets ys p) refl))
      | inr e ↦ rw e refl
    ]
