-- ===== src/Agents/Params.antt =====
-- mobility_agent/agents/orchestrator.py: the parameters of an action, and their canonical form.
-- The values that the code looks at are nothing, a text and a list of texts; the values of other
-- keys are kept as they are.
use d_mobility.Prelude.{
  String, Bool, true, false, not, ◌&&◌, ◌||◌, List, [], ◌∷◌, ◌==◌, contains, is_blank, strip,
  is_empty, filter_by, map, if◌then◌else◌,
}

pub data Value : Type 0 where
  null : Value
  text : String → Value
  items : List String → Value

-- A dictionary, in the order of insertion.
abbrev pub Params : Type 0
Params = List (String × Value)

-- `params.get(key)`: nothing where the key is missing.
unfoldable pub get : String → Params → Value
get key [] = null
get key ((k, v) ∷ rest) = if k == key then v else get key rest

unfoldable pub has_key : String → Params → Bool
has_key key [] = false
has_key key ((k, v) ∷ rest) = k == key || has_key key rest

-- `params[key] = value`
unfoldable pub put : String → Value → Params → Params
put key value [] = (key, value) ∷ []
put key value ((k, v) ∷ rest) = if k == key then (k, value) ∷ rest else (k, v) ∷ put key value rest

-- `params.pop(key, None)` for every key of the list
unfoldable pub pop_all : List String → Params → Params
pop_all keys [] = []
pop_all keys ((k, v) ∷ rest) =
    let others = pop_all keys rest in if contains k keys then others else (k, v) ∷ others

abbrev same_items : List String → List String → Bool
same_items [] [] = true
same_items (x ∷ xs) (y ∷ ys) = x == y && same_items xs ys
same_items _ _ = false

abbrev same_value : Value → Value → Bool
same_value null null = true
same_value (text a) (text b) = a == b
same_value (items a) (items b) = same_items a b
same_value _ _ = false

-- Every entry of the first dictionary is in the second.
unfoldable pub includes : Params → Params → Bool
includes [] q = true
includes ((k, v) ∷ rest) q = has_key k q && same_value v (get k q) && includes rest q

-- `p != q` of dictionaries, which do not mind the order
unfoldable pub differs : Params → Params → Bool
unfolding includes
differs p q = not (includes p q && includes q p)

abbrev pub is_null : Value → Bool
is_null null = true
is_null _ = false

-- The first value of the keys that is there and is not `None`.
unfoldable pub first_value : List String → Params → Value
first_value [] p = null
first_value (k ∷ ks) p = let rest = first_value ks p in if is_null (get k p) then rest else get k p

-- `value` in a test, and `a or b`
abbrev pub truthy : Value → Bool
truthy null = false
truthy (text t) = not (t == "")
truthy (items xs) = not (is_empty xs)

abbrev pub or_value : Value → Value → Value
or_value a b = if truthy a then a else b

-- `[single] if single else []`; a list under the keys of the single channel is not modelled.
abbrev pub single : Value → List String
single (text t) = if t == "" then [] else t ∷ []
single _ = []

-- The raw target channels: those given, those of an alias, or the single channel.
unfoldable pub raw_channels : List String → Params → List String
unfolding first_value get
raw_channels aliases p = elim (first_value ("target_channels" ∷ aliases) p) [
  | null ↦ single (or_value (get "channel" p) (get "target_channel" p))
  | text t ↦ t ∷ []
  | items xs ↦ xs
]

-- `[str(item).strip() for item in raw if str(item).strip()]`
unfoldable pub clean : List String → List String
clean xs = map strip (filter_by (λ x. not (is_blank x)) xs)

abbrev pub alias_keys : String → List String
alias_keys family =
    (if family == "invalidate_channel" then "channels_to_invalidate" else "channels_to_skip")
    ∷ "channels"
    ∷ "target_directions"
    ∷ "directions"
    ∷ []

abbrev pub popped_keys : List String
popped_keys =
    "channels_to_invalidate" ∷ "channels_to_skip" ∷ "channels" ∷ "target_directions" ∷ "directions"
    ∷ []

abbrev pub is_channel_family : String → Bool
is_channel_family family = family == "invalidate_channel" || family == "skip_channel"

abbrev pub with_targets : List String → Params → Params
with_targets [] p = p
with_targets (x ∷ xs) p = put "target_channels" (items (x ∷ xs)) p

-- `_canonicalize_action_parameters`: the parameters, and whether they changed.
unfoldable pub canonicalize_action_parameters : String → Params → Params × Bool
unfolding raw_channels clean pop_all put differs
canonicalize_action_parameters family p =
    if is_channel_family family
    then (let q =
          pop_all popped_keys (with_targets (clean (raw_channels (alias_keys family) p)) p) in
        (q, differs q p))
    else (p, differs p p)
