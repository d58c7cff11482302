-- ===== src/Runtime/Legality/Parameters.antt =====
-- mobility_agent/runtime/agent_tools.py: the check's own copy of the canonical parameters of an
-- action on channels.
use d_mobility.Prelude.{
  String, not, ◌||◌, List, [], ◌∷◌, ◌==◌, is_blank, is_empty, strip, if◌then◌else◌,
}
use d_mobility.Agents.Params.{Value, Params, get, put, truthy}

abbrev pub channel_aliases : String → List String
channel_aliases family =
    if family == "invalidate_channel"
    then "channels_to_invalidate" ∷ "channels" ∷ "target_directions" ∷ "directions" ∷ []
    else "channels_to_skip" ∷ "channels" ∷ "target_directions" ∷ "directions" ∷ []

-- The loop over the aliases, which stops at the first value that is not `None`.
unfoldable pub first_given : Value → List String → Params → Value
first_given Value.null [] p = Value.null
first_given Value.null (k ∷ ks) p = first_given (get k p) ks p
first_given (Value.text t) ks p = Value.text t
first_given (Value.items xs) ks p = Value.items xs

-- `params.get("channel") or params.get("target_channel")`; a list there is not modelled.
unfoldable pub one_channel : Params → List String
one_channel p =
    elim (if truthy (get "channel" p) then get "channel" p else get "target_channel" p) [
      | Value.null ↦ []
      | Value.text t ↦ if t == "" then [] else t ∷ []
      | Value.items xs ↦ []
    ]

unfoldable pub given_channels : Value → Params → List String
unfolding one_channel
given_channels Value.null p = one_channel p
given_channels (Value.text t) p = t ∷ []
given_channels (Value.items xs) p = xs

unfoldable pub stripped_items : List String → List String
stripped_items [] = []
stripped_items (x ∷ xs) =
    let rest = stripped_items xs in if is_blank x then rest else strip x ∷ rest

-- `_canonicalize_channel_action_parameters`
unfoldable pub canonicalize_channel_action_parameters : String → Params → Params
unfolding given_channels stripped_items
canonicalize_channel_action_parameters family p =
    let raw = first_given (get "target_channels" p) (channel_aliases family) p in
    let target_channels = stripped_items (given_channels raw p) in
    if not (family == "invalidate_channel" || family == "skip_channel")
    then p
    else if is_empty target_channels
    then p
    else put "target_channels" (Value.items target_channels) p
