-- ===== src/Runtime/Actions.antt =====
-- The capabilities of mobility_agent/graph/state.py and mobility_agent/runtime/action_registry.py.
use d_mobility.Prelude.{String, List, [], ◌∷◌, ◌==◌, if◌then◌else◌}

abbrev pub capability_sequence : List String
capability_sequence =
    "prepare" ∷ "relax" ∷ "scf" ∷ "band" ∷ "effective_mass" ∷ "strain_loop" ∷ "mobility"
    ∷ "validation" ∷ []

-- `CAPABILITY_DEPENDENCIES.get(capability, [])`
unfoldable pub capability_dependencies : String → List String
capability_dependencies c =
    if c == "prepare"
    then []
    else if c == "relax"
    then "prepare" ∷ []
    else if c == "scf"
    then "relax" ∷ []
    else if c == "band"
    then "scf" ∷ []
    else if c == "effective_mass"
    then "band" ∷ []
    else if c == "strain_loop"
    then "effective_mass" ∷ []
    else if c == "mobility"
    then "strain_loop" ∷ []
    else if c == "validation"
    then "mobility" ∷ []
    else []
