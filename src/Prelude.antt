-- ===== src/Prelude.antt =====
-- The names that the other modules share: those of the libraries, passed on, and list helpers.
mod Lists
pub mod Sorting
pub use Lists.*
use Prim.Native.Char.{code}
use Prim.Native.Nat.{compare, Ordering}
pub use Prim.Native.Nat.{ℕ, zero, suc, ◌+◌, ◌-◌, ◌≤◌, ◌<◌}
pub use Prim.Native.String.{String}
pub use mathlib.Core.Path.{◌≡◌, refl, sym, ap, subst, ◌∙◌}
pub use mathlib.Core.Logic.{◌≢◌, ◌⊎◌, inl, inr, ◌↔◌}
pub use mathlib.Core.Bool.{Bool, true, false, not, ◌&&◌, ◌||◌}
pub use mathlib.Core.Option.{Option, none, some}
pub use mathlib.Core.List.{List, [], ◌∷◌, ◌++◌, map}
pub use native.Mathlib.Omega.{arith}
pub use text.Mathlib.Text.{◌==◌}
pub use text.Mathlib.TextEquality.{eq_iff}
pub use text.Mathlib.TextPositions.{eq_refl}

abbrev pub ltb : ℕ → ℕ → Bool
ltb a b = elim (compare a b) [ Ordering.lt ↦ true | _ ↦ false ]

abbrev pub leb : ℕ → ℕ → Bool
leb a b = elim (compare a b) [ Ordering.gt ↦ false | _ ↦ true ]

abbrev pub eqb : ℕ → ℕ → Bool
eqb a b = elim (compare a b) [ Ordering.eq ↦ true | _ ↦ false ]

infix 1 if◌then◌else◌
abbrev pub if◌then◌else◌ {ℓ} : {A : Type ℓ} → Bool → A → A → A
if true then x else y = x
if false then x else y = y

-- `x or y` of Python where `x` is `None` or a text.
abbrev pub or_text : Option String → String → String
or_text none y = y
or_text (some x) y = if x == "" then y else x

-- The code points that `str.strip` removes.
is_space : ℕ → Bool
is_space c =
    (leb 9 c && leb c 13)
    || (leb 28 c && leb c 32)
    || eqb c 133
    || eqb c 160
    || eqb c 5760
    || (leb 8192 c && leb c 8202)
    || eqb c 8232
    || eqb c 8233
    || eqb c 8239
    || eqb c 8287
    || eqb c 12288

-- `not text.strip()`
unfoldable pub is_blank : String → Bool
unfolding is_space
is_blank String.[] = true
is_blank (String.◌∷◌ c s) = is_space (code c) && is_blank s

-- `str.lstrip` and `str.rstrip`
lstrip : String → String
lstrip String.[] = String.[]
lstrip (String.◌∷◌ c s) =
    let rest = lstrip s in elim (is_space (code c)) [ true ↦ rest | false ↦ String.◌∷◌ c s ]

put_unless_space : ℕ → String → String → String
put_unless_space c kept String.[] = if is_space c then String.[] else kept
put_unless_space c kept (String.◌∷◌ d s) = kept

rstrip : String → String
unfolding put_unless_space
rstrip String.[] = String.[]
rstrip (String.◌∷◌ c s) = let rest = rstrip s in put_unless_space (code c) (String.◌∷◌ c rest) rest

-- `text.strip()`
unfoldable pub strip : String → String
unfolding lstrip rstrip is_space
strip text = rstrip (lstrip text)
