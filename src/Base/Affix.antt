-- ===== src/Base/Affix.antt =====
-- What the program uses of Go's package strings: `HasPrefix`, `TrimPrefix`, `HasSuffix`, `TrimSuffix`.
use Prim.Native.Char.{Char, code}
use Prim.Native.String.{String, ◌++◌}
use mathlib.Core.Path.{◌≡◌, ap}
use mathlib.Core.Bool.{Bool, true, false}
use mathlib.Core.Option.{Option, none, some}
use native.Mathlib.Omega.{arith}
use text.Mathlib.TextLemmas.{nil-append, cons-append}
use legant.Base.Tests.{nat_beq, ◌==◌, string_eq, if◌then◌else◌}

-- What is left of the text behind the prefix.
unfoldable pub cut_prefix : String → String → Option String
cut_prefix String.[] s = some s
cut_prefix (String.◌∷◌ p ps) String.[] = none
cut_prefix (String.◌∷◌ p ps) (String.◌∷◌ c s) =
    let rest = cut_prefix ps s in if nat_beq (code p) (code c) then rest else none

abbrev cons_to : Char → Option String → Option String
cons_to c none = none
cons_to c (some s) = some (String.◌∷◌ c s)

-- What is left of the text before the suffix.
unfoldable pub cut_suffix : String → String → Option String
cut_suffix suffix String.[] = if suffix == "" then some "" else none
cut_suffix suffix (String.◌∷◌ c s) =
    let rest = cut_suffix suffix s in if String.◌∷◌ c s == suffix then some "" else cons_to c rest

abbrev pub found : Option String → Bool
found none = false
found (some s) = true

abbrev pub or_whole : Option String → String → String
or_whole none s = s
or_whole (some rest) s = rest

unfoldable pub has_prefix : String → String → Bool
unfolding cut_prefix
has_prefix s prefix = found (cut_prefix prefix s)

unfoldable pub trim_prefix : String → String → String
unfolding cut_prefix
trim_prefix s prefix = or_whole (cut_prefix prefix s) s

unfoldable pub has_suffix : String → String → Bool
unfolding cut_suffix
has_suffix s suffix = found (cut_suffix suffix s)

unfoldable pub trim_suffix : String → String → String
unfolding cut_suffix
trim_suffix s suffix = or_whole (cut_suffix suffix s) s

-- A text behind its own prefix is what the prefix is cut from.
pub cut_prefix-append : (p s : String) → cut_prefix p (p ++ s) ≡ some s
unfolding cut_prefix
cut_prefix-append String.[] s = ap some (nil-append s)
cut_prefix-append (String.◌∷◌ c p) s = rw cons-append (ground (arith, cut_prefix-append p s))
