-- ===== src/Base/Text.antt =====
-- Texts: the tests that the source makes on strings. `String.length` counts UTF-16 code units.
use Prim.Native.Nat.{ℕ, ◌+◌}
use Prim.Native.Char.{code}
use Prim.Native.String.{String}
use mathlib.Core.Path.{◌≡◌, refl}
use mathlib.Core.Logic.{◌↔◌}
use mathlib.Core.Bool.{Bool, true, false, ◌&&◌, ◌||◌}
use mathlib.Core.Option.{Option, none, some}
use mathlib.Core.List.{List, [], ◌∷◌, ◌++◌}
use text.Mathlib.Text.{◌==◌}
use text.Mathlib.TextEquality.{eq_iff}
use skillwire.Base.Tests.{ltb, leb, ◌==◌ as nat_eq, if◌then◌else◌}
use skillwire.Base.Lists.{all, length}

infix 50 ◌===◌
abbrev pub ◌===◌ : String → String → Bool
s === t = s == t

pub ===_iff : (s t : String) → (s === t ≡ true) ↔ (s ≡ t)
===_iff s t = eq_iff s t

pub ===_refl : (s : String) → s === s ≡ true
===_refl s = (eq_iff s s).1 refl

-- Equality of a text that may be absent with a given one.
abbrev pub is_text : Option String → String → Bool
is_text none t = false
is_text (some s) t = s === t

abbrev pub codes : String → List ℕ
codes String.[] = []
codes (String.◌∷◌ c s) = code c ∷ codes s

units : List ℕ → ℕ
units [] = 0
units (c ∷ cs) = (if ltb c 0x10000 then 1 else 2) + units cs

-- `s.length`
unfoldable pub utf16_length : String → ℕ
unfolding units
utf16_length s = units (codes s)

unfoldable pub is_lower_hex : ℕ → Bool
is_lower_hex c = (leb b'0' c && leb c b'9') || (leb b'a' c && leb c b'f')

-- `/^[0-9a-f]{64}$/`
unfoldable pub is_sha256 : String → Bool
unfolding is_lower_hex
is_sha256 s = nat_eq (length (codes s)) 64 && all is_lower_hex (codes s)

-- `xs.includes(x)` on strings
abbrev pub includes : List String → String → Bool
includes [] x = false
includes (y ∷ ys) x = y === x || includes ys x

-- Equality of texts as lists of code points.
abbrev pub same_codes : List ℕ → List ℕ → Bool
same_codes [] [] = true
same_codes (c ∷ cs) (d ∷ ds) = nat_eq c d && same_codes cs ds
same_codes _ _ = false

-- `text.split(separator)` on code points
abbrev pub split_from : List ℕ → ℕ → List ℕ → List (List ℕ)
split_from part separator [] = part ∷ []
split_from part separator (c ∷ cs) =
    if nat_eq c separator
    then part ∷ split_from [] separator cs
    else split_from (part ++ c ∷ []) separator cs

-- `/^[0-9a-f]{40}$/`
unfoldable pub is_git_sha : String → Bool
unfolding is_lower_hex
is_git_sha s = nat_eq (length (codes s)) 40 && all is_lower_hex (codes s)
