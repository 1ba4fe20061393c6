-- ===== src/Base/Text.antt =====
-- JavaScript's text operations that the pages use.
use Prim.Native.Nat.{ℕ}
use Prim.Native.Char.{Char, code}
use Prim.Native.String.{String}
use mathlib.Core.Bool.{Bool, true, false, ◌&&◌, ◌||◌}
use mathlib.Core.Option.{Option, none, some}
use mathlib.Core.List.{List, [], ◌∷◌, reverse}
use text.Mathlib.Text.{◌==◌ as str_eq}
use travel_planner.Base.Tests.{◌==◌, leb, if◌then◌else◌}

-- The white space and line ends that `trim` drops.
abbrev pub is_space : ℕ → Bool
is_space c =
    (leb 9 c && leb c 13)
    || c == 32
    || c == 160
    || c == 0x1680
    || (leb 0x2000 c && leb c 0x200a)
    || c == 0x2028
    || c == 0x2029
    || c == 0x202f
    || c == 0x205f
    || c == 0x3000
    || c == 0xfeff

abbrev pub chars : String → List Char
chars String.[] = []
chars (String.◌∷◌ c s) = c ∷ chars s

abbrev pub of_chars : List Char → String
of_chars [] = String.[]
of_chars (c ∷ cs) = String.◌∷◌ c (of_chars cs)

abbrev pub skip_spaces : List Char → List Char
skip_spaces [] = []
skip_spaces (c ∷ cs) = let rest = skip_spaces cs in if is_space (code c) then rest else c ∷ cs

-- `s.trim()`
unfoldable pub trim : String → String
trim s = of_chars (reverse (skip_spaces (reverse (skip_spaces (chars s)))))

-- `s || null`: the empty text is falsy.
abbrev pub or_null : String → Option String
or_null s = if str_eq s "" then none else some s

-- A text held in an optional field, `o && o !== ""`.
abbrev pub truthy : Option String → Bool
truthy none = false
truthy (some s) = if str_eq s "" then false else true

-- The code points of a text.
abbrev pub codes : String → List ℕ
codes String.[] = []
codes (String.◌∷◌ c s) = code c ∷ codes s
