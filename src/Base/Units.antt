-- ===== src/Base/Units.antt =====
-- Text that is walked or cut by position: a list of UTF-16 code units, as the source's strings are.
use Prim.Native.Nat.{ℕ, ◌-◌}
use Prim.Native.Char.{Char, code}
use Prim.Native.String.{String}
use mathlib.Core.Bool.{Bool}
use mathlib.Core.List.{List, [], ◌∷◌}
use quagenticus.Base.Tests.{◌==◌, nat_eq}
use quagenticus.Base.Lists.{take, drop}

abbrev pub Text : Type 0
Text = List ℕ

-- A literal of the source, all of whose characters lie in the basic plane.
abbrev pub codes : String → Text
codes String.[] = []
codes (String.◌∷◌ c s) = code c ∷ codes s

-- `s.slice(a, b)` for 0 ≤ a ≤ b
abbrev pub slice : Text → ℕ → ℕ → Text
slice s a b = take (b - a) (drop a s)

abbrev pub newline : ℕ
newline = 10

abbrev pub same_char : Char → Char → Bool
same_char c d = code c == code d
