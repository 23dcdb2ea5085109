-- ===== src/Prelude/Text.antt =====
-- Texts. Keys, names and tags are native strings, compared whole; a function that walks a text
-- goes over its code points.
use Prim.Native.Nat.{ℕ}
use Prim.Native.Char.{code}
use Prim.Native.String.{String}
use mathlib.Core.Bool.{Bool}
use mathlib.Core.List.{List, [], ◌∷◌}
use text.Mathlib.Text

-- `==` of two strings.
abbrev pub str_eq : String → String → Bool
str_eq s t = Text.◌==◌ s t

abbrev pub codes : String → List ℕ
codes String.[] = []
codes (String.◌∷◌ c s) = code c ∷ codes s

-- The test `s == ""`.
abbrev pub is_blank : String → Bool
is_blank s = str_eq s ""

-- `s + t`
abbrev pub append : String → String → String
append String.[] t = t
append (String.◌∷◌ c s) t = String.◌∷◌ c (append s t)
