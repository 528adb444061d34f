-- ===== src/Base/Text.antt =====
-- `String` and `Vec<u8>` as lists of numbers: code points and bytes.
use Prim.Native.Char.{code}
use Prim.Native.String.{String}
use Prim.Native.Nat.{ℕ}
use mathlib.Core.List.{List, [], ◌∷◌, map}
use rust_dfs.Base.Tests.{◌==◌, if◌then◌else◌}

abbrev pub Bytes : Type 0
Bytes = List ℕ

abbrev pub Text : Type 0
Text = List ℕ

-- The text of a string literal.
abbrev pub text : String → Text
text String.[] = []
text (String.◌∷◌ c s) = code c ∷ text s

-- `replace` of a one-character pattern by a one-character text.
unfoldable pub replace : ℕ → ℕ → Text → Text
replace old new = map (λ c. if c == old then new else c)
