-- ===== src/Prelude/Text.antt =====
-- Text as the program tests it: whole strings compared, and the character tests of `str.strip`,
-- `len` and the lower-case hexadecimal digits.
use Prim.Native.Nat.{ℕ}
use Prim.Native.Char.{code}
use Prim.Native.String.{String}
use mathlib.Core.Bool.{Bool, true, false, ◌&&◌, ◌||◌}
use mathlib.Core.List.{List, [], ◌∷◌}
use growth_clockwork.Prelude.Tests.{ltb, leb, ◌==◌, if◌then◌else◌}
use growth_clockwork.Prelude.Lists.{length, all}

-- The code points of a text. `String` has its own `[]` and `∷`.
abbrev pub codes : String → List ℕ
codes String.[] = []
codes (String.◌∷◌ c s) = code c ∷ codes s

-- `str.isspace` of one character.
unfoldable pub is_space : ℕ → Bool
is_space c =
    (leb 9 c && leb c 13)
    || (leb 28 c && leb c 32)
    || c == 133
    || c == 160
    || c == 5760
    || (leb 8192 c && leb c 8202)
    || c == 8232
    || c == 8233
    || c == 8239
    || c == 8287
    || c == 12288

-- `not value.strip()`
unfoldable pub is_blank : String → Bool
unfolding is_space
is_blank s = all is_space (codes s)

-- One of '0123456789abcdef'.
unfoldable pub is_hex_digit : ℕ → Bool
is_hex_digit c = (leb b'0' c && leb c b'9') || (leb b'a' c && leb c b'f')

-- `len(value) == 64` and every character a lower-case hexadecimal digit.
unfoldable pub is_sha256 : String → Bool
unfolding is_hex_digit
is_sha256 s = (length (codes s) == 64) && all is_hex_digit (codes s)

-- Python orders texts by their code points.
unfoldable pub text_leb : List ℕ → List ℕ → Bool
text_leb [] ds = true
text_leb (c ∷ cs) [] = false
text_leb (c ∷ cs) (d ∷ ds) =
    let rest = text_leb cs ds in if ltb c d then true else if c == d then rest else false
