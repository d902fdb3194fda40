-- ===== src/Prelude/Text.antt =====
-- Texts by their characters: what the program uses of `regexp`, `strings` and `len`.
use Prim.Native.Nat.{ℕ, zero, suc, ◌+◌}
use Prim.Native.Char.{code}
use Prim.Native.String.{String}
pub use Prim.Native.String.{◌++◌ as concat}
use mathlib.Core.Bool.{Bool, true, false, ◌&&◌, ◌||◌}
use mathlib.Core.List.{List, [], ◌∷◌, reverse}
use vpn_platform.Prelude.Tests.{ltb, leb, eqb, if◌then◌else◌}

-- The code points of a text. `String` has its own `[]` and `∷`.
abbrev pub codes : String → List ℕ
codes String.[] = []
codes (String.◌∷◌ c s) = code c ∷ codes s

unfoldable pub in_range : ℕ → ℕ → ℕ → Bool
in_range lo hi c = leb lo c && leb c hi

unfoldable pub is_digit : ℕ → Bool
unfolding in_range
is_digit = in_range b'0' b'9'

unfoldable pub is_upper : ℕ → Bool
unfolding in_range
is_upper = in_range b'A' b'Z'

unfoldable pub is_lower : ℕ → Bool
unfolding in_range
is_lower = in_range b'a' b'z'

-- `[0-9a-fA-F]`.
unfoldable pub is_hex : ℕ → Bool
unfolding in_range
is_hex c = in_range b'0' b'9' c || in_range b'a' b'f' c || in_range b'A' b'F' c

-- `[0-9a-f]`.
unfoldable pub is_lower_hex : ℕ → Bool
unfolding in_range
is_lower_hex c = in_range b'0' b'9' c || in_range b'a' b'f' c

unfoldable pub all_chars : (ℕ → Bool) → List ℕ → Bool
all_chars p [] = true
all_chars p (c ∷ cs) = p c && all_chars p cs

-- A regular expression of one class for each character, anchored at both ends.
unfoldable pub match_classes : List (ℕ → Bool) → List ℕ → Bool
match_classes [] [] = true
match_classes [] (c ∷ cs) = false
match_classes (p ∷ ps) [] = false
match_classes (p ∷ ps) (c ∷ cs) = p c && match_classes ps cs

-- `class{n}` before the rest of the expression.
unfoldable pub times : ℕ → (ℕ → Bool) → List (ℕ → Bool) → List (ℕ → Bool)
times zero p ps = ps
times (suc n) p ps = p ∷ times n p ps

-- `unicode.IsSpace`.
unfoldable pub is_space : ℕ → Bool
unfolding in_range
is_space c =
    in_range 9 13 c
    || eqb c 32
    || eqb c 0x85
    || eqb c 0xA0
    || eqb c 0x1680
    || in_range 0x2000 0x200A c
    || eqb c 0x2028
    || eqb c 0x2029
    || eqb c 0x202F
    || eqb c 0x205F
    || eqb c 0x3000

unfoldable pub trim_left : List ℕ → List ℕ
trim_left [] = []
trim_left (c ∷ cs) = if is_space c then trim_left cs else c ∷ cs

-- `strings.TrimSpace`.
unfoldable pub trim_space : List ℕ → List ℕ
unfolding trim_left is_space
trim_space cs = reverse (trim_left (reverse (trim_left cs)))

unfoldable pub eq_codes : List ℕ → List ℕ → Bool
eq_codes [] [] = true
eq_codes (a ∷ as') (b ∷ bs) = eqb a b && eq_codes as' bs
eq_codes _ _ = false

-- Lexicographic order of code points, which for lower-case UUIDs is their order in SQL.
unfoldable pub ltb_codes : List ℕ → List ℕ → Bool
ltb_codes [] [] = false
ltb_codes [] (b ∷ bs) = true
ltb_codes (a ∷ as') [] = false
ltb_codes (a ∷ as') (b ∷ bs) = ltb a b || (eqb a b && ltb_codes as' bs)

abbrev utf8_len : ℕ → ℕ
utf8_len c = if ltb c 0x80 then 1 else if ltb c 0x800 then 2 else if ltb c 0x10000 then 3 else 4

-- Go's `len` of a text: its bytes in UTF-8.
unfoldable pub byte_len : List ℕ → ℕ
byte_len [] = 0
byte_len (c ∷ cs) = utf8_len c + byte_len cs
