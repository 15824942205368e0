-- ===== src/Common/Text/Trim.antt =====
-- strings.TrimSpace over the bytes of a string. The white space of the package unicode, in UTF-8:
-- six ASCII characters, U+0085, U+00A0, and U+1680, U+2000 to U+200A, U+2028, U+2029, U+202F,
-- U+205F and U+3000.
use phlox_gw.Common.Tests.{leb, ◌==◌, if◌then◌else◌}
use phlox_gw.Common.Text.{Text}
use Prim.Native.Nat.{ℕ, zero, suc}
use mathlib.Core.Bool.{Bool, ◌&&◌, ◌||◌}
use mathlib.Core.List.{[], ◌∷◌}
unfoldable use mathlib.Core.List.{reverse}

unfoldable pub is_space1 : ℕ → Bool
is_space1 a = leb 9 a && leb a 13 || a == 32

unfoldable pub is_space2 : ℕ → ℕ → Bool
is_space2 a b = a == 0xc2 && (b == 0x85 || b == 0xa0)

unfoldable pub is_space3 : ℕ → ℕ → ℕ → Bool
is_space3 a b c =
    a == 0xe1 && b == 0x9a && c == 0x80
    || a == 0xe2
      && (b == 0x80 && (leb 0x80 c && leb c 0x8a || c == 0xa8 || c == 0xa9 || c == 0xaf)
          || b == 0x81 && c == 0x9f)
    || a == 0xe3 && b == 0x80 && c == 0x80

-- The number of bytes of the white space character that the bytes begin with, or zero.
unfoldable pub space_front : Text → ℕ
unfolding is_space1 is_space2 is_space3
space_front [] = 0
space_front (a ∷ []) = if is_space1 a then 1 else 0
space_front (a ∷ b ∷ []) = if is_space1 a then 1 else if is_space2 a b then 2 else 0
space_front (a ∷ b ∷ c ∷ s) =
    if is_space1 a then 1 else if is_space2 a b then 2 else if is_space3 a b c then 3 else 0

-- The same of bytes that are read backwards.
unfoldable pub space_back : Text → ℕ
unfolding is_space1 is_space2 is_space3
space_back [] = 0
space_back (a ∷ []) = if is_space1 a then 1 else 0
space_back (a ∷ b ∷ []) = if is_space1 a then 1 else if is_space2 b a then 2 else 0
space_back (a ∷ b ∷ c ∷ s) =
    if is_space1 a then 1 else if is_space2 b a then 2 else if is_space3 c b a then 3 else 0

-- `skip at k s` drops `k` bytes, and then white space as `at` finds it.
unfoldable pub skip : (Text → ℕ) → ℕ → Text → Text
skip at (suc k) [] = []
skip at (suc k) (b ∷ s) = skip at k s
skip at zero [] = []
skip at zero (b ∷ s) = elim (at (b ∷ s)) [ zero ↦ b ∷ s | suc k ↦ skip at k s ]

unfoldable pub trim_space : Text → Text
unfolding skip space_front space_back
trim_space s = reverse (skip space_back 0 (reverse (skip space_front 0 s)))
