-- ===== src/Common/Text/Lower.antt =====
-- strings.ToLower, as far as a comparison with words of ASCII letters can see it: of the letters
-- outside ASCII, only the capital I with a dot and the Kelvin sign have a lower case in ASCII.
use phlox_gw.Common.Text.{Text}
use Prim.Native.Nat.{ℕ, ◌+◌}
use mathlib.Core.Bool.{◌&&◌}
use mathlib.Core.List.{[], ◌∷◌}
use phlox_gw.Common.Tests.{leb, ◌==◌, if◌then◌else◌}

abbrev pub lower_byte : ℕ → ℕ
lower_byte b = if leb 65 b && leb b 90 then b + 32 else b

unfoldable pub to_lower : Text → Text
to_lower [] = []
to_lower (b ∷ []) = lower_byte b ∷ []
to_lower (b ∷ c ∷ []) = if b == 196 && c == 176 then 105 ∷ [] else lower_byte b ∷ lower_byte c ∷ []
to_lower (b ∷ c ∷ d ∷ s) =
    let after_one = to_lower (c ∷ d ∷ s) in
    let after_two = to_lower (d ∷ s) in
    let after_three = to_lower s in
    if b == 196 && c == 176
    then 105 ∷ after_two
    else if b == 226 && (c == 132 && d == 170)
    then 107 ∷ after_three
    else lower_byte b ∷ after_one
