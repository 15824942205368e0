-- ===== src/Common/Text/Numbers.antt =====
-- strconv.Atoi, and the decimal text of a number.
use phlox_gw.Common.Tests.{leb, ltb, ◌==◌, if◌then◌else◌}
use phlox_gw.Common.Int.{ℤ, pos, negsuc}
use phlox_gw.Common.Text.{Text}
use Prim.Native.Nat.{ℕ, zero, suc, ◌+◌, ◌-◌, ◌*◌, ◌/◌, ◌%◌, ◌^◌}
use mathlib.Core.Bool.{Bool, ◌&&◌}
use mathlib.Core.Option.{Option, none, some}
use mathlib.Core.List.{[], ◌∷◌}

abbrev pub is_digit : ℕ → Bool
is_digit b = leb 48 b && leb b 57

-- The number that digits stand for, after those that `acc` stands for.
unfoldable pub digits_from : ℕ → Text → Option ℕ
digits_from acc [] = some acc
digits_from acc (b ∷ s) =
    let rest = digits_from (acc * 10 + (b - 48)) s in if is_digit b then rest else none

unfoldable pub digits : Text → Option ℕ
unfolding digits_from
digits [] = none
digits (b ∷ s) = digits_from 0 (b ∷ s)

-- A value out of the range of an int64 is an error.
abbrev pub positive : Option ℕ → Option ℤ
positive none = none
positive (some n) = if ltb n (2 ^ 63) then some (pos n) else none

abbrev pub negate : ℕ → ℤ
negate zero = pos 0
negate (suc n) = negsuc n

abbrev pub negative : Option ℕ → Option ℤ
negative none = none
negative (some n) = if leb n (2 ^ 63) then some (negate n) else none

unfoldable pub atoi : Text → Option ℤ
unfolding digits
atoi [] = none
atoi (b ∷ s) =
    if b == 45
    then negative (digits s)
    else if b == 43
    then positive (digits s)
    else positive (digits (b ∷ s))

-- The decimal digits of a number, with fuel for one digit more than it has.
unfoldable pub decimal_from : ℕ → ℕ → Text → Text
decimal_from zero n acc = acc
decimal_from (suc fuel) n acc =
    let acc' = (48 + n % 10) ∷ acc in
    let rest = decimal_from fuel (n / 10) acc' in if ltb n 10 then acc' else rest

-- fmt.Sprintf("%d", n)
unfoldable pub decimal : ℕ → Text
unfolding decimal_from
decimal n = decimal_from (suc n) n []
