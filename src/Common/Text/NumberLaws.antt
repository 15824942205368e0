-- ===== src/Common/Text/NumberLaws.antt =====
-- The decimal text of a number reads back as the number.
use phlox_gw.Common.Tests.{ltb, Bool-cases}
use phlox_gw.Common.Text.{Text}
use phlox_gw.Common.Text.Numbers.{is_digit, digits_from, decimal_from, decimal}
use Prim.Native.Nat.{ℕ, zero, suc, ◌+◌, ◌-◌, ◌*◌, ◌/◌, ◌%◌, ◌<◌}
use mathlib.Core.Path.{◌≡◌, sym, ap, ◌∙◌}
use mathlib.Core.Bool.{true}
use mathlib.Core.Logic.{inl, inr}
use mathlib.Core.Option.{some}
use mathlib.Core.List.{[], ◌∷◌}
use native.Mathlib.Omega.{arith}

digits_from_digit :
    (a d : ℕ) (s : Text) → d < 10 → digits_from a ((48 + d) ∷ s) ≡ digits_from (a * 10 + d) s
unfolding digits_from
digits_from_digit a d s h =
    let digit : is_digit (48 + d) ≡ true = ground arith in
    let value : a * 10 + (48 + d - 48) ≡ a * 10 + d = omega arith in rw (digit, value)

some_eq : (a b : ℕ) → some a ≡ some b → a ≡ b
some_eq a b e = cc

digits_from-decimal_from :
    (fuel n : ℕ) (s : Text) → n < fuel → digits_from 0 (decimal_from fuel n s) ≡ digits_from n s
unfolding decimal_from
digits_from-decimal_from zero n s h = elim h [ ]
digits_from-decimal_from (suc fuel) n s h = elim (Bool-cases (ltb n 10)) [
  | inl small ↦
      rw small
        (digits_from_digit 0 (n % 10) s (omega arith) ∙ ap (λ k. digits_from k s) (ground arith))
  | inr large ↦ rw large (
      digits_from-decimal_from fuel (n / 10) ((48 + n % 10) ∷ s) (ground arith)
      ∙ digits_from_digit (n / 10) (n % 10) s (omega arith)
      ∙ ap (λ k. digits_from k s) (omega arith))
]

pub decimal-injective : (a b : ℕ) → decimal a ≡ decimal b → a ≡ b
unfolding decimal digits_from
decimal-injective a b e = some_eq a b (
    sym (digits_from-decimal_from (suc a) a [] (omega arith))
    ∙ ap (digits_from 0) e
    ∙ digits_from-decimal_from (suc b) b [] (omega arith))
