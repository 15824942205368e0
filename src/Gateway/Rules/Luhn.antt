-- ===== src/Gateway/Rules/Luhn.antt =====
-- The check of card numbers (luhnValid, guardrails.go of internal/httpapi) tells a number from any
-- that differs from it in one digit.
use phlox_gw.Common.{
  ◌≢◌, inl, inr, Bool-cases, ℕ, ◌+◌, ◌%◌, ◌≤◌, ◌≡◌, sym, ap, ◌∙◌, Bool, true, false, not, [], ◌∷◌,
  ◌++◌, append_assoc, reverse, arith,
}
use mathlib.Core.List.{reverse-append, reverse-cons}
use phlox_gw.Common.Text.{Text}
use phlox_gw.Gateway.Rules.{luhn_value, luhn_sum, luhn_valid}

abbrev pub IsDigit : ℕ → Type 0
IsDigit b = (48 ≤ b) × (b ≤ 57)

luhn_value-injective :
    (double : Bool) (a b n : ℕ)
    → IsDigit a
    → IsDigit b
    → (luhn_value double a + n) % 10 ≡ (luhn_value double b + n) % 10
    → a ≡ b
luhn_value-injective true a b n (la, ha) (lb, hb) e = ground arith
luhn_value-injective false a b n (la, ha) (lb, hb) e = ground arith

luhn_sum-injective :
    (double : Bool) (u v : Text) (a b : ℕ)
    → IsDigit a
    → IsDigit b
    → luhn_sum double (u ++ a ∷ v) % 10 ≡ luhn_sum double (u ++ b ∷ v) % 10
    → a ≡ b
unfolding luhn_sum
luhn_sum-injective double [] v a b da db e =
    luhn_value-injective double a b (luhn_sum (not double) v) da db e
luhn_sum-injective double (x ∷ u) v a b da db e =
    luhn_sum-injective (not double) u v a b da db (omega (arith, e))

reverse_around : (s t : Text) (b : ℕ) → reverse (s ++ b ∷ t) ≡ reverse t ++ b ∷ reverse s
reverse_around s t b =
    reverse-append s (b ∷ t)
    ∙ (ap (λ x. x ++ reverse s) (reverse-cons b t) ∙ append_assoc (reverse t) (b ∷ []) (reverse s))

luhn_valid_sum : (s : Text) → luhn_valid s ≡ true → luhn_sum false (reverse s) % 10 ≡ 0
unfolding luhn_valid
luhn_valid_sum s h = ground arith

both_valid :
    (s t : Text) (a b : ℕ)
    → IsDigit a
    → IsDigit b
    → luhn_valid (s ++ a ∷ t) ≡ true
    → luhn_valid (s ++ b ∷ t) ≡ true
    → a ≡ b
both_valid s t a b da db ha hb =
    let sum_a = rw (reverse_around s t a) at (luhn_valid_sum (s ++ a ∷ t) ha) in
    let sum_b = rw (reverse_around s t b) at (luhn_valid_sum (s ++ b ∷ t) hb) in
    luhn_sum-injective false (reverse t) (reverse s) a b da db (sum_a ∙ sym sum_b)

-- A valid number is not valid with one of its digits replaced by another one.
pub luhn_valid-digit :
    (s t : Text) (a b : ℕ)
    → IsDigit a
    → IsDigit b
    → a ≢ b
    → luhn_valid (s ++ a ∷ t) ≡ true
    → luhn_valid (s ++ b ∷ t) ≡ false
luhn_valid-digit s t a b da db n ha = elim (Bool-cases (luhn_valid (s ++ b ∷ t))) [
  | inl hb ↦ absurd (n (both_valid s t a b da db ha hb))
  | inr e ↦ e
]
