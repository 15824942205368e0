-- ===== src/Common/Lists.antt =====
-- Lists measured by native numbers, and the predicates and searches that the components share.
use Prim.Native.Nat.{ℕ, suc, ◌+◌, ◌≤◌}
use mathlib.Core.Path.{◌≡◌, ap, sym, ◌∙◌, subst}
use mathlib.Core.Logic.{inl, inr}
use mathlib.Core.Bool.{Bool, true, false, ◌||◌}
use mathlib.Core.Option.{Option, none, some}
use mathlib.Core.List.{List, [], ◌∷◌, ◌++◌, reverse, reverse-cons, Memᴰ}
use native.Mathlib.Omega.{arith}
use phlox_gw.Common.Tests.{if◌then◌else◌, Bool-cases}

module _ {ℓ} {A : Type ℓ} where
  abbrev pub length : List A → ℕ
  length [] = 0
  length (x ∷ xs) = suc (length xs)

  pub length-append : (xs ys : List A) → length (xs ++ ys) ≡ length xs + length ys
  length-append [] ys = omega arith
  length-append (x ∷ xs) ys = omega (arith, length-append xs ys)

  abbrev pub any : (A → Bool) → List A → Bool
  any p [] = false
  any p (x ∷ xs) = p x || any p xs

  -- The rows of a query: those that its condition holds of.
  abbrev pub select : (A → Bool) → List A → List A
  select p [] = []
  select p (x ∷ xs) = let rest = select p xs in if p x then x ∷ rest else rest

  abbrev pub find : (A → Bool) → List A → Option A
  find p [] = none
  find p (x ∷ xs) = if p x then some x else find p xs

  pub length-select : (p : A → Bool) (xs : List A) → length (select p xs) ≤ length xs
  length-select p [] = omega arith
  length-select p (x ∷ xs) = ground (arith, length-select p xs)

module _ {ℓ κ} {A : Type ℓ} (P : A → Type κ) where
  abbrev pub All : List A → Type κ
  All [] = Unit
  All (x ∷ xs) = P x × All xs

  pub All-append : (xs ys : List A) → All xs → All ys → All (xs ++ ys)
  All-append [] ys h k = k
  All-append (x ∷ xs) ys (p, h) k = (p, All-append xs ys h k)

  pub All-append_left : (xs ys : List A) → All (xs ++ ys) → All xs
  All-append_left [] ys h = tt
  All-append_left (x ∷ xs) ys (p, h) = (p, All-append_left xs ys h)

  pub All-append_right : (xs ys : List A) → All (xs ++ ys) → All ys
  All-append_right [] ys h = h
  All-append_right (x ∷ xs) ys (p, h) = All-append_right xs ys h

  pub All-reverse : (xs : List A) → All xs → All (reverse xs)
  All-reverse [] h = tt
  All-reverse (x ∷ xs) (p, h) =
      rw reverse-cons (All-append (reverse xs) (x ∷ []) (All-reverse xs h) (p, tt))

module _ {ℓ} {A : Type ℓ} where
  -- What a query returns satisfies its condition and stood among the rows.
  pub All-select {κ} :
      (P : A → Type κ) (p : A → Bool) (xs : List A)
      → All P xs
      → All (λ x. P x × (p x ≡ true)) (select p xs)
  All-select P p [] h = tt
  All-select P p (x ∷ xs) (k, h) = elim (Bool-cases (p x)) [
    | inl e ↦ rw e ((k, e), All-select P p xs h)
    | inr e ↦ rw e (All-select P p xs h)
  ]

  pub All-map {κ μ} :
      (P : A → Type κ) (Q : A → Type μ)
      → ((x : A) → P x → Q x)
      → (xs : List A) → All P xs
      → All Q xs
  All-map P Q f [] h = tt
  All-map P Q f (x ∷ xs) (k, h) = (f x k, All-map P Q f xs h)

  pub All-of_mem {κ} : (P : A → Type κ) {x : A} {xs : List A} → Memᴰ x xs → All P xs → P x
  All-of_mem P (Memᴰ.head e) (k, h) = subst P (sym e) k
  All-of_mem P (Memᴰ.tail m) (k, h) = All-of_mem P m h

  pub mem-select :
      (p : A → Bool) {x : A} {xs : List A} → Memᴰ x xs → p x ≡ true → Memᴰ x (select p xs)
  mem-select p (Memᴰ.head {x = y} e) t = rw (ap p (sym e) ∙ t) (Memᴰ.head e)
  mem-select p (Memᴰ.tail {x = y} m) t = elim (Bool-cases (p y)) [
    | inl q ↦ rw q (Memᴰ.tail (mem-select p m t))
    | inr q ↦ rw q (mem-select p m t)
  ]

  pub mem-append_left : (ys : List A) {x : A} {xs : List A} → Memᴰ x xs → Memᴰ x (xs ++ ys)
  mem-append_left ys (Memᴰ.head e) = Memᴰ.head e
  mem-append_left ys (Memᴰ.tail m) = Memᴰ.tail (mem-append_left ys m)

  pub mem-append_right : (xs : List A) {x : A} {ys : List A} → Memᴰ x ys → Memᴰ x (xs ++ ys)
  mem-append_right [] m = m
  mem-append_right (y ∷ xs) m = Memᴰ.tail (mem-append_right xs m)
