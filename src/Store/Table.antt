-- ===== src/Store/Table.antt =====
-- What the statements do to the rows of one table.
use phlox_gw.Common.{
  ◌≡◌, refl, Bool, true, false, not, ◌||◌, ◌&&◌, List, [], ◌∷◌, ap, if◌then◌else◌, find, Bool-cases,
  inl, inr, some,
}
use mathlib.Core.Option
use phlox_gw.Common.Text.{Text, text_eq}
use phlox_gw.Store.Clock.{text_ltb}
use phlox_gw.Store.Types.{Result, ok, err, not_found}

module _ {ℓ} {A : Type ℓ} where
  -- UPDATE … SET … WHERE …
  unfoldable pub update_where : (A → Bool) → (A → A) → List A → List A
  update_where p f [] = []
  update_where p f (x ∷ xs) = (if p x then f x else x) ∷ update_where p f xs

  -- DELETE FROM … WHERE …
  unfoldable pub delete_where : (A → Bool) → List A → List A
  delete_where p [] = []
  delete_where p (x ∷ xs) = let rest = delete_where p xs in if p x then rest else x ∷ rest

  -- QueryRow: the first row, or sql.ErrNoRows, which the scan functions turn into ErrNotFound.
  abbrev pub first_row : List A → Result A
  first_row [] = err not_found
  first_row (x ∷ xs) = ok x

  -- An update that a test of the rows does not see leaves what the test finds.
  pub find-update_where_other :
      (q p : A → Bool) (f : A → A)
      → ((x : A) → p x ≡ true → (q x ≡ false) × (q (f x) ≡ false))
      → (xs : List A) → find q (update_where p f xs) ≡ find q xs
  unfolding update_where
  find-update_where_other q p f h [] = refl
  find-update_where_other q p f h (x ∷ xs) = elim (Bool-cases (p x)) [
    | inl e ↦ rw (e, (h x e).0, (h x e).1) (find-update_where_other q p f h xs)
    | inr e ↦ rw (e, find-update_where_other q p f h xs)
  ]

  -- An update of the rows that a test selects, which keeps the test, updates what the test finds.
  pub find-update_where_self :
      (p : A → Bool) (f : A → A)
      → ((x : A) → p x ≡ true → p (f x) ≡ true)
      → (xs : List A) {x : A} → find p xs ≡ some x
      → find p (update_where p f xs) ≡ some (f x)
  unfolding update_where
  find-update_where_self p f h [] e = cc
  find-update_where_self p f h (y ∷ xs) e = elim (Bool-cases (p y)) [
    | inl t ↦ rw (t, h y t) (ap (Option.map f) (rw t at e))
    | inr t ↦ rw (t, t) (find-update_where_self p f h xs (rw t at e))
  ]

  -- ORDER BY, by insertion.
  unfoldable pub insert_by : (A → A → Bool) → A → List A → List A
  insert_by before x [] = x ∷ []
  insert_by before x (y ∷ ys) =
      let rest = insert_by before x ys in if before y x then y ∷ rest else x ∷ y ∷ ys

  unfoldable pub order_by : (A → A → Bool) → List A → List A
  unfolding insert_by
  order_by before [] = []
  order_by before (x ∷ xs) = insert_by before x (order_by before xs)

-- The order of two texts, and of rows by two columns.
abbrev pub text_leb : Text → Text → Bool
text_leb a b = not (text_ltb b a)

abbrev pub columns_leb : Text → Text → Text → Text → Bool
columns_leb a b a' b' = text_ltb a a' || text_eq a a' && text_leb b b'
