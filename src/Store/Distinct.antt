-- ===== src/Store/Distinct.antt =====
-- A column whose values differ from row to row, as a primary key or UNIQUE asks of a table, under the
-- statements of Store.Table.
use phlox_gw.Common.{
  ◌≡◌, refl, sym, ap, ◌∙◌, Bool, true, false, not, ◌&&◌, ◌||◌, List, [], ◌∷◌, ◌++◌, any, All,
  All-append, All-map, Bool-cases, inl, inr, arith,
}
use phlox_gw.Common.Text.{Text, text_eq, text_eq_iff}
use phlox_gw.Store.Table.{update_where, delete_where}

pub text_eq_comm : (s t : Text) → text_eq s t ≡ text_eq t s
unfolding text_eq
text_eq_comm [] [] = refl
text_eq_comm [] (b ∷ t) = refl
text_eq_comm (a ∷ s) [] = refl
text_eq_comm (a ∷ s) (b ∷ t) = ground (arith, text_eq_comm s t)

pub or_false : {a b : Bool} → (a || b) ≡ false → (a ≡ false) × (b ≡ false)
or_false h = ground arith

module _ {A : Type 0} where
  pub any-false : (p : A → Bool) (xs : List A) → any p xs ≡ false → All (λ x. p x ≡ false) xs
  any-false p [] h = tt
  any-false p (x ∷ xs) h = let (a, b) = or_false h in (a, any-false p xs b)

  pub any-append :
      (p : A → Bool) (xs : List A) (y : A) → any p xs ≡ true → any p (xs ++ y ∷ []) ≡ true
  any-append p [] y h = ground arith
  any-append p (x ∷ xs) y h = ground (arith, any-append p xs y)

  -- A test that an update does not touch finds a row as before.
  pub any-update_where :
      (q p : A → Bool) (f : A → A)
      → ((x : A) → q (f x) ≡ q x)
      → (xs : List A) → any q (update_where p f xs) ≡ any q xs
  unfolding update_where
  any-update_where q p f h [] = refl
  any-update_where q p f h (x ∷ xs) = elim (Bool-cases (p x)) [
    | inl e ↦ rw (e, h x, any-update_where q p f h xs) refl
    | inr e ↦ rw (e, any-update_where q p f h xs) refl
  ]

  -- A row that a deletion does not select is found as before.
  pub any-delete_where :
      (q p : A → Bool)
      → ((x : A) → q x ≡ true → p x ≡ false)
      → (xs : List A) → any q xs ≡ true
      → any q (delete_where p xs) ≡ true
  unfolding delete_where
  any-delete_where q p h [] e = e
  any-delete_where q p h (x ∷ xs) e = elim (Bool-cases (p x)) [
    | inl t ↦ rw t (any-delete_where q p h xs (ground (arith, h x)))
    | inr t ↦ rw t (ground (arith, any-delete_where q p h xs))
  ]

  pub All-delete_where {κ} :
      (P : A → Type κ) (p : A → Bool) (xs : List A)
      → All P xs
      → All (λ x. P x × (p x ≡ false)) (delete_where p xs)
  unfolding delete_where
  All-delete_where P p [] h = tt
  All-delete_where P p (x ∷ xs) (k, h) = elim (Bool-cases (p x)) [
    | inl e ↦ rw e (All-delete_where P p xs h)
    | inr e ↦ rw e ((k, e), All-delete_where P p xs h)
  ]

  pub All-update_where {κ μ} :
      (P : A → Type κ) (Q : A → Type μ) (p : A → Bool) (f : A → A)
      → ((x : A) → P x → p x ≡ true → Q (f x))
      → ((x : A) → P x → p x ≡ false → Q x)
      → (xs : List A) → All P xs
      → All Q (update_where p f xs)
  unfolding update_where
  All-update_where P Q p f changed kept [] h = tt
  All-update_where P Q p f changed kept (x ∷ xs) (k, h) = elim (Bool-cases (p x)) [
    | inl e ↦ rw e (changed x k e, All-update_where P Q p f changed kept xs h)
    | inr e ↦ rw e (kept x k e, All-update_where P Q p f changed kept xs h)
  ]

  pub All-both {κ μ} :
      (P : A → Type κ) (Q : A → Type μ) (xs : List A)
      → All P xs
      → All Q xs
      → All (λ x. P x × Q x) xs
  All-both P Q [] h k = tt
  All-both P Q (x ∷ xs) (p, h) (q, k) = ((p, q), All-both P Q xs h k)

module _ {A : Type 0} (column : A → Text) where
  -- No two rows have the same value.
  abbrev pub Distinct : List A → Type 0
  Distinct [] = Unit
  Distinct (x ∷ xs) = All (λ y. text_eq (column x) (column y) ≡ false) xs × Distinct xs

  pub append-Distinct :
      (xs : List A) (y : A)
      → Distinct xs
      → All (λ x. text_eq (column x) (column y) ≡ false) xs
      → Distinct (xs ++ y ∷ [])
  append-Distinct [] y d h = (tt, tt)
  append-Distinct (x ∷ xs) y (a, d) (e, h) =
      (All-append _ xs (y ∷ []) a (e, tt), append-Distinct xs y d h)

  pub delete_where-Distinct :
      (p : A → Bool) (xs : List A) → Distinct xs → Distinct (delete_where p xs)
  unfolding delete_where
  delete_where-Distinct p [] d = tt
  delete_where-Distinct p (x ∷ xs) (a, d) = elim (Bool-cases (p x)) [
    | inl e ↦ rw e (delete_where-Distinct p xs d)
    | inr e ↦ rw e (
      All-map _ _ (λ y h. h.0) (delete_where p xs) (All-delete_where _ p xs a),
      delete_where-Distinct p xs d,
    )
  ]

  -- An update of other columns.
  pub update_where-Distinct :
      (p : A → Bool) (f : A → A)
      → ((x : A) → column (f x) ≡ column x)
      → (xs : List A) → Distinct xs
      → Distinct (update_where p f xs)
  unfolding update_where
  update_where-Distinct p f h [] d = tt
  update_where-Distinct p f h (x ∷ xs) (a, d) =
      let rest = update_where-Distinct p f h xs d in
      let others : All (λ y. text_eq (column x) (column y) ≡ false) (update_where p f xs) =
        All-update_where _ _ p f
          (λ (y : A) (e : text_eq (column x) (column y) ≡ false) t.
            ap (text_eq (column x)) (h y) ∙ e)
          (λ (y : A) (e : text_eq (column x) (column y) ≡ false) t. e) xs a in
      elim (Bool-cases (p x)) [ inl e ↦ rw (e, h x) (others, rest) | inr e ↦ rw e (others, rest) ]

clash : (s t : Text) → s ≡ t → text_eq s t ≡ false → ⊥
clash s t e h = let r : text_eq s t ≡ true = (text_eq_iff s t).1 e in ground (arith, r, h)

untaken : {a : Bool} {b : Bool} → (not a && b) ≡ false → a ≡ false → b ≡ false
untaken h e = ground arith

-- An update that gives a value which no other row has, to the row with a key.
module _ {A : Type 0} (column key : A → Text) (p : A → Bool) (f : A → A) (i v : Text) where
  pub set-Distinct :
      ((x : A) → p x ≡ true → key x ≡ i)
      → ((x : A) → column (f x) ≡ v)
      → (xs : List A) → Distinct key xs
      → Distinct column xs
      → any (λ x. not (p x) && text_eq (column x) v) xs ≡ false
      → Distinct column (update_where p f xs)
  unfolding update_where
  set-Distinct picks sets [] dk dc free = tt
  set-Distinct picks sets (x ∷ xs) (ak, dk) (ac, dc) free =
      let (free_x, free_xs) = or_false free in
      let rest = set-Distinct picks sets xs dk dc free_xs in
      elim (Bool-cases (p x)) [
        | inl e ↦ rw e (
          All-update_where _ _ p f
              (λ (y : A)
                  (h : (text_eq (key x) (key y) ≡ false)
                    × ((not (p y) && text_eq (column y) v) ≡ false))
                  t.
                absurd (clash (key x) (key y) (picks x e ∙ sym (picks y t)) h.0))
              (λ (y : A)
                  (h : (text_eq (key x) (key y) ≡ false)
                    × ((not (p y) && text_eq (column y) v) ≡ false))
                  t.
                ap (λ c. text_eq c (column y)) (sets x) ∙ text_eq_comm v (column y) ∙ untaken h.1 t)
              xs (All-both _ _ xs ak (any-false _ xs free_xs)),
          rest,
        )
        | inr e ↦ rw e (
          All-update_where _ _ p f
              (λ (y : A) (h : text_eq (column x) (column y) ≡ false) t.
                ap (text_eq (column x)) (sets y) ∙ untaken free_x e)
              (λ (y : A) (h : text_eq (column x) (column y) ≡ false) t. h) xs ac,
          rest,
        )
      ]
