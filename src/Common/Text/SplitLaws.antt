-- ===== src/Common/Text/SplitLaws.antt =====
-- Splitting a text into fields gives back the fields that were joined.
use phlox_gw.Common.Tests.{Bool-cases}
use phlox_gw.Common.Lists.{All}
use phlox_gw.Common.Text.{Text, is_empty}
use phlox_gw.Common.Text.Trim.{trim_space}
use phlox_gw.Common.Text.TrimLaws.{
  IsTrimmed, trim_space-IsTrimmed, trim_space_fixed, trim_space-All,
}
use phlox_gw.Common.Text.Split.{emit, fields_after, fields_func, join, trim_items}
use Prim.Native.Nat.{ℕ}
use mathlib.Core.Path.{◌≡◌, refl, ap, ◌∙◌}
use mathlib.Core.Bool.{Bool, true, false}
use mathlib.Core.Logic.{inl, inr}
use mathlib.Core.List.{List, [], ◌∷◌, ◌++◌}

module _ (sep : ℕ → Bool) where
  abbrev pub IsPlain : Text → Type 0
  IsPlain s = All (λ b. sep b ≡ false) s

  fields_after-IsPlain : (s : Text) → IsPlain (fields_after sep s).0
  unfolding fields_after
  fields_after-IsPlain [] = tt
  fields_after-IsPlain (b ∷ s) = elim (Bool-cases (sep b)) [
    | inl e ↦ rw e tt
    | inr e ↦ rw e (e, fields_after-IsPlain s)
  ]

  emit-All :
      (run : Text) (rest : List Text) → IsPlain run → All IsPlain rest → All IsPlain (emit run rest)
  emit-All [] rest h k = k
  emit-All (b ∷ run) rest h k = (h, k)

  fields_after-All : (s : Text) → All IsPlain (fields_after sep s).1
  unfolding fields_after
  fields_after-All [] = tt
  fields_after-All (b ∷ s) = elim (Bool-cases (sep b)) [
    | inl e ↦ rw e (emit-All _ _ (fields_after-IsPlain s) (fields_after-All s))
    | inr e ↦ rw e (fields_after-All s)
  ]

  pub fields_func-All : (s : Text) → All IsPlain (fields_func sep s)
  unfolding fields_func
  fields_func-All s = emit-All _ _ (fields_after-IsPlain s) (fields_after-All s)

  fields_after_plain : (s : Text) → IsPlain s → fields_after sep s ≡ (s, [])
  unfolding fields_after
  fields_after_plain [] h = refl
  fields_after_plain (b ∷ s) (p, h) = rw (p, fields_after_plain s h)

  module _ (c : ℕ) (is_sep : sep c ≡ true) where
    fields_after_append :
        (x s : Text) → IsPlain x → fields_after sep (x ++ c ∷ s) ≡ (x, fields_func sep s)
    unfolding fields_func
    fields_after_append [] s h = rw is_sep
    fields_after_append (b ∷ x) s (p, h) = rw (p, fields_after_append x s h)

    abbrev pub IsItem : Text → Type 0
    IsItem x = (is_empty x ≡ false) × IsPlain x

    emit_item : (x : Text) (rest : List Text) → is_empty x ≡ false → emit x rest ≡ x ∷ rest
    emit_item [] rest h = cc
    emit_item (b ∷ x) rest h = refl

    pub fields_func-join : (xs : List Text) → All IsItem xs → fields_func sep (join c xs) ≡ xs
    unfolding fields_func join
    fields_func-join [] h = refl
    fields_func-join (x ∷ []) ((n, p), h) = rw (fields_after_plain x p) (emit_item x [] n)
    fields_func-join (x ∷ y ∷ xs) ((n, p), h) =
        rw (fields_after_append x (join c (y ∷ xs)) p)
          (emit_item x _ n ∙ ap (λ t. x ∷ t) (fields_func-join (y ∷ xs) h))

  -- What the loop keeps is trimmed, not empty and free of separators.
  abbrev pub IsEntry : Text → Type 0
  IsEntry x = (is_empty x ≡ false) × IsPlain x × IsTrimmed x

  pub trim_items-All : (xs : List Text) → All IsPlain xs → All IsEntry (trim_items xs)
  unfolding trim_items
  trim_items-All [] h = tt
  trim_items-All (x ∷ xs) (p, h) = elim (Bool-cases (is_empty (trim_space x))) [
    | inl e ↦ rw e (trim_items-All xs h)
    | inr e ↦ rw e ((e, trim_space-All _ x p, trim_space-IsTrimmed x), trim_items-All xs h)
  ]

  pub trim_items_fixed : (xs : List Text) → All IsEntry xs → trim_items xs ≡ xs
  unfolding trim_items
  trim_items_fixed [] h = refl
  trim_items_fixed (x ∷ xs) ((n, p, t), h) = rw (trim_space_fixed x t, n, trim_items_fixed xs h)

  All-IsItem : (c : ℕ) (s : sep c ≡ true) (xs : List Text) → All IsEntry xs → All (IsItem c s) xs
  All-IsItem c s [] h = tt
  All-IsItem c s (x ∷ xs) ((n, p, t), h) = ((n, p), All-IsItem c s xs h)

  -- Joining the items of a list and splitting the result gives the items.
  pub split_list-join :
      (c : ℕ)
      → sep c ≡ true
      → (v : Text)
      → trim_items (fields_func sep (join c (trim_items (fields_func sep v))))
        ≡ trim_items (fields_func sep v)
  split_list-join c s v =
      let items = trim_items (fields_func sep v) in
      let entries = trim_items-All (fields_func sep v) (fields_func-All v) in
      rw (fields_func-join c s items (All-IsItem c s items entries))
        (trim_items_fixed items entries)
