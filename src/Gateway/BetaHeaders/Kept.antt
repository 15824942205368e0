-- ===== src/Gateway/BetaHeaders/Kept.antt =====
-- What a provider reads in the header that filterAnthropicBetaHeader (beta_headers.go of
-- internal/httpapi) sends to it.
use phlox_gw.Common.{
  ℕ, ◌≡◌, refl, ap, ◌∙◌, inl, inr, Bool, false, not, some, List, [], ◌∷◌, select, All, All-select,
  All-map, ◌==◌, Bool-cases,
}
use phlox_gw.Common.Text.{Text, is_empty}
use phlox_gw.Common.Text.Trim.{trim_space}
use phlox_gw.Common.Text.Split.{
  emit, fields_after, fields_func, split_after, split, trim_items, join,
}
use phlox_gw.Common.Text.SplitLaws.{
  IsEntry, IsItem, fields_func-All, fields_func-join, trim_items-All, trim_items_fixed,
}
use phlox_gw.Store.Types.{Provider}
use phlox_gw.Gateway.BetaHeaders.{
  beta_value_allowed, beta_prefixes_for, sort_values, header_values, filter_anthropic_beta_header,
}

module _ (c : ℕ) where
  abbrev is_c : ℕ → Bool
  is_c b = b == c

  trim_items-emit :
      (run : Text) (xs ys : List Text)
      → trim_items xs ≡ trim_items ys
      → trim_items (run ∷ xs) ≡ trim_items (emit run ys)
  unfolding trim_items trim_space
  trim_items-emit [] xs ys h = h
  trim_items-emit (b ∷ run) xs ys h = rw h refl

  -- The parts that are not blank are the same, if empty ones are kept before or not.
  split-fields :
      (s : Text)
      → ((split_after c s).0 ≡ (fields_after is_c s).0)
        × (trim_items (split_after c s).1 ≡ trim_items (fields_after is_c s).1)
  unfolding split_after fields_after
  split-fields [] = (refl, refl)
  split-fields (b ∷ s) =
      let (e, f) = split-fields s in
      elim (Bool-cases (b == c)) [
        | inl h ↦ rw (h, e) (refl, trim_items-emit (fields_after is_c s).0 _ _ f)
        | inr h ↦ rw (h, e) (refl, f)
      ]

  pub split-fields_func : (s : Text) → trim_items (split c s) ≡ trim_items (fields_func is_c s)
  unfolding split fields_func
  split-fields_func s =
      let (e, f) = split-fields s in rw e (trim_items-emit (fields_after is_c s).0 _ _ f)

header_values-IsEntry : (s : Text) → All (IsEntry (is_c 44)) (header_values s)
unfolding header_values
header_values-IsEntry s =
    rw (split-fields_func 44 s) (trim_items-All (is_c 44) _ (fields_func-All (is_c 44) s))

items : (xs : List Text) → All (IsEntry (is_c 44)) xs → All (IsItem (is_c 44) 44 refl) xs
items [] h = tt
items (x ∷ xs) ((n, p, t), h) = ((n, p), items xs h)

header_values-join : (xs : List Text) → All (IsEntry (is_c 44)) xs → header_values (join 44 xs) ≡ xs
unfolding header_values
header_values-join xs h =
    split-fields_func 44 (join 44 xs)
    ∙ (ap trim_items (fields_func-join (is_c 44) 44 refl xs (items xs h))
        ∙ trim_items_fixed (is_c 44) xs h)

sort_values-select :
    (prefixes vs : List Text)
    → ((sort_values prefixes vs).0 ≡ select (λ v. beta_value_allowed v prefixes) vs)
      × ((sort_values prefixes vs).1 ≡ select (λ v. not (beta_value_allowed v prefixes)) vs)
unfolding sort_values
sort_values-select prefixes [] = (refl, refl)
sort_values-select prefixes (v ∷ vs) =
    let (e, f) = sort_values-select prefixes vs in
    elim (Bool-cases (beta_value_allowed v prefixes)) [
      | inl h ↦ rw (h, e, f) (refl, refl)
      | inr h ↦ rw (h, e, f) (refl, refl)
    ]

-- If a list of prefixes applies to a provider, the values that it reads in the header are those of
-- the client's values that are allowed, in their order, and the other ones are reported as dropped.
pub filter_anthropic_beta_header-header_values :
    (p : Provider) (lines prefixes : List Text)
    → is_empty (join 44 lines) ≡ false
    → beta_prefixes_for p ≡ some prefixes
    → (header_values (filter_anthropic_beta_header p lines).0
        ≡ select (λ v. beta_value_allowed v prefixes) (header_values (join 44 lines)))
      × ((filter_anthropic_beta_header p lines).1
          ≡ select (λ v. not (beta_value_allowed v prefixes)) (header_values (join 44 lines)))
unfolding filter_anthropic_beta_header
filter_anthropic_beta_header-header_values p lines prefixes full e =
    let vs = header_values (join 44 lines) in
    let (kept, dropped) = sort_values-select prefixes vs in
    let allowed = λ (v : Text). beta_value_allowed v prefixes in
    let entries =
      All-map _ (IsEntry (is_c 44)) (λ x h. h.0) (select allowed vs)
        (All-select (IsEntry (is_c 44)) allowed vs (header_values-IsEntry (join 44 lines))) in
    rw (full, e)
      (ap (λ xs. header_values (join 44 xs)) kept ∙ header_values-join _ entries, dropped)
