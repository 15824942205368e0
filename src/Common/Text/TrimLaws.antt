-- ===== src/Common/Text/TrimLaws.antt =====
-- What is left after trimming has no white space at either end.
use phlox_gw.Common.Tests.{ℕ-cases}
use phlox_gw.Common.Lists.{All, All-append_right, All-reverse}
use phlox_gw.Common.Text.{Text}
use phlox_gw.Common.Text.Trim.{space_front, space_back, skip, trim_space}
use Prim.Native.Nat.{ℕ, zero, suc}
use mathlib.Core.Path.{◌≡◌, refl, sym, ap, ◌∙◌}
use mathlib.Core.Logic.{inl, inr}
use mathlib.Core.List.{[], ◌∷◌, ◌++◌, reverse, reverse-append, reverse-reverse}
use native.Mathlib.Omega.{arith}

module _ (at : Text → ℕ) where
  skip_front : at [] ≡ 0 → (k : ℕ) (s : Text) → at (skip at k s) ≡ 0
  unfolding skip
  skip_front h (suc k) [] = h
  skip_front h (suc k) (b ∷ s) = skip_front h k s
  skip_front h zero [] = h
  skip_front h zero (b ∷ s) = elim (ℕ-cases (at (b ∷ s))) [
    | inl e ↦ rw (e, skip) e
    | inr (k, e) ↦ rw (e, skip) (skip_front h k s)
  ]

  skip_fixed : (s : Text) → at s ≡ 0 → skip at 0 s ≡ s
  unfolding skip
  skip_fixed [] h = refl
  skip_fixed (b ∷ s) h = rw (h, skip)

  skip_suffix : (k : ℕ) (s : Text) → (d : Text) × (s ≡ d ++ skip at k s)
  unfolding skip
  skip_suffix (suc k) [] = ([], refl)
  skip_suffix (suc k) (b ∷ s) = let (d, e) = skip_suffix k s in (b ∷ d, ap (λ t. b ∷ t) e)
  skip_suffix zero [] = ([], refl)
  skip_suffix zero (b ∷ s) = elim (ℕ-cases (at (b ∷ s))) [
    | inl e ↦ ([], rw (e, skip))
    | inr (k, e) ↦ let (d, p) = skip_suffix k s in (b ∷ d, rw (e, skip) (ap (λ t. b ∷ t) p))
  ]

space_front_prefix : (p q : Text) → space_front (p ++ q) ≡ 0 → space_front p ≡ 0
unfolding space_front
space_front_prefix [] q h = refl
space_front_prefix (a ∷ []) [] h = h
space_front_prefix (a ∷ []) (b ∷ []) h = ground arith
space_front_prefix (a ∷ []) (b ∷ c ∷ q) h = ground arith
space_front_prefix (a ∷ b ∷ []) [] h = h
space_front_prefix (a ∷ b ∷ []) (c ∷ q) h = ground arith
space_front_prefix (a ∷ b ∷ c ∷ p) q h = h

-- Neither end of a text is white space.
pub record IsTrimmed (s : Text) : Type 0 where
  pub front : space_front s ≡ 0
  pub back : space_back (reverse s) ≡ 0

module _ (s : Text) where
  abbrev left : Text
  left = skip space_front 0 s

  abbrev right : Text
  right = skip space_back 0 (reverse left)

  left_split : (d : Text) → reverse left ≡ d ++ right → left ≡ reverse right ++ reverse d
  left_split d e = sym (reverse-reverse left) ∙ ap reverse e ∙ reverse-append d right

  pub trim_space-IsTrimmed : IsTrimmed (trim_space s)
  unfolding trim_space
  trim_space-IsTrimmed =
      let (d, e) = skip_suffix space_back 0 (reverse left) in
      record {
        front =
            space_front_prefix (reverse right) (reverse d)
              (rw (← left_split d e) (skip_front space_front refl 0 s));
        back = rw reverse-reverse (skip_front space_back refl 0 (reverse left));
      }

pub trim_space_fixed : (s : Text) → IsTrimmed s → trim_space s ≡ s
unfolding trim_space
trim_space_fixed s h =
    rw (skip_fixed space_front s h.front, skip_fixed space_back (reverse s) h.back)
      (reverse-reverse s)

pub trim_space_idem : (s : Text) → trim_space (trim_space s) ≡ trim_space s
trim_space_idem s = trim_space_fixed (trim_space s) (trim_space-IsTrimmed s)

-- Every byte that is left stood in the text.
pub trim_space-All {ℓ} : (P : ℕ → Type ℓ) (s : Text) → All P s → All P (trim_space s)
unfolding trim_space
trim_space-All P s h =
    let (c, e) = skip_suffix space_front 0 s in
    let (d, e') = skip_suffix space_back 0 (reverse (left s)) in
    let kept : All P (left s) = All-append_right P c (left s) (rw e at h) in
    All-reverse P (right s)
      (All-append_right P d (right s) (rw e' at (All-reverse P (left s) kept)))
