-- ===== src/Common/Text/Split.antt =====
-- strings.FieldsFunc, strings.Fields, strings.Split, strings.Cut and strings.Join.
use phlox_gw.Common.Tests.{◌==◌, if◌then◌else◌}
use phlox_gw.Common.Text.{Text, is_empty}
use phlox_gw.Common.Text.Trim.{space_front, trim_space}
use Prim.Native.Nat.{ℕ, zero, suc}
use mathlib.Core.Bool.{Bool}
use mathlib.Core.Option.{Option, none, some}
use mathlib.Core.Option
use mathlib.Core.List.{List, [], ◌∷◌, ◌++◌}

abbrev pub emit : Text → List Text → List Text
emit [] rest = rest
emit (b ∷ run) rest = (b ∷ run) ∷ rest

-- The run without separators that the bytes begin with, and the fields after it.
unfoldable pub fields_after : (ℕ → Bool) → Text → Text × List Text
fields_after sep [] = ([], [])
fields_after sep (b ∷ s) =
    let (run, rest) = fields_after sep s in if sep b then ([], emit run rest) else (b ∷ run, rest)

-- strings.FieldsFunc, for separators that are ASCII.
unfoldable pub fields_func : (ℕ → Bool) → Text → List Text
unfolding fields_after
fields_func sep s = let (run, rest) = fields_after sep s in emit run rest

-- The same with white space as the separator; the number counts the bytes to skip.
unfoldable pub words_after : ℕ → Text → Text × List Text
words_after (suc k) [] = ([], [])
words_after (suc k) (b ∷ s) = words_after k s
words_after zero [] = ([], [])
words_after zero (b ∷ s) = elim (space_front (b ∷ s)) [
  | zero ↦ let (run, rest) = words_after zero s in (b ∷ run, rest)
  | suc k ↦ let (run, rest) = words_after k s in ([], emit run rest)
]

-- strings.Fields
unfoldable pub words : Text → List Text
unfolding words_after space_front
words s = let (run, rest) = words_after 0 s in emit run rest

-- strings.Split, for a single byte: what stands before it first, and the other parts.
unfoldable pub split_after : ℕ → Text → Text × List Text
split_after c [] = ([], [])
split_after c (b ∷ s) =
    let (part, rest) = split_after c s in if b == c then ([], part ∷ rest) else (b ∷ part, rest)

unfoldable pub split : ℕ → Text → List Text
unfolding split_after
split c s = let (part, rest) = split_after c s in part ∷ rest

-- strings.Cut, for a single byte; `none` where it is not found.
unfoldable pub cut : ℕ → Text → Option (Text × Text)
cut c [] = none
cut c (b ∷ s) =
    let rest = cut c s in if b == c then some ([], s) else Option.map (λ p. (b ∷ p.0, p.1)) rest

-- strings.Join, for a single byte.
unfoldable pub join : ℕ → List Text → Text
join c [] = []
join c (x ∷ []) = x
join c (x ∷ y ∷ xs) = x ++ c ∷ join c (y ∷ xs)

-- The loop that trims each part and keeps those that are not empty.
unfoldable pub trim_items : List Text → List Text
trim_items [] = []
trim_items (p ∷ ps) =
    let part = trim_space p in
    let rest = trim_items ps in if is_empty part then rest else part ∷ rest
