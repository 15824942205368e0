-- ===== src/Store/Lists.antt =====
-- Lists kept in one column of text: helpers.go of internal/store, with what that file has beside it.
pub mod RoundTrip
use phlox_gw.Common.{ℕ, zero, suc, Bool, ◌||◌, List, [], ◌∷◌, leb, ◌==◌, length, if◌then◌else◌}
use phlox_gw.Common.Int.{ℤ, pos, ltb_ℤ}
use phlox_gw.Common.Text.{Text, is_empty}
use phlox_gw.Common.Text.Trim.{trim_space}
use phlox_gw.Common.Text.Split.{fields_func, join, trim_items}

-- The separators of a list: a comma, a line feed, a carriage return, a tab.
unfoldable pub list_separator : ℕ → Bool
list_separator b = b == 44 || b == 10 || b == 13 || b == 9

unfoldable pub split_normalized_list : Text → List Text
unfolding list_separator fields_func trim_items trim_space
split_normalized_list v = trim_items (fields_func list_separator v)

unfoldable pub normalize_list : Text → Text
unfolding split_normalized_list join
normalize_list v = join 10 (split_normalized_list v)

unfoldable pub clamp_non_negative : ℤ → ℤ
clamp_non_negative v = if ltb_ℤ v (pos 0) then pos 0 else v

unfoldable pub value_or : Text → Text → Text
unfolding trim_space
value_or v fallback = if is_empty (trim_space v) then fallback else v

-- v[:n]
unfoldable pub take : ℕ → Text → Text
take zero s = []
take (suc n) [] = []
take (suc n) (b ∷ s) = b ∷ take n s

unfoldable pub limit_provider_error : Text → Text
unfolding take trim_space
limit_provider_error v = let v' = trim_space v in if leb (length v') 1000 then v' else take 1000 v'
