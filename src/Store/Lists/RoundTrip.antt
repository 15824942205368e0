-- ===== src/Store/Lists/RoundTrip.antt =====
-- What normalizing a list keeps.
use phlox_gw.Common.{◌≡◌, refl, ap}
use phlox_gw.Common.Text.{Text}
use phlox_gw.Common.Text.SplitLaws.{split_list-join}
use phlox_gw.Common.Text.Split.{join}
use phlox_gw.Store.Lists.{split_normalized_list, normalize_list, list_separator}

-- Reading a stored list back gives the items that were written.
pub split_normalized_list-normalize_list :
    (v : Text) → split_normalized_list (normalize_list v) ≡ split_normalized_list v
unfolding split_normalized_list normalize_list
split_normalized_list-normalize_list v = split_list-join list_separator 10 refl v

-- Normalizing a list that is normalized changes nothing.
pub normalize_list_idem : (v : Text) → normalize_list (normalize_list v) ≡ normalize_list v
unfolding normalize_list
normalize_list_idem v = ap (join 10) (split_normalized_list-normalize_list v)
