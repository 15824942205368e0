-- ===== src/Tests/Accounts.antt =====
-- The theorems on the keys of tables at concrete steps.
use phlox_gw.Common.{[], ◌∷◌, refl}
use phlox_gw.Common.Text.{codes, text_eq}
use phlox_gw.Store.Types.{Db}
use phlox_gw.Store.Lists.{value_or}
use phlox_gw.Store.Users.{create_user, touch_login}
use phlox_gw.Store.ApiKeys.{create_api_key}
use phlox_gw.Store.Accounts.{Step, Reaches, IsConsistent}
use phlox_gw.Store.Accounts.Kept.{Reaches-IsConsistent}
use phlox_gw.Tests.{noon, ann, key, db}

abbrev empty : Db
empty = record db { users = []; api_keys = [] }

abbrev with_ann : Db
with_ann = record empty { users = ann ∷ [] }

ann_reached : Reaches empty with_ann
unfolding create_user value_or
ann_reached = Reaches.step Reaches.here (Step.user_created noon ann refl)

key_reached : Reaches empty db
unfolding create_api_key text_eq
key_reached = Reaches.step ann_reached (Step.key_created noon key refl)

Reaches-IsConsistent_example : IsConsistent (touch_login db (codes "u1") noon)
Reaches-IsConsistent_example =
    Reaches-IsConsistent empty (touch_login db (codes "u1") noon) refl refl
      (Reaches.step key_reached (Step.signed_in (codes "u1") noon))
