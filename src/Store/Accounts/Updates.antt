-- ===== src/Store/Accounts/Updates.antt =====
-- Updates of rows of users and keys, and the keys of the tables.
use mathlib.Core.Path.{subst}
use phlox_gw.Common.{◌≡◌, ap, ◌∙◌, Bool, true, any, All-map}
use phlox_gw.Common.Text.{Text, text_eq}
use phlox_gw.Store.Types.{User, ApiKey, Db, ok, not_found}
use phlox_gw.Store.Results.{let_through}
use phlox_gw.Store.Table.{update_where}
use phlox_gw.Store.Distinct.{Distinct, any-update_where, All-update_where, update_where-Distinct}
use phlox_gw.Store.Users.{has_user_id, update_user_row}
use phlox_gw.Store.ApiKeys.{update_key_rows}
use phlox_gw.Store.Accounts.{IsConsistent}

-- An update of users that keeps their ids and names.
pub users-IsConsistent :
    (db : Db) (p : User → Bool) (f : User → User)
    → ((u : User) → (f u).id ≡ u.id)
    → ((u : User) → (f u).username ≡ u.username)
    → IsConsistent db
    → IsConsistent (record db { users = update_where p f db.users })
users-IsConsistent db p f ids names c = record {
  user_ids = update_where-Distinct (λ (u : User). u.id) p f ids db.users c.user_ids;
  usernames = update_where-Distinct (λ (u : User). u.username) p f names db.users c.usernames;
  key_ids = c.key_ids;
  hashes = c.hashes;
  owned =
      All-map _ _
        (λ (k : ApiKey) (h : any (has_user_id k.user_id) db.users ≡ true).
          any-update_where (has_user_id k.user_id) p f (λ u. ap (λ i. text_eq i k.user_id) (ids u))
            db.users
          ∙ h)
        db.api_keys c.owned;
}

-- An update of keys that keeps their ids, owners and hashes.
pub keys-IsConsistent :
    (db : Db) (p : ApiKey → Bool) (f : ApiKey → ApiKey)
    → ((k : ApiKey) → (f k).id ≡ k.id)
    → ((k : ApiKey) → (f k).user_id ≡ k.user_id)
    → Distinct (λ (k : ApiKey). k.key_hash) (update_where p f db.api_keys)
    → IsConsistent db
    → IsConsistent (record db { api_keys = update_where p f db.api_keys })
keys-IsConsistent db p f ids owners hashes c = record {
  user_ids = c.user_ids;
  usernames = c.usernames;
  key_ids = update_where-Distinct (λ (k : ApiKey). k.id) p f ids db.api_keys c.key_ids;
  hashes = hashes;
  owned =
      All-update_where _ _ p f
        (λ (k : ApiKey) (h : any (has_user_id k.user_id) db.users ≡ true) t.
          ap (λ i. any (has_user_id i) db.users) (owners k) ∙ h)
        (λ (k : ApiKey) (h : any (has_user_id k.user_id) db.users ≡ true) t. h) db.api_keys c.owned;
}

-- An update of users by update_user_row.
pub row-IsConsistent :
    {db db' : Db} (id : Text) (f : User → User)
    → ((u : User) → (f u).id ≡ u.id)
    → ((u : User) → (f u).username ≡ u.username)
    → update_user_row db id f ≡ ok db'
    → IsConsistent db
    → IsConsistent db'
row-IsConsistent {db = db} id f ids names e c =
    subst IsConsistent (let_through (any (has_user_id id) db.users) not_found e)
      (users-IsConsistent db (has_user_id id) f ids names c)

-- An update of keys by update_key_rows that keeps the hashes.
pub rows-IsConsistent :
    {db db' : Db} (p : ApiKey → Bool) (f : ApiKey → ApiKey)
    → ((k : ApiKey) → (f k).id ≡ k.id)
    → ((k : ApiKey) → (f k).user_id ≡ k.user_id)
    → ((k : ApiKey) → (f k).key_hash ≡ k.key_hash)
    → update_key_rows db p f ≡ ok db'
    → IsConsistent db
    → IsConsistent db'
rows-IsConsistent {db = db} p f ids owners hashes e c =
    subst IsConsistent (let_through (any p db.api_keys) not_found e) (
      keys-IsConsistent db p f ids owners
        (update_where-Distinct (λ (k : ApiKey). k.key_hash) p f hashes db.api_keys c.hashes) c)
