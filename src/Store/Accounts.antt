-- ===== src/Store/Accounts.antt =====
-- The tables users and api_keys over time: what the operations of users.go and apikeys.go lead to.
pub mod Updates
pub mod Kept
use phlox_gw.Common.{◌≡◌, Bool, true, false, List, [], ◌∷◌, any, All}
use phlox_gw.Common.Int.{ℤ}
use phlox_gw.Common.Text.{Text}
use phlox_gw.Store.Types.{Time, User, ApiKey, Db, Result, ok}
use phlox_gw.Store.Distinct.{Distinct}
use phlox_gw.Store.Users.{
  has_user_id, touch_login, create_user, update_user, update_federated_user, set_user_password,
  complete_required_password_change, delete_user,
}
use phlox_gw.Store.ApiKeys.{
  create_api_key, update_api_key_self, rotate_api_key, rotate_api_key_admin, revoke_api_key,
  revoke_api_key_admin, update_api_key_controls, resolve_api_key,
}

-- A call of an operation that returns without an error.
pub data Step (db : Db) : Db → Type 0 where
  signed_in : (id : Text) (t : Time) → Step db (touch_login db id t)
  user_created : {db' : Db} (now : Time) (u : User) → create_user db now u ≡ ok db' → Step db db'
  user_updated : {db' : Db} (now : Time) (u : User) → update_user db now u ≡ ok db' → Step db db'
  federated :
      {db' : Db} (now : Time) (u : User) → update_federated_user db now u ≡ ok db' → Step db db'
  password_set :
      {db' : Db} (now : Time) (id hash : Text) (must_change : Bool)
      → set_user_password db now id hash must_change ≡ ok db'
      → Step db db'
  password_changed :
      {db' : Db} (now : Time) (id hash : Text) (version : ℤ)
      → complete_required_password_change db now id hash version ≡ ok db'
      → Step db db'
  user_deleted : {db' : Db} (id : Text) → delete_user db id ≡ ok db' → Step db db'
  key_created :
      {db' : Db} (now : Time) (k : ApiKey) → create_api_key db now k ≡ ok db' → Step db db'
  key_updated : {db' : Db} (k : ApiKey) → update_api_key_self db k ≡ ok db' → Step db db'
  key_rotated :
      {db' : Db} (user_id id prefix hash : Text)
      → rotate_api_key db user_id id prefix hash ≡ ok db'
      → Step db db'
  key_rotated_admin :
      {db' : Db} (id prefix hash : Text)
      → rotate_api_key_admin db id prefix hash ≡ ok db'
      → Step db db'
  key_revoked : {db' : Db} (user_id id : Text) → revoke_api_key db user_id id ≡ ok db' → Step db db'
  key_revoked_admin : {db' : Db} (id : Text) → revoke_api_key_admin db id ≡ ok db' → Step db db'
  controls_updated : {db' : Db} (k : ApiKey) → update_api_key_controls db k ≡ ok db' → Step db db'
  key_resolved :
      {db' : Db} (hash : Text) (now : Time) (owner : User × ApiKey)
      → resolve_api_key db hash now ≡ ok (db', owner)
      → Step db db'

-- Some steps one after another.
pub data Reaches (start : Db) : Db → Type 0 where
  here : Reaches start start
  step : {db db' : Db} → Reaches start db → Step db db' → Reaches start db'

-- What the keys of the two tables ask.
pub record IsConsistent (db : Db) : Type 0 where
  pub user_ids : Distinct (λ (u : User). u.id) db.users
  pub usernames : Distinct (λ (u : User). u.username) db.users
  pub key_ids : Distinct (λ (k : ApiKey). k.id) db.api_keys
  pub hashes : Distinct (λ (k : ApiKey). k.key_hash) db.api_keys
  pub owned : All (λ (k : ApiKey). any (has_user_id k.user_id) db.users ≡ true) db.api_keys
