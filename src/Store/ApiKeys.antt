-- ===== src/Store/ApiKeys.antt =====
-- apikeys.go of internal/store, but for the reads of the policy checks (Store.RateLimits, Store.Budgets).
use phlox_gw.Common.{
  Bool, true, false, not, ◌&&◌, ◌||◌, List, [], ◌∷◌, ◌++◌, any, select, find, Option, none, some,
  if◌then◌else◌, ltb, ◌==◌,
}
use phlox_gw.Common.Text.{Text, text_eq}
use phlox_gw.Store.Types.{Time, User, ApiKey, Db, Result, ok, err, not_found, conflict, failed}
use phlox_gw.Store.Lists.{normalize_list}
use phlox_gw.Store.Table.{update_where, order_by}
use phlox_gw.Store.Users.{has_user_id}

abbrev pub has_key_id : Text → ApiKey → Bool
has_key_id id k = text_eq k.id id

-- a.After(b)
unfoldable pub after : Time → Time → Bool
after a b = ltb b.sec a.sec || a.sec == b.sec && ltb b.nano a.nano

unfoldable pub list_api_keys : Db → Text → List ApiKey
unfolding order_by after
list_api_keys db user_id =
    order_by (λ a b. not (after b.created_at a.created_at))
      (select (λ k. text_eq k.user_id user_id) db.api_keys)

unfoldable pub create_api_key : Db → Time → ApiKey → Result Db
create_api_key db now k =
    if any (λ r. text_eq r.id k.id || text_eq r.key_hash k.key_hash) db.api_keys
    then err conflict
    else if not (any (has_user_id k.user_id) db.users)
    then err failed
    else ok (record db {
      api_keys =
          db.api_keys ++ record k { is_active = true; last_used_at = none; created_at = now } ∷ [];
    })

-- UPDATE api_keys … WHERE …, and ErrNotFound where it affects no row.
abbrev pub update_key_rows : Db → (ApiKey → Bool) → (ApiKey → ApiKey) → Result Db
update_key_rows db p f =
    if any p db.api_keys
    then ok (record db { api_keys = update_where p f db.api_keys })
    else err not_found

abbrev pub is_active_of : Text → Text → ApiKey → Bool
is_active_of id user_id k = has_key_id id k && (text_eq k.user_id user_id && k.is_active)

unfoldable pub update_api_key_self : Db → ApiKey → Result Db
update_api_key_self db k =
    update_key_rows db (is_active_of k.id k.user_id)
      (λ old. record old { name = k.name; expires_at = k.expires_at })

abbrev pub rotated : Text → Text → ApiKey → ApiKey
rotated prefix hash k = record k { prefix = prefix; key_hash = hash; last_used_at = none }

-- A hash that another key has is refused by the table, as an error that is not told apart.
abbrev pub is_taken : Db → (ApiKey → Bool) → Text → Bool
is_taken db p hash = any (λ k. not (p k) && text_eq k.key_hash hash) db.api_keys

unfoldable pub rotate_api_key : Db → Text → Text → Text → Text → Result Db
rotate_api_key db user_id id prefix hash =
    if any (is_active_of id user_id) db.api_keys && is_taken db (is_active_of id user_id) hash
    then err failed
    else update_key_rows db (is_active_of id user_id) (rotated prefix hash)

abbrev pub is_active_key : Text → ApiKey → Bool
is_active_key id k = has_key_id id k && k.is_active

unfoldable pub rotate_api_key_admin : Db → Text → Text → Text → Result Db
rotate_api_key_admin db id prefix hash =
    if any (is_active_key id) db.api_keys && is_taken db (is_active_key id) hash
    then err failed
    else update_key_rows db (is_active_key id) (rotated prefix hash)

abbrev pub revoked : ApiKey → ApiKey
revoked k = record k { is_active = false }

unfoldable pub revoke_api_key : Db → Text → Text → Result Db
revoke_api_key db user_id id =
    update_key_rows db (λ k. has_key_id id k && text_eq k.user_id user_id) revoked

unfoldable pub revoke_api_key_admin : Db → Text → Result Db
revoke_api_key_admin db id = update_key_rows db (has_key_id id) revoked

unfoldable pub update_api_key_controls : Db → ApiKey → Result Db
unfolding normalize_list
update_api_key_controls db k = update_key_rows db (has_key_id k.id) (λ old. record old {
  name = k.name;
  is_active = k.is_active;
  expires_at = k.expires_at;
  budget_usd = k.budget_usd;
  rpm_limit = k.rpm_limit;
  tpm_limit = k.tpm_limit;
  model_allowlist = normalize_list k.model_allowlist;
})

-- The rows of the join with users, for keys with a hash.
unfoldable pub join_users : List ApiKey → List User → List (User × ApiKey)
join_users [] us = []
join_users (k ∷ ks) us =
    let rest = join_users ks us in
    elim (find (has_user_id k.user_id) us) [ none ↦ rest | some u ↦ (u, k) ∷ rest ]

abbrev pub is_expired : Option Time → Time → Bool
is_expired none now = false
is_expired (some t) now = not (after t now)

unfoldable pub used_row : Time → ApiKey → ApiKey
used_row now k = record k { last_used_at = some now }

-- Of the first row, if it can be used.
abbrev pub usable_row : Db → Time → List (User × ApiKey) → Result (Db × (User × ApiKey))
usable_row db now [] = err not_found
usable_row db now ((u, k) ∷ _) =
    if not k.is_active || not u.is_active
    then err not_found
    else if is_expired k.expires_at now
    then err not_found
    else ok
        (record db { api_keys = update_where (has_key_id k.id) (used_row now) db.api_keys }, (u, k))

unfoldable pub resolve_api_key : Db → Text → Time → Result (Db × (User × ApiKey))
unfolding join_users after used_row
resolve_api_key db hash now =
    usable_row db now (join_users (select (λ k. text_eq k.key_hash hash) db.api_keys) db.users)
