-- ===== src/Store/Users.antt =====
-- users.go of internal/store. A user's API keys go with the user (REFERENCES users ON DELETE CASCADE in
-- schema.go).
use phlox_gw.Common.{
  ◌≡◌, ap, arith, Bool, false, ◌&&◌, ◌||◌, List, [], ◌∷◌, ◌++◌, any, find, Option, none, some,
  if◌then◌else◌,
}
use phlox_gw.Common.Int.{ℤ, pos, ◌+ℤ◌, eq_ℤ}
use phlox_gw.Common.Text.{Text, codes, text_eq}
use phlox_gw.Store.Types.{Time, User, Db, Result, ok, err, not_found, conflict}
use phlox_gw.Store.Lists.{value_or}
use phlox_gw.Store.Table.{update_where, delete_where, order_by, text_leb}

abbrev pub has_user_id : Text → User → Bool
has_user_id id u = text_eq u.id id

abbrev pub found_user : Option User → Result User
found_user none = err not_found
found_user (some u) = ok u

pub found_same : (o : Option User) {u : User} → found_user o ≡ ok u → o ≡ some u
found_same none h = absurd (ground arith)
found_same (some w) h = ap some (ok_same h)
  where
    ok_same : {a b : User} → (let r : Result User = ok a in r ≡ ok b) → a ≡ b
    ok_same h = cc

unfoldable pub get_user_by_username : Db → Text → Result User
get_user_by_username db username = found_user (find (λ u. text_eq u.username username) db.users)

unfoldable pub get_user_by_id : Db → Text → Result User
get_user_by_id db id = found_user (find (has_user_id id) db.users)

-- The row after a sign-in.
abbrev pub touched : Time → User → User
touched t u = record u { last_login_at = some t; updated_at = t }

unfoldable pub touch_login : Db → Text → Time → Db
touch_login db id t = record db { users = update_where (has_user_id id) (touched t) db.users }

unfoldable pub list_users : Db → List User
unfolding order_by
list_users db = order_by (λ a b. text_leb a.username b.username) db.users

unfoldable pub create_user : Db → Time → User → Result Db
unfolding value_or
create_user db now u =
    if any (λ r. text_eq r.id u.id || text_eq r.username u.username) db.users
    then err conflict
    else ok (record db {
      users =
          db.users
          ++ record u {
            auth_provider = value_or u.auth_provider (codes "local");
            last_login_at = none;
            created_at = now;
            updated_at = now;
          }
            ∷ [];
    })

-- UPDATE users … WHERE id = ?, and ErrNotFound where it affects no row.
abbrev pub update_user_row : Db → Text → (User → User) → Result Db
update_user_row db id f =
    if any (has_user_id id) db.users
    then ok (record db { users = update_where (has_user_id id) f db.users })
    else err not_found

unfoldable pub update_user : Db → Time → User → Result Db
update_user db now u = update_user_row db u.id (λ old. record old {
  email = u.email;
  display_name = u.display_name;
  department = u.department;
  role = u.role;
  is_active = u.is_active;
  updated_at = now;
})

unfoldable pub update_federated_user : Db → Time → User → Result Db
unfolding value_or
update_federated_user db now u = update_user_row db u.id (λ old. record old {
  email = u.email;
  display_name = u.display_name;
  department = u.department;
  role = u.role;
  auth_provider = value_or u.auth_provider (codes "oidc");
  updated_at = now;
})

-- The row with a new password: the sessions of the old one are of a version before.
unfoldable pub with_password : Time → Text → Bool → User → User
unfolding ◌+ℤ◌
with_password now hash must_change u = record u {
  password_hash = hash;
  must_change_password = must_change;
  session_version = u.session_version +ℤ pos 1;
  updated_at = now;
}

unfoldable pub set_user_password : Db → Time → Text → Text → Bool → Result Db
unfolding with_password
set_user_password db now id hash must_change =
    update_user_row db id (with_password now hash must_change)

abbrev pub must_change_at : Text → ℤ → User → Bool
must_change_at id version u =
    has_user_id id u && (u.must_change_password && eq_ℤ u.session_version version)

unfoldable pub complete_required_password_change : Db → Time → Text → Text → ℤ → Result Db
unfolding with_password
complete_required_password_change db now id hash version =
    if any (must_change_at id version) db.users
    then ok (record db {
      users = update_where (must_change_at id version) (with_password now hash false) db.users;
    })
    else err conflict

unfoldable pub delete_user : Db → Text → Result Db
delete_user db id =
    if any (has_user_id id) db.users
    then ok (record db {
      budgets =
          delete_where (λ b. text_eq b.scope_type (codes "user") && text_eq b.scope_value id)
            db.budgets;
      rate_limits =
          delete_where (λ l. text_eq l.scope_type (codes "user") && text_eq l.scope_value id)
            db.rate_limits;
      api_keys = delete_where (λ k. text_eq k.user_id id) db.api_keys;
      users = delete_where (has_user_id id) db.users;
    })
    else err not_found
