-- ===== src/Gateway/Sessions/Revocation.antt =====
-- What a change of password does to the sessions before it (setUserPassword of users.go, requireSession of
-- middleware.go).
use mathlib.Core.Path.{subst}
use phlox_gw.Common.{
  Bool, true, false, ◌≡◌, refl, sym, ap, ◌∙◌, inl, inr, any, find, Bool-cases, arith,
}
use phlox_gw.Common.Int.{ℤ, pos, ◌+ℤ◌, eq_ℤ, +ℤ_parts}
use phlox_gw.Common.Text.{Text, is_empty}
use phlox_gw.Store.Types.{Time, User, Db, ok, not_found}
use phlox_gw.Store.Results.{let_through}
use phlox_gw.Store.Table.{update_where, find-update_where_self}
use phlox_gw.Store.Users.{
  has_user_id, found_user, found_same, get_user_by_id, with_password, set_user_password,
  update_user_row,
}
use phlox_gw.Auth.{Claims, Codecs, valid, verify_session}
use phlox_gw.Gateway.Sessions.{
  invalid_session, user_access, claims_access, require_session_with_password_change,
}

later_version : (v : ℤ) → eq_ℤ v (v +ℤ pos 1) ≡ false
later_version v = ground (arith, +ℤ_parts v (pos 1))

updated_same :
    (db : Db) (id : Text) (f : User → User) {db' : Db}
    → update_user_row db id f ≡ ok db'
    → update_where (has_user_id id) f db.users ≡ db'.users
updated_same db id f e =
    ap (λ (d : Db). d.users) (let_through (any (has_user_id id) db.users) not_found e)

user_access-old :
    (allow : Bool) (claims : Claims) (user : User)
    → eq_ℤ claims.session_version user.session_version ≡ false
    → user_access allow claims user ≡ invalid_session
user_access-old allow claims user e = elim (Bool-cases user.is_active) [
  | inl t ↦ rw (t, e) refl
  | inr t ↦ rw t refl
]

-- The user that is found after the change.
get_user_by_id-set_user_password :
    (db db' : Db) (now : Time) (id hash : Text) (must_change : Bool) (user : User)
    → get_user_by_id db id ≡ ok user
    → set_user_password db now id hash must_change ≡ ok db'
    → get_user_by_id db' id ≡ ok (with_password now hash must_change user)
unfolding get_user_by_id set_user_password with_password
get_user_by_id-set_user_password db db' now id hash must_change user found e =
    let users = updated_same db id (with_password now hash must_change) e in
    subst
      (λ us. found_user (find (has_user_id id) us) ≡ ok (with_password now hash must_change user))
      users
      (ap found_user (
        find-update_where_self (has_user_id id) (with_password now hash must_change)
          (λ (u : User) (h : has_user_id id u ≡ true). h) db.users
          (found_same (find (has_user_id id) db.users) found)))

-- After set_user_password of a user, a token that is signed and not expired, whose claims name that user
-- at the session version from before, is refused by require_session_with_password_change as an invalid
-- session, whether or not the request may come before a required change of password.
pub require_session_with_password_change-set_user_password :
    (k : Codecs) (secret token : Text) (claims : Claims) (db db' : Db) (now later : Time)
    (hash : Text) (must_change allow : Bool) (user : User)
    → get_user_by_id db claims.subject ≡ ok user
    → claims.session_version ≡ user.session_version
    → set_user_password db now claims.subject hash must_change ≡ ok db'
    → is_empty token ≡ false
    → verify_session k token secret later ≡ valid claims
    → require_session_with_password_change k secret allow later db' token ≡ invalid_session
unfolding require_session_with_password_change with_password
require_session_with_password_change-set_user_password k secret token claims db db' now later hash
      must_change allow user found version e t v =
    let found' =
      get_user_by_id-set_user_password db db' now claims.subject hash must_change user found e in
    let old : eq_ℤ claims.session_version (user.session_version +ℤ pos 1) ≡ false =
      subst (λ x. eq_ℤ x (user.session_version +ℤ pos 1) ≡ false) (sym version)
        (later_version user.session_version) in
    rw (t, v)
      (ap (claims_access allow claims) found'
        ∙ user_access-old allow claims (with_password now hash must_change user) old)
