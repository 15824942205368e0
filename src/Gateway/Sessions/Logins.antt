-- ===== src/Gateway/Sessions/Logins.antt =====
-- What the token of a login is let through for (login, issueSessionToken of auth.go, requireSession of
-- middleware.go).
use mathlib.Core.Path.{subst}
use phlox_gw.Common.{
  ℕ, Bool, true, false, not, ◌&&◌, ◌||◌, Option, [], ◌∷◌, ◌++◌, ◌≡◌, refl, sym, ap, ◌∙◌, find,
  arith, if◌then◌else◌, ◌+◌, ◌*◌, ◌<◌,
}
use phlox_gw.Common.Int.{ℤ, pos, eq_ℤ, leb_ℤ}
use phlox_gw.Common.Text.{Text, is_empty}
use phlox_gw.Store.Types.{Time, User, Db, ok}
use phlox_gw.Store.Table.{find-update_where_self}
use phlox_gw.Store.Users.{
  has_user_id, found_user, found_same, touched, get_user_by_id, get_user_by_username, touch_login,
}
use phlox_gw.Auth.{Claims, Codecs, sign_session}
use phlox_gw.Auth.Session.{RoundTrips, verify_session-sign_session}
use phlox_gw.Gateway.Sessions.{
  granted, user_access, claims_access, session_claims, issue_session_token,
  require_session_with_password_change, login, login_found,
}

is_empty-append : (x : Text) (c : ℕ) (y : Text) → is_empty (x ++ c ∷ y) ≡ false
is_empty-append [] c y = refl
is_empty-append (b ∷ x) c y = refl

same_version : (v : ℤ) → eq_ℤ v v ≡ true
same_version v = ground arith

passed :
    {A : Type 0} (x y z : A) (a v p : Bool)
    → a ≡ true
    → p ≡ false
    → v ≡ true
    → (if not a then x else if not v then x else if p then y else z) ≡ z
passed x y z a v p ha hp hv = rw (ha, hp, hv) refl

passed_both :
    {A : Type 0} (x z : A) (a b : Bool)
    → a ≡ true
    → b ≡ true
    → (if not a || not b then x else z) ≡ z
passed_both x z a b ha hb = rw (ha, hb) refl

user_access-granted :
    (allow : Bool) (claims : Claims) (user : User)
    → user.is_active ≡ true
    → (user.must_change_password && not allow) ≡ false
    → eq_ℤ claims.session_version user.session_version ≡ true
    → user_access allow claims user ≡ granted user
user_access-granted allow claims user active password version =
    passed _ _ (granted user) user.is_active _ (user.must_change_password && not allow) active
      password version

-- A user that is found with the version of the token.
issued-granted :
    (k : Codecs) (secret : Text) (db : Db) (now later : Time) (user found : User) (allow : Bool)
    → RoundTrips k (session_claims k secret now user)
    → get_user_by_id db user.id ≡ ok found
    → found.is_active ≡ true
    → (found.must_change_password && not allow) ≡ false
    → found.session_version ≡ user.session_version
    → later.sec < now.sec + 12 * 3600
    → require_session_with_password_change k secret allow later db
        (issue_session_token k secret now user)
      ≡ granted found
unfolding require_session_with_password_change issue_session_token session_claims sign_session
issued-granted k secret db now later user found allow codecs is_found active password version
      fresh =
    let claims : Claims = session_claims k secret now user in
    let version' : eq_ℤ user.session_version found.session_version ≡ true =
      subst (λ v. eq_ℤ user.session_version v ≡ true) (sym version)
        (same_version user.session_version) in
    let unexpired : leb_ℤ (pos (now.sec + 12 * 3600)) (pos later.sec) ≡ false = ground arith in
    let nonempty : is_empty (sign_session k claims secret) ≡ false = is_empty-append _ 46 _ in
    rw (nonempty, verify_session-sign_session k claims codecs secret later unexpired)
      (ap (claims_access allow claims) is_found
        ∙ user_access-granted allow claims found active password version')

-- If the user with the username is the one with its id, is active and has the password, login issues the
-- token of its claims and marks the login; until the token expires and while no change of password is
-- required (or where it is allowed), a request with it is let through as that user. The codecs round-trip
-- the claims.
pub login-require_session :
    (k : Codecs) (secret : Text) (check_password : Text → Text → Bool)
    (hash_password : Text → Option Text) (db : Db) (now later : Time) (username password : Text)
    (user : User) (allow : Bool)
    → RoundTrips k (session_claims k secret now user)
    → get_user_by_username db username ≡ ok user
    → get_user_by_id db user.id ≡ ok user
    → user.is_active ≡ true
    → check_password user.password_hash password ≡ true
    → (user.must_change_password && not allow) ≡ false
    → later.sec < now.sec + 12 * 3600
    → (let token = issue_session_token k secret now user in
        (login k secret check_password hash_password now db username password
          ≡ (granted (token, user), touch_login db user.id now))
        × (require_session_with_password_change k secret allow later
              (touch_login db user.id now)
              token
            ≡ granted (touched now user)))
unfolding login get_user_by_id touch_login
login-require_session k secret check_password hash_password db now later username password user
      allow codecs by_name by_id active checked not_required fresh =
    (
      ap (login_found k secret check_password hash_password now db password) by_name
          ∙ passed_both _ _ user.is_active (check_password user.password_hash password) active
              checked,
      issued-granted k secret (touch_login db user.id now) now later user (touched now user) allow
          codecs
          (ap found_user (
            find-update_where_self (has_user_id user.id) (touched now)
              (λ (u : User) (h : has_user_id user.id u ≡ true). h) db.users
              (found_same (find (has_user_id user.id) db.users) by_id)))
          active not_required refl fresh,
    )
