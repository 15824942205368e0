-- ===== src/Gateway/Sessions.antt =====
-- The sign-in of internal/httpapi: requireSession, requireAdmin and requireAPIKey (middleware.go), login,
-- changePassword and issueSessionToken (auth.go). Passwords are hashed and checked by bcrypt, and keys
-- hashed by sha256, which are given.
pub mod Revocation
pub mod Logins
pub mod Keys
pub mod Oidc
use phlox_gw.Common.{
  ℕ, Bool, true, false, not, ◌&&◌, ◌||◌, ◌+◌, ◌*◌, Option, none, some, List, [], ◌∷◌, length, ltb,
  if◌then◌else◌,
}
use phlox_gw.Common.Int.{ℤ, pos, eq_ℤ}
use phlox_gw.Common.Text.{Text, codes, text_eq, is_empty, has_prefix}
use phlox_gw.Common.Text.Lower.{to_lower}
use phlox_gw.Common.Text.Trim.{trim_space}
use phlox_gw.Store.Types.{
  Time, User, ApiKey, Db, Result, ok, err, StoreError, not_found, conflict, failed,
}
use phlox_gw.Store.Users.{
  get_user_by_username, get_user_by_id, touch_login, complete_required_password_change,
}
use phlox_gw.Store.ApiKeys.{resolve_api_key}
use phlox_gw.Auth.{Claims, Codecs, Verified, valid, sign_session, verify_session}

abbrev drop7 : Text → Text
drop7 (_ ∷ _ ∷ _ ∷ _ ∷ _ ∷ _ ∷ _ ∷ s) = s
drop7 _ = []

-- bearerToken, on the header Authorization.
unfoldable pub bearer_token : Text → Text
unfolding to_lower has_prefix trim_space
bearer_token header =
    if has_prefix (to_lower header) (codes "bearer ") then trim_space (drop7 header) else []

-- gatewayAPIKeyToken, on the headers Authorization and x-api-key.
unfoldable pub gateway_api_key_token : Text → Text → Text
unfolding bearer_token trim_space
gateway_api_key_token authorization x_api_key =
    let token = bearer_token authorization in if is_empty token then trim_space x_api_key else token

-- Whom a request is let through for, or the status and the message of its refusal.
pub data Access (A : Type 0) : Type 0 where
  granted : A → Access A
  refused : ℤ → Text → Access A

abbrev pub invalid_session : Access User
invalid_session = refused (pos 401) (codes "invalid session")

-- The user of claims that were verified.
abbrev pub user_access : Bool → Claims → User → Access User
user_access allow_password_change claims user =
    if not user.is_active
    then invalid_session
    else if not (eq_ℤ claims.session_version user.session_version)
    then invalid_session
    else if user.must_change_password && not allow_password_change
    then refused (pos 428) (codes "password change required")
    else granted user

abbrev pub claims_access : Bool → Claims → Result User → Access User
claims_access allow_password_change claims (err _) = invalid_session
claims_access allow_password_change claims (ok user) = user_access allow_password_change claims user

abbrev pub verified_access : Bool → Db → Verified → Access User
verified_access allow_password_change db (valid claims) =
    claims_access allow_password_change claims (get_user_by_id db claims.subject)
verified_access allow_password_change db _ = invalid_session

module _ (k : Codecs) (secret : Text) where
  -- requireSessionWithPasswordChange, on the bearer token.
  unfoldable pub require_session_with_password_change : Bool → Time → Db → Text → Access User
  unfolding verify_session get_user_by_id
  require_session_with_password_change allow_password_change now db token =
      if is_empty token
      then refused (pos 401) (codes "missing bearer token")
      else verified_access allow_password_change db (verify_session k token secret now)

  abbrev pub admin_access : Access User → Access User
  admin_access (refused status message) = refused status message
  admin_access (granted user) =
      if text_eq user.role (codes "admin")
      then granted user
      else refused (pos 403) (codes "admin required")

  unfoldable pub require_admin : Time → Db → Text → Access User
  unfolding require_session_with_password_change text_eq
  require_admin now db token =
      admin_access (require_session_with_password_change false now db token)

  unfoldable pub session_claims : Time → User → Claims
  session_claims now user = record {
    subject = user.id;
    username = user.username;
    role = user.role;
    session_version = user.session_version;
    expires = pos (now.sec + 12 * 3600);
    issued_at = pos now.sec;
  }

  unfoldable pub issue_session_token : Time → User → Text
  unfolding session_claims sign_session
  issue_session_token now user = sign_session k (session_claims now user) secret

  module _ (check_password : Text → Text → Bool) (hash_password : Text → Option Text) where
    abbrev pub login_user : Time → Db → Text → User → Access (Text × User) × Db
    login_user now db password user =
        if not user.is_active || not (check_password user.password_hash password)
        then (refused (pos 401) (codes "invalid username or password"), db)
        else (granted (issue_session_token now user, user), touch_login db user.id now)

    abbrev pub login_found : Time → Db → Text → Result User → Access (Text × User) × Db
    login_found now db password (err _) =
        (refused (pos 401) (codes "invalid username or password"), db)
    login_found now db password (ok user) = login_user now db password user

    -- login: the token and the user, and the database afterwards.
    unfoldable pub login : Time → Db → Text → Text → Access (Text × User) × Db
    unfolding get_user_by_username issue_session_token touch_login
    login now db username password = login_found now db password (get_user_by_username db username)

    abbrev pub after_change : Time → Text → Db → Result Db → Access (Text × User) × Db
    after_change now id db (err conflict) =
        (refused (pos 409) (codes "password was already changed; sign in again"), db)
    after_change now id db (err not_found) =
        (refused (pos 500) (codes "could not update password"), db)
    after_change now id db (err failed) =
        (refused (pos 500) (codes "could not update password"), db)
    after_change now id db (ok db') = elim (get_user_by_id db' id) [
      | err _ ↦ (refused (pos 500) (codes "could not reload user"), db')
      | ok updated ↦ (granted (issue_session_token now updated, updated), db')
    ]

    abbrev pub bad_length : Text → Bool
    bad_length password = ltb (length password) 12 || ltb 72 (length password)

    -- changePassword
    unfoldable pub change_password : Time → Db → User → Text → Access (Text × User) × Db
    unfolding complete_required_password_change get_user_by_id issue_session_token text_eq
    change_password now db user password =
        if not user.must_change_password
        then (refused (pos 409) (codes "password change is not required"), db)
        else if not (text_eq user.auth_provider (codes "local"))
        then (
          refused (pos 400) (codes "password changes are only available for local accounts"),
          db,
        )
        else if bad_length password
        then (refused (pos 400) (codes "password must be between 12 and 72 bytes"), db)
        else if check_password user.password_hash password
        then (refused (pos 400) (codes "new password must differ from the temporary password"), db)
        else elim (hash_password password) [
          | none ↦ (refused (pos 500) (codes "could not hash password"), db)
          | some hash ↦
              after_change now user.id db
                (complete_required_password_change db now user.id hash user.session_version)
        ]

-- requireAPIKey, on the token, over the hash of keys.
abbrev pub key_access : Db → Result (Db × (User × ApiKey)) → Access (User × ApiKey) × Db
key_access db (err _) = (refused (pos 401) (codes "invalid API key"), db)
key_access db (ok (db', owner)) = (granted owner, db')

unfoldable pub require_api_key : (Text → Text) → Time → Db → Text → Access (User × ApiKey) × Db
unfolding resolve_api_key
require_api_key hash_api_key now db token =
    if is_empty token
    then (refused (pos 401) (codes "missing API key"), db)
    else key_access db (resolve_api_key db (hash_api_key token) now)
