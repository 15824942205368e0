-- ===== src/Tests/Sessions.antt =====
-- The theorems on sessions and API keys at concrete inputs.
use phlox_gw.Common.{Bool, false, Option, some, [], ◌∷◌, ◌++◌, ◌+◌, ◌*◌, ◌≡◌, refl, arith}
use phlox_gw.Common.Int.{pos}
use phlox_gw.Common.Text.{Text, codes, text_eq}
use phlox_gw.Store.Types.{ApiKey, Db}
use phlox_gw.Store.Users.{
  get_user_by_username, get_user_by_id, touched, touch_login, with_password, set_user_password,
}
use phlox_gw.Store.Table.{update_where}
use phlox_gw.Auth.{Claims, Codecs, sign_session, verify_session}
use phlox_gw.Auth.Session.{RoundTrips}
use phlox_gw.Gateway.Sessions.{
  granted, invalid_session, session_claims, issue_session_token, login, require_api_key,
  require_session_with_password_change,
}
use phlox_gw.Gateway.Sessions.Logins.{login-require_session}
use phlox_gw.Gateway.Sessions.Revocation.{require_session_with_password_change-set_user_password}
use phlox_gw.Gateway.Sessions.Keys.{IsUsable, require_api_key-IsUsable}
use phlox_gw.Tests.{noon, ann, key, db}
use phlox_gw.Tests.Auth.{simple, simple-RoundTrips}

abbrev fresh_claims : Claims
fresh_claims = record {
  subject = codes "u1";
  username = codes "ann";
  role = codes "user";
  session_version = pos 0;
  expires = pos (1_769_947_200 + 12 * 3600);
  issued_at = pos 1_769_947_200;
}

abbrev codecs : Codecs
codecs = record simple { unmarshal = λ s. some fresh_claims }

codecs-RoundTrips : RoundTrips codecs fresh_claims
codecs-RoundTrips = record {
  decoded = simple-RoundTrips.decoded;
  no_dot = simple-RoundTrips.no_dot;
  unmarshalled = refl;
}

abbrev check_password : Text → Text → Bool
check_password hash password = text_eq password (codes "open sesame")

abbrev hash_password : Text → Option Text
hash_password password = some password

login-require_session_example :
    (login codecs
        (codes "key")
        check_password
        hash_password
        noon
        db
        (codes "ann")
        (codes "open sesame")
      ≡ (
        granted (issue_session_token codecs (codes "key") noon ann, ann),
        touch_login db (codes "u1") noon,
      ))
    × (require_session_with_password_change codecs
          (codes "key")
          false
          noon
          (touch_login db (codes "u1") noon)
          (issue_session_token codecs (codes "key") noon ann)
        ≡ granted (touched noon ann))
unfolding session_claims get_user_by_username get_user_by_id text_eq
login-require_session_example =
    login-require_session codecs (codes "key") check_password hash_password db noon noon
      (codes "ann") (codes "open sesame") ann false codecs-RoundTrips refl refl refl refl refl
      (ground arith)

abbrev changed : Db
changed = record db { users = with_password noon (codes "new") false ann ∷ [] }

require_session_with_password_change-set_user_password_example :
    require_session_with_password_change codecs
      (codes "key")
      false
      noon
      changed
      (sign_session codecs fresh_claims (codes "key"))
    ≡ invalid_session
unfolding get_user_by_id set_user_password sign_session verify_session text_eq update_where
require_session_with_password_change-set_user_password_example =
    require_session_with_password_change-set_user_password codecs (codes "key")
      (sign_session codecs fresh_claims (codes "key")) fresh_claims db changed noon noon
      (codes "new") false false ann refl refl refl refl refl

abbrev hash_api_key : Text → Text
hash_api_key token = codes "hash of " ++ token

abbrev plx : ApiKey
plx = record key { key_hash = codes "hash of plx_1" }

abbrev with_plx : Db
with_plx = record db { api_keys = plx ∷ [] }

require_api_key-IsUsable_example : IsUsable (codes "hash of plx_1") noon with_plx (ann, plx)
unfolding require_api_key text_eq update_where
require_api_key-IsUsable_example =
    require_api_key-IsUsable hash_api_key noon with_plx
      (record with_plx { api_keys = record plx { last_used_at = some noon } ∷ [] }) (codes "plx_1")
      (ann, plx) refl
