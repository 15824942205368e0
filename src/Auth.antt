-- ===== src/Auth.antt =====
-- auth.go of internal/auth: the signed token of a session. HMAC-SHA256, base64 and encoding/json are
-- given from outside.
pub mod Session
use phlox_gw.Common.{ℕ, Bool, true, false, Option, none, some, List, [], ◌∷◌, ◌++◌, if◌then◌else◌}
use phlox_gw.Common.Int.{ℤ, pos, leb_ℤ}
use phlox_gw.Common.Text.{Text, codes, text_eq}
use phlox_gw.Common.Text.Split.{split}
use phlox_gw.Store.Types.{Time}

pub record Claims : Type 0 where
  pub subject : Text
  pub username : Text
  pub role : Text
  pub session_version : ℤ
  pub expires : ℤ
  pub issued_at : ℤ

-- The packages hmac with sha256, base64.RawURLEncoding and json.
pub record Codecs : Type 0 where
  pub mac : Text → Text → Text
  pub encode_to_string : Text → Text
  pub decode_string : Text → Option Text
  pub marshal_header : Text
  pub marshal : Claims → Text
  pub unmarshal : Text → Option Claims

pub data Verified : Type 0 where
  valid : Claims → Verified
  invalid_token invalid_signature undecodable expired : Verified

module _ (k : Codecs) where
  unfoldable pub sign : Text → Text → Text
  sign input secret = k.encode_to_string (k.mac input secret)

  abbrev pub signing_input : Text → Text → Text
  signing_input header claims = header ++ 46 ∷ claims

  unfoldable pub sign_session : Claims → Text → Text
  unfolding sign
  sign_session claims secret =
      let input =
        signing_input (k.encode_to_string k.marshal_header)
          (k.encode_to_string (k.marshal claims)) in
      input ++ 46 ∷ sign input secret

  abbrev pub unexpired : Claims → Time → Verified
  unexpired claims now = if leb_ℤ claims.expires (pos now.sec) then expired else valid claims

  -- The payload of a token whose signature is right.
  abbrev pub read_claims : Text → Time → Verified
  read_claims part now = elim (k.decode_string part) [
    | none ↦ undecodable
    | some payload ↦ elim (k.unmarshal payload) [
      | none ↦ undecodable
      | some claims ↦ unexpired claims now
    ]
  ]

  abbrev pub verify_parts : List Text → Text → Time → Verified
  verify_parts (header ∷ claims ∷ signature ∷ []) secret now =
      if text_eq signature (sign (signing_input header claims) secret)
      then read_claims claims now
      else invalid_signature
  verify_parts _ secret now = invalid_token

  unfoldable pub verify_session : Text → Text → Time → Verified
  unfolding split
  verify_session token secret now = verify_parts (split 46 token) secret now
