-- ===== src/Tests/Auth.antt =====
-- The theorems on session tokens at a concrete input, with simple codecs for the packages.
use phlox_gw.Common.{◌+◌, ◌-◌, ◌≡◌, refl, ap, some, [], ◌∷◌, arith}
use phlox_gw.Common.Int.{pos}
use phlox_gw.Common.Text.{Text, codes}
use phlox_gw.Auth.{Claims, Codecs, valid, sign_session, verify_session}
use phlox_gw.Auth.Session.{
  IsFreeOf, RoundTrips, IsSigned, verify_session-sign_session, verify_session-IsSigned,
}
use phlox_gw.Tests.{noon}

abbrev shift : Text → Text
shift [] = []
shift (b ∷ s) = (b + 100) ∷ shift s

abbrev unshift : Text → Text
unshift [] = []
unshift (b ∷ s) = (b - 100) ∷ unshift s

abbrev ann_claims : Claims
ann_claims = record {
  subject = codes "u1";
  username = codes "ann";
  role = codes "user";
  session_version = pos 0;
  expires = pos 1_769_950_000;
  issued_at = pos 1_769_940_000;
}

abbrev pub simple : Codecs
simple = record {
  mac = λ input secret. secret;
  encode_to_string = shift;
  decode_string = λ s. some (unshift s);
  marshal_header = codes "HS256";
  marshal = λ c. c.subject;
  unmarshal = λ s. some ann_claims;
}

unshift-shift : (s : Text) → unshift (shift s) ≡ s
unshift-shift [] = refl
unshift-shift (b ∷ s) = rw (unshift-shift s) (ap (λ x. x ∷ s) (omega arith))

shift-IsFreeOf : (s : Text) → IsFreeOf 46 (shift s)
shift-IsFreeOf [] = tt
shift-IsFreeOf (b ∷ s) = (ground arith, shift-IsFreeOf s)

pub simple-RoundTrips : RoundTrips simple ann_claims
simple-RoundTrips = record {
  decoded = λ s. ap some (unshift-shift s);
  no_dot = shift-IsFreeOf;
  unmarshalled = refl;
}

verify_session-sign_session_example :
    verify_session simple (sign_session simple ann_claims (codes "key")) (codes "key") noon
    ≡ valid ann_claims
verify_session-sign_session_example =
    verify_session-sign_session simple ann_claims simple-RoundTrips (codes "key") noon refl

verify_session-IsSigned_example :
    IsSigned simple (sign_session simple ann_claims (codes "key")) (codes "key") noon ann_claims
verify_session-IsSigned_example =
    verify_session-IsSigned simple (sign_session simple ann_claims (codes "key")) (codes "key") noon
      ann_claims verify_session-sign_session_example
