-- ===== src/Auth/Session.antt =====
-- Which tokens VerifySession (auth.go of internal/auth) accepts.
use phlox_gw.Common.{
  ℕ, ◌≡◌, refl, sym, ap, ◌∙◌, inl, inr, true, false, some, List, [], ◌∷◌, ◌++◌, append_assoc, All,
  ◌==◌, arith, Bool-cases, Option-cases,
}
use phlox_gw.Common.Int.{pos, leb_ℤ}
use phlox_gw.Common.Text.{Text, text_eq, text_eq_iff, text_eq_refl}
use phlox_gw.Common.Text.Split.{split_after, split, join}
use phlox_gw.Store.Types.{Time}
use phlox_gw.Auth.{
  Claims, Codecs, valid, sign, signing_input, sign_session, verify_parts, verify_session,
  read_claims, unexpired,
}

abbrev pub IsFreeOf : ℕ → Text → Type 0
IsFreeOf c s = All (λ b. (b == c) ≡ false) s

split_after_free : (c : ℕ) (s : Text) → IsFreeOf c s → split_after c s ≡ (s, [])
unfolding split_after
split_after_free c [] h = refl
split_after_free c (b ∷ s) (e, h) = rw (split_after_free c s h, e) refl

split_after_append :
    (c : ℕ) (x s : Text)
    → (c == c) ≡ true
    → IsFreeOf c x
    → split_after c (x ++ c ∷ s) ≡ (x, split c s)
unfolding split_after split
split_after_append c [] s r h = rw r refl
split_after_append c (b ∷ x) s r (e, h) = rw (split_after_append c x s r h, e) refl

-- Three parts without a dot are split apart.
split_three :
    (x y z : Text)
    → IsFreeOf 46 x
    → IsFreeOf 46 y
    → IsFreeOf 46 z
    → split 46 ((x ++ 46 ∷ y) ++ 46 ∷ z) ≡ x ∷ y ∷ z ∷ []
unfolding split
split_three x y z hx hy hz =
    rw
      (
        append_assoc x (46 ∷ y) (46 ∷ z),
        split_after_append 46 x (y ++ 46 ∷ z) refl hx,
        split_after_append 46 y z refl hy,
        split_after_free 46 z hz,
      )
      refl

-- What base64 and json do: decoding undoes encoding, and no encoded text has a dot.
pub record RoundTrips (k : Codecs) (c : Claims) : Type 0 where
  pub decoded : (s : Text) → k.decode_string (k.encode_to_string s) ≡ some s
  pub no_dot : (s : Text) → IsFreeOf 46 (k.encode_to_string s)
  pub unmarshalled : k.unmarshal (k.marshal c) ≡ some c

-- If encoded texts have no dot and are decoded to what was encoded, as are the claims, a token that was signed is valid until the claims
-- expire, under the secret that it was signed with.
pub verify_session-sign_session :
    (k : Codecs) (c : Claims)
    → RoundTrips k c
    → (secret : Text) (now : Time) → leb_ℤ c.expires (pos now.sec) ≡ false
    → verify_session k (sign_session k c secret) secret now ≡ valid c
unfolding verify_session sign_session sign
verify_session-sign_session k c r secret now e =
    let h = k.encode_to_string k.marshal_header in
    let p = k.encode_to_string (k.marshal c) in
    let s = k.encode_to_string (k.mac (signing_input k h p) secret) in
    rw
      (
        split_three h p s (r.no_dot k.marshal_header) (r.no_dot (k.marshal c)) (r.no_dot _),
        text_eq_refl s,
        read_claims,
        r.decoded (k.marshal c),
        r.unmarshalled,
        e,
      )
      refl

join_first :
    (c : ℕ) (x : Text) (xs : List Text) (b : ℕ) → join c ((b ∷ x) ∷ xs) ≡ b ∷ join c (x ∷ xs)
unfolding join
join_first c x [] b = refl
join_first c x (y ∷ xs) b = refl

join-split : (c : ℕ) (s : Text) → join c (split c s) ≡ s
unfolding join split split_after
join-split c [] = refl
join-split c (b ∷ s) =
    let (part, rest) = split_after c s in
    let same = join-split c s in
    elim (Bool-cases (b == c)) [
      | inl e ↦
          let same_byte : c ≡ b = ground arith in
          rw e (ap (λ x. x ∷ join c (part ∷ rest)) same_byte ∙ ap (λ t. b ∷ t) same)
      | inr e ↦ rw e (join_first c part rest b ∙ ap (λ t. b ∷ t) same)
    ]

-- What makes the parts of a token valid.
pub record IsSigned (k : Codecs) (token secret : Text) (now : Time) (c : Claims) : Type 0 where
  pub header : Text
  pub claims : Text
  pub payload : Text
  pub is_token :
      token ≡ signing_input k header claims ++ 46 ∷ sign k (signing_input k header claims) secret
  pub decoded : k.decode_string claims ≡ some payload
  pub unmarshalled : k.unmarshal payload ≡ some c
  pub unexpired : leb_ℤ c.expires (pos now.sec) ≡ false

valid_same : (a b : Claims) → valid a ≡ valid b → a ≡ b
valid_same a b e = cc

read_claims_valid :
    (k : Codecs) (claims : Text) (now : Time) (c : Claims)
    → read_claims k claims now ≡ valid c
    → (payload : Text) × (k.decode_string claims ≡ some payload)
      × (k.unmarshal payload ≡ some c)
      × (leb_ℤ c.expires (pos now.sec) ≡ false)
read_claims_valid k claims now c h = elim (Option-cases (k.decode_string claims)) [
  | inl e ↦ let h' = rw (read_claims, e) at h in absurd (ground arith)
  | inr (payload, e) ↦ elim (Option-cases (k.unmarshal payload)) [
    | inl f ↦ let h' = rw (read_claims, e, f) at h in absurd (ground arith)
    | inr (c', f) ↦
        let g = unexpired_valid c' now c (rw (read_claims, e, f) at h) in
        (payload, e, f ∙ ap some g.0, g.1)
  ]
]
  where
    unexpired_valid :
        (c' : Claims) (now : Time) (c : Claims)
        → unexpired k c' now ≡ valid c
        → (c' ≡ c) × (leb_ℤ c.expires (pos now.sec) ≡ false)
    unexpired_valid c' now c h = elim (Bool-cases (leb_ℤ c'.expires (pos now.sec))) [
      | inl e ↦ let h' = rw (unexpired, e) at h in absurd (ground arith)
      | inr e ↦
          let same : c' ≡ c = valid_same c' c (rw (unexpired, e) at h) in
          (same, ap (λ x. leb_ℤ x.expires (pos now.sec)) (sym same) ∙ e)
    ]

parts_valid :
    (k : Codecs) (parts : List Text) (secret : Text) (now : Time) (c : Claims)
    → verify_parts k parts secret now ≡ valid c
    → (h : Text) × (p : Text) × (parts ≡ h ∷ p ∷ sign k (signing_input k h p) secret ∷ [])
      × (read_claims k p now ≡ valid c)
parts_valid k [] secret now c e = absurd (ground arith)
parts_valid k (x ∷ []) secret now c e = absurd (ground arith)
parts_valid k (x ∷ y ∷ []) secret now c e = absurd (ground arith)
parts_valid k (x ∷ y ∷ z ∷ w ∷ ws) secret now c e = absurd (ground arith)
parts_valid k (x ∷ y ∷ z ∷ []) secret now c e =
    elim (Bool-cases (text_eq z (sign k (signing_input k x y) secret))) [
      | inl m ↦ (x, y, ap (λ t. x ∷ y ∷ t ∷ []) ((text_eq_iff z _).0 m), (rw m at e))
      | inr m ↦ let e' = rw m at e in absurd (ground arith)
    ]

-- A token that is accepted is the signing input of its first two parts with their signature under the
-- secret, its payload decodes to the claims that are returned, and they have not expired.
pub verify_session-IsSigned :
    (k : Codecs) (token secret : Text) (now : Time) (c : Claims)
    → verify_session k token secret now ≡ valid c
    → IsSigned k token secret now c
unfolding verify_session join
verify_session-IsSigned k token secret now c e =
    let (h, p, parts, r) = parts_valid k (split 46 token) secret now c e in
    let (payload, decoded, unmarshalled, fresh) = read_claims_valid k p now c r in
    record {
      header = h;
      claims = p;
      payload = payload;
      is_token = sym (join-split 46 token) ∙ (ap (join 46) parts ∙ joined h p);
      decoded = decoded;
      unmarshalled = unmarshalled;
      unexpired = fresh;
    }
  where
    joined :
        (h p : Text)
        → join 46 (h ∷ p ∷ sign k (signing_input k h p) secret ∷ [])
          ≡ signing_input k h p ++ 46 ∷ sign k (signing_input k h p) secret
    joined h p = sym (append_assoc h (46 ∷ p) (46 ∷ sign k (signing_input k h p) secret))
