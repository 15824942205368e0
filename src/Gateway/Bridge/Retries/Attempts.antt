-- ===== src/Gateway/Bridge/Retries/Attempts.antt =====
-- The retries of a request whose parameters are rejected: each removes a parameter, and the loop
-- of proxyOpenAIViaAnthropicStream (bridge_openai_anthropic.go) ends.
use phlox_gw.Common.{
  ℕ, zero, suc, Bool, true, false, ◌&&◌, Option, none, some, List, [], ◌∷◌, ltb, ◌≡◌, refl, ◌+◌,
  ◌<◌, inl, inr, ◌∙◌, ap, ◌⊎◌, any, Bool-cases, Option-cases, arith, if◌then◌else◌,
}
use mathlib.Core.Path.{subst}
use phlox_gw.Common.Int.{ℤ, pos, ltb_ℤ}
use phlox_gw.Common.Text.{Text, text_eq, text_eq_iff}
use phlox_gw.Gateway.Json.{Json, Members, object, end, member}
use phlox_gw.Gateway.Fields.{lookup, has, without}
use phlox_gw.Gateway.Bridge.Retries.{
  names_param, sampling_keys, drop_params, anthropic_payload_for_unsupported_params, Response,
  no_request, no_answer, answered, unreadable, Opened, opened, refused, open_stream, Round, ended,
  again, after_refusal, response_round, stream_round,
}

lookup-without :
    (k k' : Text) (m : Members) → text_eq k k' ≡ false → lookup k (without k' m) ≡ lookup k m
unfolding lookup without
lookup-without k k' end h = refl
lookup-without k k' (member j v m) h = elim (Bool-cases (text_eq k' j)) [
  | inl e ↦
      let here : text_eq k j ≡ false = rw ((text_eq_iff k' j).0 e) at h in
      rw (e, here) (lookup-without k k' m h)
  | inr e ↦ rw e (ap (λ x. if text_eq k j then some v else x) (lookup-without k k' m h))
]

-- A key that is none of those.
abbrev pub IsOther : List Text → Text → Type 0
IsOther ks k = any (text_eq k) ks ≡ false

drop_params-lookup :
    (body : Text) (ks : List Text) (m : Members) (k : Text)
    → IsOther ks k
    → lookup k (drop_params body ks m).0 ≡ lookup k m
unfolding drop_params
drop_params-lookup body [] m k h = refl
drop_params-lookup body (j ∷ js) m k h =
    let other : IsOther js k = ground (arith, h) in
    let differs : text_eq k j ≡ false = ground (arith, h) in
    elim (Bool-cases (has j m && names_param body j)) [
      | inl e ↦
          rw e (drop_params-lookup body js (without j m) k other ∙ lookup-without k j m differs)
      | inr e ↦ rw e (drop_params-lookup body js m k other)
    ]

-- What anthropicPayloadForUnsupportedParams leaves alone.
adjusted-lookup :
    (m m' : Members) (status : ℤ) (body : Text)
    → anthropic_payload_for_unsupported_params m status body ≡ some m'
    → (k : Text) → IsOther sampling_keys k
    → lookup k m' ≡ lookup k m
unfolding anthropic_payload_for_unsupported_params
adjusted-lookup m m' status body h k other =
    let same : (drop_params body sampling_keys m).0 ≡ m' = ground (arith, h) in
    rw (← same) (drop_params-lookup body sampling_keys m k other)

Round-cases : (r : Round) → ((o : Opened) × (r ≡ ended o)) ⊎ ((m : Members) × (r ≡ again m))
Round-cases (ended o) = inl (o, refl)
Round-cases (again m) = inr (m, refl)

-- What the payload that a stream was opened with satisfies.
abbrev pub Opens {κ} : (Members → Type κ) → Opened → Type κ
Opens P (opened status m) = P m
Opens P (refused status body text) = Unit

abbrev Ends {κ} : (Members → Type κ) → Round → Type κ
Ends P (ended o) = Opens P o
Ends P (again m) = Unit

module _ {κ} (P : Members → Type κ) where
  if-Ends : (b : Bool) (r s : Round) → Ends P r → Ends P s → Ends P (if b then r else s)
  if-Ends true r s h k = h
  if-Ends false r s h k = k

  after_refusal-Ends :
      (attempt : ℕ) (status : ℤ) (body : Option Text) (text : Text) (o : Option Members)
      → Ends P (after_refusal attempt (refused status body text) o)
  after_refusal-Ends attempt status body text none = tt
  after_refusal-Ends attempt status body text (some m) =
      if-Ends (ltb attempt 2) (again m) (ended (refused status body text)) tt tt

after_refusal-again :
    (attempt : ℕ) (refusal : Opened) (o : Option Members) (raw' : Members)
    → after_refusal attempt refusal o ≡ again raw'
    → (attempt < 2) × (o ≡ some raw')
after_refusal-again attempt refusal none raw' h = absurd (ground arith)
after_refusal-again attempt refusal (some r) raw' h = ground arith

module _ (marshal : Json → Option Text) (marshal_error : Json → Text) (message : Text → Text)
    (adjust : Members → ℤ → Text → Option Members) (send : ℕ → Text → Response) where
  -- Another round follows the first two alone, with the payload that was adjusted for an answer.
  abbrev Continues : ℕ → Members → Members → Type 0
  Continues attempt raw raw' =
      (attempt < 2) × ((status : ℤ) × ((text : Text) × (adjust raw status text ≡ some raw')))

  response_round-again :
      (attempt : ℕ) (raw raw' : Members) (r : Response)
      → response_round marshal marshal_error message adjust send attempt raw r ≡ again raw'
      → Continues attempt raw raw'
  response_round-again attempt raw raw' (no_request e) h = absurd (ground arith)
  response_round-again attempt raw raw' (no_answer e) h = absurd (ground arith)
  response_round-again attempt raw raw' (unreadable status e) h = absurd (ground arith)
  response_round-again attempt raw raw' (answered status text) h =
      elim (Bool-cases (ltb_ℤ status (pos 400))) [
        | inl e ↦ absurd (let h' = rw e at h in ground arith)
        | inr e ↦
            let (first, same) =
              after_refusal-again attempt (refused status (some text) (message text))
                (adjust raw status text) raw' (rw e at h) in
            (first, (status, (text, same)))
      ]

  stream_round-again :
      (attempt : ℕ) (raw raw' : Members)
      → stream_round marshal marshal_error message adjust send attempt raw ≡ again raw'
      → Continues attempt raw raw'
  unfolding stream_round
  stream_round-again attempt raw raw' h = elim (Option-cases (marshal (object raw))) [
    | inl e ↦ absurd (let h' = rw (e, stream_round) at h in ground arith)
    | inr (body, e) ↦
        response_round-again attempt raw raw' (send attempt body) (rw (e, stream_round) at h)
  ]

  module _ {κ} (P : Members → Type κ) where
    response_round-Ends :
        (attempt : ℕ) (raw : Members) (r : Response)
        → P raw
        → Ends P (response_round marshal marshal_error message adjust send attempt raw r)
    response_round-Ends attempt raw (no_request e) h = tt
    response_round-Ends attempt raw (no_answer e) h = tt
    response_round-Ends attempt raw (unreadable status e) h =
        if-Ends P (ltb_ℤ status (pos 400)) (ended (opened status raw))
          (ended (refused status none e)) h tt
    response_round-Ends attempt raw (answered status text) h =
        if-Ends P (ltb_ℤ status (pos 400)) (ended (opened status raw))
          (after_refusal attempt (refused status (some text) (message text))
            (adjust raw status text))
          h
          (after_refusal-Ends P attempt status (some text) (message text) (adjust raw status text))

    stream_round-Ends :
        (attempt : ℕ) (raw : Members)
        → P raw
        → Ends P (stream_round marshal marshal_error message adjust send attempt raw)
    unfolding stream_round
    stream_round-Ends attempt raw h = elim (Option-cases (marshal (object raw))) [
      | inl e ↦ rw (stream_round, e) tt
      | inr (body, e) ↦ rw (stream_round, e) (response_round-Ends attempt raw (send attempt body) h)
    ]

    -- Whatever is adjusted keeps `P`: then the loop ends within three attempts, and a stream is
    -- opened with a payload of which `P` holds.
    open_stream-Opens :
        ((m m' : Members) (status : ℤ) (text : Text) → adjust m status text ≡ some m' → P m → P m')
        → (fuel attempt : ℕ) (raw : Members) → 2 < fuel + attempt
        → attempt < 3
        → P raw
        → (o : Opened) × ((open_stream marshal marshal_error message adjust send fuel attempt raw
              ≡ some o)
            × Opens P o)
    unfolding open_stream
    open_stream-Opens keep zero attempt raw f l h = absurd (omega arith)
    open_stream-Opens keep (suc fuel) attempt raw f l h =
        elim (Round-cases (stream_round marshal marshal_error message adjust send attempt raw)) [
          | inl (o, e) ↦
              (o, (rw (open_stream, e) refl, subst (Ends P) e (stream_round-Ends attempt raw h)))
          | inr (m, e) ↦
              let (first, (status, (text, adj))) = stream_round-again attempt raw m e in
              let (o, (same, opens)) =
                open_stream-Opens keep fuel (suc attempt) m (omega arith) (omega arith)
                  (keep raw m status text adj h) in
              (o, (rw (open_stream, e) same, opens))
        ]

-- Whatever a provider answers, proxyOpenAIViaAnthropicStream sends a request at most three times
-- before it reads a stream or gives up, although its loop has no bound of its own; and a stream is
-- opened with a body that has the value of the first body under each key but temperature, top_p and
-- top_k.
pub open_stream-ends :
    (marshal : Json → Option Text) (marshal_error : Json → Text) (message : Text → Text)
    (send : ℕ → Text → Response) (raw : Members)
    → (o : Opened) × ((open_stream marshal marshal_error message
            anthropic_payload_for_unsupported_params send 3 0 raw
          ≡ some o)
        × Opens (λ m. (k : Text) → IsOther sampling_keys k → lookup k m ≡ lookup k raw) o)
open_stream-ends marshal marshal_error message send raw =
    open_stream-Opens marshal marshal_error message anthropic_payload_for_unsupported_params send
      (λ m. (k : Text) → IsOther sampling_keys k → lookup k m ≡ lookup k raw)
      (λ m m' status text e h k other. adjusted-lookup m m' status text e k other ∙ h k other) 3 0
      raw (omega arith) (omega arith) (λ k other. refl)
