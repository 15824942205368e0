-- ===== src/Gateway/Bridge/Retries.antt =====
-- What is done with a request whose parameters a provider rejects: anthropicPayloadForUnsupportedParams
-- (bridge_openai_anthropic.go), openAIPayloadForUnsupportedParams (openai.go) and the loops that call
-- them.
pub mod Attempts
use phlox_gw.Common.{
  ℕ, zero, suc, Bool, true, false, not, ◌&&◌, ◌||◌, Option, none, some, List, [], ◌∷◌, ◌++◌, ltb,
  if◌then◌else◌,
}
use phlox_gw.Common.Int.{ℤ, pos, ltb_ℤ, eq_ℤ}
use phlox_gw.Common.Text.{Text, codes, contains}
use phlox_gw.Gateway.Json.{Json, Members, object}
use phlox_gw.Gateway.Fields.{lookup, has, without, put}
use phlox_gw.Gateway.Usage.{UpstreamResult}

-- Whether a text names a parameter, in back quotes or in quotes.
unfoldable pub names_param : Text → Text → Bool
unfolding contains
names_param body k = contains body (0x60 ∷ k ++ 0x60 ∷ []) || contains body (0x27 ∷ k ++ 0x27 ∷ [])

abbrev pub sampling_keys : List Text
sampling_keys = codes "temperature" ∷ codes "top_p" ∷ codes "top_k" ∷ []

-- The loop on the keys: the payload, and whether it was changed.
unfoldable pub drop_params : Text → List Text → Members → Members × Bool
unfolding names_param lookup without
drop_params body [] payload = (payload, false)
drop_params body (k ∷ ks) payload =
    let kept = drop_params body ks payload in
    let dropped = drop_params body ks (without k payload) in
    if has k payload && names_param body k then (dropped.0, true) else kept

unfoldable pub anthropic_payload_for_unsupported_params : Members → ℤ → Text → Option Members
unfolding drop_params
anthropic_payload_for_unsupported_params payload status body =
    let r = drop_params body sampling_keys payload in
    if eq_ℤ status (pos 400) && r.1 then some r.0 else none

abbrev pub renamed_max_tokens : Text → Members → Members × Bool
renamed_max_tokens body payload =
    if contains body (codes "max_completion_tokens")
    then elim (lookup (codes "max_tokens") payload) [
      | none ↦ (payload, false)
      | some v ↦
          (put (codes "max_completion_tokens") v (without (codes "max_tokens") payload), true)
    ]
    else (payload, false)

abbrev pub without_temperature : Text → Members × Bool → Members × Bool
without_temperature body r =
    if contains body (codes "'temperature'") && has (codes "temperature") r.0
    then (without (codes "temperature") r.0, true)
    else r

unfoldable pub open_ai_payload_for_unsupported_params : Members → ℤ → Text → Option Members
unfolding contains lookup put without
open_ai_payload_for_unsupported_params payload status body =
    let r = without_temperature body (renamed_max_tokens body payload) in
    if eq_ℤ status (pos 400) && r.1 then some r.0 else none

abbrev pub body_text : Option Text → Text
body_text none = []
body_text (some s) = s

module _ (adjust : Members → ℤ → Text → Option Members) where
  -- The loop for attempt := 0; attempt < 2, on the attempts left: calls are numbered from `n`.
  unfoldable pub retry_loop :
      ℕ → (ℕ → Members → UpstreamResult) → ℕ → Members → UpstreamResult → Members × UpstreamResult
  retry_loop zero call n raw result = (raw, result)
  retry_loop (suc left) call n raw result =
      elim (adjust raw result.status (body_text result.body)) [
        | none ↦ (raw, result)
        | some adjusted ↦ retry_loop left call (suc n) adjusted (call n adjusted)
      ]

-- callOpenAINonStreamingWithParamRetry, over callOpenAINonStreaming.
unfoldable pub call_open_ai_with_param_retry :
    (ℕ → Members → UpstreamResult) → Members → UpstreamResult
unfolding retry_loop open_ai_payload_for_unsupported_params
call_open_ai_with_param_retry call raw =
    (retry_loop open_ai_payload_for_unsupported_params 2 call 1 raw (call 0 raw)).1

-- What http.Client.Do and io.ReadAll bring: a request that cannot be made, no answer, or a status with
-- the body, or with the error that reading it gives.
pub data Response : Type 0 where
  no_request : Text → Response
  no_answer : Text → Response
  answered : ℤ → Text → Response
  unreadable : ℤ → Text → Response

-- How the attempts end: with a stream that is to be read, or a status, a body and a message.
pub data Opened : Type 0 where
  opened : ℤ → Members → Opened
  refused : ℤ → Option Text → Text → Opened

-- A round of the loop: its end, or another round with the payload that it adjusted.
pub data Round : Type 0 where
  ended : Opened → Round
  again : Members → Round

-- The body of the error that a provider answers with, and the payload that is tried after it.
abbrev pub after_refusal : ℕ → Opened → Option Members → Round
after_refusal attempt refusal none = ended refusal
after_refusal attempt refusal (some adjusted) =
    if ltb attempt 2 then again adjusted else ended refusal

module _ (marshal : Json → Option Text) (marshal_error : Json → Text) (message : Text → Text)
    (adjust : Members → ℤ → Text → Option Members) (send : ℕ → Text → Response) where
  abbrev pub response_round : ℕ → Members → Response → Round
  response_round attempt raw (no_request e) = ended (refused (pos 500) none e)
  response_round attempt raw (no_answer e) = ended (refused (pos 502) none e)
  response_round attempt raw (unreadable status e) =
      if ltb_ℤ status (pos 400) then ended (opened status raw) else ended (refused status none e)
  response_round attempt raw (answered status text) =
      if ltb_ℤ status (pos 400)
      then ended (opened status raw)
      else after_refusal attempt (refused status (some text) (message text))
          (adjust raw status text)

  -- The body of the loop for attempt := 0; ; attempt++ of proxyOpenAIViaAnthropicStream.
  unfoldable pub stream_round : ℕ → Members → Round
  stream_round attempt raw = elim (marshal (object raw)) [
    | none ↦ ended (refused (pos 500) none (marshal_error (object raw)))
    | some body ↦ response_round attempt raw (send attempt body)
  ]

  -- The loop, which has no bound of its own, on fuel; none is that the fuel ran out.
  unfoldable pub open_stream : ℕ → ℕ → Members → Option Opened
  unfolding stream_round
  open_stream zero attempt raw = none
  open_stream (suc fuel) attempt raw = elim (stream_round attempt raw) [
    | ended r ↦ some r
    | again adjusted ↦ open_stream fuel (suc attempt) adjusted
  ]
