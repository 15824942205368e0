-- ===== src/Gateway/Bridge/Calls.antt =====
-- bridge_openai_anthropic.go: the call of an Anthropic provider for an OpenAI client, with
-- providerErrorText of anthropic.go.
use phlox_gw.Common.{ℕ, Option, none, some, [], ◌∷◌, ◌++◌, ◌||◌, if◌then◌else◌}
use phlox_gw.Common.Int.{ℤ, pos, ltb_ℤ, leb_ℤ}
use phlox_gw.Common.Text.{Text, codes, is_empty}
use phlox_gw.Store.Types.{RoutedModel}
use phlox_gw.Gateway.Json.{Json, object, Members}
use phlox_gw.Gateway.Fields.{field, text_of, object_of, fallback_string}
use phlox_gw.Gateway.Usage.{UpstreamResult}
use phlox_gw.Gateway.Bridge.{done, failed, Outer}
use phlox_gw.Gateway.Bridge.Requests.{open_ai_request_to_anthropic}
use phlox_gw.Gateway.Bridge.Retries.{
  retry_loop, anthropic_payload_for_unsupported_params, body_text,
}
use phlox_gw.Gateway.Bridge.Answers.{open_ai_response_from_anthropic, response_body}

abbrev pub bridge_error : RoutedModel → ℤ → Text → ℤ → UpstreamResult
bridge_error route status text latency_ms = record {
  route = some route;
  protocol = codes "anthropic";
  status = status;
  headers = none;
  body = none;
  error_text = text;
  latency_ms = latency_ms;
}

abbrev pub nonempty : Text → Option Text
nonempty s = if is_empty s then none else some s

abbrev pub or_else : Option Text → Text → Text
or_else none s = s
or_else (some t) s = t

-- The message in a body: that of its error, or its own.
abbrev pub message_in : Members → Option Text
message_in raw = elim (nonempty (text_of (field "message" (object_of (field "error" raw))))) [
  | some m ↦ some m
  | none ↦ nonempty (text_of (field "message" raw))
]

unfoldable pub provider_error_text : (Text → Option Json) → Option Text → Text → Text
unfolding fallback_string field
provider_error_text unmarshal none fallback =
    fallback_string fallback (codes "provider unavailable")
provider_error_text unmarshal (some []) fallback =
    fallback_string fallback (codes "provider unavailable")
provider_error_text unmarshal (some (b ∷ s)) fallback = elim (unmarshal (b ∷ s)) [
  | some (object raw) ↦ or_else (message_in raw) (fallback_string fallback (b ∷ s))
  | _ ↦ fallback_string fallback (b ∷ s)
]

-- The result that callOpenAIViaAnthropicNonStreaming makes of the last answer.
abbrev pub bridged_result : Outer → RoutedModel → ℤ → UpstreamResult → UpstreamResult
bridged_result out route created result =
    if ltb_ℤ result.status (pos 200) || leb_ℤ (pos 300) result.status
    then bridge_error route result.status
        (provider_error_text out.codec.unmarshal result.body result.error_text) result.latency_ms
    else elim (response_body out route.model.route created (body_text result.body)) [
      | failed e ↦
          bridge_error route (pos 502) (codes "could not translate Anthropic response: " ++ e)
            result.latency_ms
      | done body ↦ record (bridge_error route result.status [] result.latency_ms) {
        headers = some ((codes "Content-Type", codes "application/json") ∷ []);
        body = some body;
      }
    ]

-- callOpenAIViaAnthropicNonStreaming, over callAnthropicNonStreaming and the time.
unfoldable pub call_open_ai_via_anthropic_non_streaming :
    Outer → (ℕ → Members → UpstreamResult) → ℤ → RoutedModel → Members → UpstreamResult
unfolding open_ai_request_to_anthropic retry_loop anthropic_payload_for_unsupported_params
    open_ai_response_from_anthropic provider_error_text
call_open_ai_via_anthropic_non_streaming out call created route raw =
    elim (open_ai_request_to_anthropic out raw) [
      | failed e ↦ bridge_error route (pos 400) e (pos 0)
      | done request ↦
          bridged_result out route created
            (retry_loop anthropic_payload_for_unsupported_params 2 call 1 request
              (call 0 request)).1
    ]
