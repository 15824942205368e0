-- ===== src/Gateway/Reverse/Events.antt =====
-- bridge_anthropic_openai.go: the events that proxyOpenAIStreamAsAnthropic writes to the client.
use Prim.Native.String.{String}
use phlox_gw.Common.{ℕ, Option, none, some, List, [], ◌++◌}
use phlox_gw.Common.Int.{ℤ, pos}
use phlox_gw.Common.Text.{Text, codes}
use phlox_gw.Store.Types.{GuardrailPolicy}
use phlox_gw.Gateway.Json.{Json, null, string, array, object, nil, Members, end}
use phlox_gw.Gateway.Fields.{entry, words_of, number_of}
use phlox_gw.Gateway.Rules.{Regexp}
use phlox_gw.Gateway.Guardrails.Bodies.{apply_guardrail_to_stream_payload}
use phlox_gw.Gateway.Usage.{TokenUsage}
use phlox_gw.Gateway.Bridge.{Outer}

-- Content blocks have numbers: a block starts, has deltas, and stops.
pub data Event : Type 0 where
  message_start : Event
  text_start : ℕ → Event
  tool_start : ℕ → Text → Text → Event
  text_delta : ℕ → Text → Event
  input_delta : ℕ → Text → Event
  block_stop : ℕ → Event
  message_delta : Text → ℤ → Event
  message_stop : Event

-- What the stream has from outside, as in the other direction: `usage` is parseOpenAIUsage, `estimate`
-- estimateOpenAIStreamOutputTokens.
pub record Client : Type 0 where
  pub outer : Outer
  pub route : Text
  pub id : Text
  pub input_tokens : ℤ
  pub regexp : Regexp
  pub policy : GuardrailPolicy
  pub write : List Event → Text → ℕ × Option Text
  pub usage : Text → TokenUsage
  pub estimate : Text → ℤ

unfoldable pub event_name : Event → Text
event_name message_start = codes "message_start"
event_name (text_start i) = codes "content_block_start"
event_name (tool_start i id name) = codes "content_block_start"
event_name (text_delta i t) = codes "content_block_delta"
event_name (input_delta i t) = codes "content_block_delta"
event_name (block_stop i) = codes "content_block_stop"
event_name (message_delta reason n) = codes "message_delta"
event_name message_stop = codes "message_stop"

abbrev of_block : ℕ → String → Members → Members
of_block i k m = entry "index" (number_of (pos i)) (entry k (object m) end)

abbrev started_message : Client → Members
started_message c =
    let usage =
      entry "input_tokens" (number_of c.input_tokens)
        (entry "output_tokens" (number_of (pos 0)) end) in
    entry "id" (string c.id) (
      entry "type" (words_of "message") (
        entry "role" (words_of "assistant") (
          entry "model" (string c.route) (
            entry "content" (array nil) (
              entry "stop_reason" null
                (entry "stop_sequence" null (entry "usage" (object usage) end)))))))

-- The entries of an event beside its type.
unfoldable pub event_fields : Client → Event → Members
event_fields c message_start = entry "message" (object (started_message c)) end
event_fields c (text_start i) =
    of_block i "content_block" (entry "type" (words_of "text") (entry "text" (string []) end))
event_fields c (tool_start i id name) = of_block i "content_block" (
    entry "type" (words_of "tool_use")
      (entry "id" (string id) (entry "name" (string name) (entry "input" (object end) end))))
event_fields c (text_delta i t) =
    of_block i "delta" (entry "type" (words_of "text_delta") (entry "text" (string t) end))
event_fields c (input_delta i t) =
    of_block i "delta"
      (entry "type" (words_of "input_json_delta") (entry "partial_json" (string t) end))
event_fields c (block_stop i) = entry "index" (number_of (pos i)) end
event_fields c (message_delta reason n) =
    entry "delta" (object (entry "stop_reason" (string reason) (entry "stop_sequence" null end)))
      (entry "usage" (object (entry "output_tokens" (number_of n) end)) end)
event_fields c message_stop = end

abbrev pub payload_of : Client → Event → Json
payload_of c e = object (
    apply_guardrail_to_stream_payload c.regexp c.policy
      (entry "type" (string (event_name e)) (event_fields c e)))

-- The bytes of an event; none is an error of json.Marshal.
unfoldable pub frame : Client → Event → Option Text
unfolding event_name event_fields apply_guardrail_to_stream_payload
frame c e = elim (c.outer.codec.marshal (payload_of c e)) [
  | none ↦ none
  | some body ↦
      some (codes "event: " ++ (event_name e ++ (codes "\ndata: " ++ (body ++ codes "\n\n"))))
]
