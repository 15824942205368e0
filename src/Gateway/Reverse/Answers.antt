-- ===== src/Gateway/Reverse/Answers.antt =====
-- bridge_anthropic_openai.go: a chat completion as an answer of the Messages API, and the call that
-- is made through this translation.
use phlox_gw.Common.{ℕ, Bool, true, not, ◌||◌, ◌&&◌, some, List, [], ◌∷◌, ◌++◌, if◌then◌else◌}
use phlox_gw.Common.Int.{pos, ltb_ℤ, leb_ℤ}
use phlox_gw.Common.Text.{Text, codes, text_eq}
use phlox_gw.Common.Text.Trim.{trim_space}
use phlox_gw.Store.Types.{RoutedModel}
use phlox_gw.Gateway.Json.{Json, null, string, array, object, Items, nil, cons, Members, end}
use phlox_gw.Gateway.Fields.{
  field, text_of, object_of, items_of, is_text, entry, words_of, array_of, is_blank, first_present,
  int_value, number_of,
}
use phlox_gw.Gateway.Usage.{UpstreamResult}
use phlox_gw.Gateway.Bridge.{Translated, done, failed, then_translate, Outer}
use phlox_gw.Gateway.Bridge.Messages.{text_block, assistant_calls}
use phlox_gw.Gateway.Bridge.Retries.{call_open_ai_with_param_retry, body_text}
use phlox_gw.Gateway.Bridge.Answers.{marshalled_or, decoded_map, or_text}
use phlox_gw.Gateway.Bridge.Calls.{bridge_error, provider_error_text}
use phlox_gw.Gateway.Reverse.Requests.{anthropic_request_to_open_ai}

unfoldable pub anthropic_stop_reason : Text → Text
unfolding text_eq
anthropic_stop_reason reason =
    if text_eq reason (codes "length")
    then codes "max_tokens"
    else if text_eq reason (codes "tool_calls")
    then codes "tool_use"
    else if text_eq reason (codes "content_filter")
    then codes "refusal"
    else codes "end_turn"

unfoldable pub anthropic_text_content_empty : List Members → Bool
unfolding field trim_space
anthropic_text_content_empty [] = true
anthropic_text_content_empty (b ∷ bs) =
    is_blank (text_of (field "text" b)) && anthropic_text_content_empty bs

abbrev pub empty_text : List Members
empty_text = text_block [] ∷ []

abbrev pub or_empty_text : List Members → List Members
or_empty_text [] = empty_text
or_empty_text (b ∷ bs) = b ∷ bs

unfoldable pub content_text_blocks : Items → List Members
unfolding field
content_text_blocks nil = []
content_text_blocks (cons x xs) =
    let rest = content_text_blocks xs in
    let block = object_of x in
    if is_text "text" (field "type" block)
    then text_block (text_of (field "text" block)) ∷ rest
    else rest

unfoldable pub open_ai_content_to_anthropic : Json → List Members
unfolding content_text_blocks
open_ai_content_to_anthropic (string s) = text_block s ∷ []
open_ai_content_to_anthropic (array xs) = or_empty_text (content_text_blocks xs)
open_ai_content_to_anthropic _ = empty_text

-- openAIToolCallsToAnthropic: the ids drawn, and the blocks.
unfoldable pub open_ai_tool_calls_to_anthropic : Outer → ℕ → Json → Translated (ℕ × List Members)
unfolding assistant_calls
open_ai_tool_calls_to_anthropic out n value = assistant_calls out n (items_of value)

abbrev pub first_item : Items → Json
first_item nil = null
first_item (cons x xs) = x

-- The text, or else the reasoning, of a message.
abbrev pub content_or_reasoning : Members → List Members → List Members
content_or_reasoning message content =
    let reasoning =
      text_of (first_present (codes "reasoning" ∷ codes "reasoning_content" ∷ []) message) in
    if anthropic_text_content_empty content && not (is_blank reasoning)
    then text_block reasoning ∷ []
    else content

abbrev pub with_tools : List Members → List Members → List Members
with_tools content [] = content
with_tools content (t ∷ ts) =
    if anthropic_text_content_empty content then t ∷ ts else content ++ t ∷ ts

abbrev pub answer_content : Members → List Members → List Members
answer_content message tools =
    with_tools
      (content_or_reasoning message (open_ai_content_to_anthropic (field "content" message))) tools

abbrev pub message_usage : Outer → Members → Members
message_usage out usage =
    let input =
      int_value out.whole
        (first_present (codes "prompt_tokens" ∷ codes "input_tokens" ∷ []) usage) in
    let output =
      int_value out.whole
        (first_present (codes "completion_tokens" ∷ codes "output_tokens" ∷ []) usage) in
    entry "input_tokens" (number_of input) (entry "output_tokens" (number_of output) end)

abbrev pub anthropic_message : Outer → Text → Members → ℕ → List Members → Text → Members
anthropic_message out route raw drawn content reason =
    let id = or_text (text_of (field "id" raw)) (codes "msg_" ++ out.fresh drawn) in
    entry "id" (string id) (
      entry "type" (words_of "message") (
        entry "role" (words_of "assistant") (
          entry "model" (string (or_text (text_of (field "model" raw)) route)) (
            entry "content" (array (array_of content)) (
              entry "stop_reason" (string (anthropic_stop_reason reason)) (
                entry "stop_sequence" null (
                  entry "usage" (object (message_usage out (object_of (field "usage" raw))))
                    end)))))))

-- The map that anthropicResponseFromOpenAI builds of an answer that was decoded.
unfoldable pub anthropic_response_from_open_ai : Outer → Text → Members → Translated Members
unfolding anthropic_text_content_empty open_ai_content_to_anthropic open_ai_tool_calls_to_anthropic
    anthropic_stop_reason first_present int_value field trim_space
anthropic_response_from_open_ai out route raw =
    let choice = object_of (first_item (items_of (field "choices" raw))) in
    let message = object_of (field "message" choice) in
    then_translate (open_ai_tool_calls_to_anthropic out 0 (field "tool_calls" message)) (λ r. done (
      anthropic_message out route raw r.0 (answer_content message r.1)
        (text_of (field "finish_reason" choice))))

-- What callAnthropicViaOpenAINonStreaming makes of an answer.
abbrev pub reversed_body : Outer → Text → Text → Translated Text
reversed_body out route body =
    then_translate (decoded_map out body (out.codec.unmarshal body)) (λ raw.
      then_translate (anthropic_response_from_open_ai out route raw)
        (λ m. marshalled_or out (object m)))

abbrev pub reversed_result : Outer → RoutedModel → UpstreamResult → UpstreamResult
reversed_result out route result =
    if ltb_ℤ result.status (pos 200) || leb_ℤ (pos 300) result.status
    then bridge_error route result.status
        (provider_error_text out.codec.unmarshal result.body result.error_text) result.latency_ms
    else elim (reversed_body out route.model.route (body_text result.body)) [
      | failed e ↦
          bridge_error route (pos 502)
            (codes "could not translate OpenAI-compatible response: " ++ e) result.latency_ms
      | done body ↦ record (bridge_error route result.status [] result.latency_ms) {
        headers = some ((codes "Content-Type", codes "application/json") ∷ []);
        body = some body;
      }
    ]

-- callAnthropicViaOpenAINonStreaming, over callOpenAINonStreaming.
unfoldable pub call_anthropic_via_open_ai_non_streaming :
    Outer → (ℕ → Members → UpstreamResult) → RoutedModel → Members → UpstreamResult
unfolding anthropic_request_to_open_ai call_open_ai_with_param_retry provider_error_text
    anthropic_response_from_open_ai
call_anthropic_via_open_ai_non_streaming out call route raw =
    elim (anthropic_request_to_open_ai out raw) [
      | failed e ↦ bridge_error route (pos 400) e (pos 0)
      | done request ↦ reversed_result out route (call_open_ai_with_param_retry call request)
    ]
