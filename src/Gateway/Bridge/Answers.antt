-- ===== src/Gateway/Bridge/Answers.antt =====
-- bridge_openai_anthropic.go: an answer of the Messages API as a chat completion, and the call that
-- is made through this translation.
pub mod RoundTrip
use phlox_gw.Common.{
  ℕ, suc, Bool, true, false, Option, none, some, List, [], ◌∷◌, ◌++◌, ◌||◌, if◌then◌else◌,
}
use phlox_gw.Common.Int.{ℤ, pos, ltb_ℤ, leb_ℤ, ◌+ℤ◌}
use phlox_gw.Common.Text.{Text, codes, text_eq, is_empty}
use phlox_gw.Common.Text.Trim.{trim_space}
use phlox_gw.Store.Types.{RoutedModel}
use phlox_gw.Gateway.Json.{
  Json, null, boolean, number, string, array, object, Items, nil, cons, Members, end,
}
use phlox_gw.Gateway.Fields.{
  field, text_of, object_of, items_of, is_text, entry, words_of, array_of, is_blank,
  fallback_string, int_value, number_of, optional, join_by,
}
use phlox_gw.Gateway.Usage.{UpstreamResult}
use phlox_gw.Gateway.Bridge.{Translated, done, failed, then_translate, Outer}
use phlox_gw.Gateway.Bridge.Messages.{tool_id}
use phlox_gw.Gateway.Bridge.Requests.{open_ai_request_to_anthropic}
use phlox_gw.Gateway.Bridge.Retries.{
  retry_loop, anthropic_payload_for_unsupported_params, body_text,
}

unfoldable pub open_ai_finish_reason_from_anthropic : Text → Text
unfolding text_eq
open_ai_finish_reason_from_anthropic reason =
    if text_eq reason (codes "max_tokens")
    then codes "length"
    else if text_eq reason (codes "tool_use")
    then codes "tool_calls"
    else if text_eq reason (codes "refusal")
    then codes "content_filter"
    else codes "stop"

abbrev pub marshalled_or : Outer → Json → Translated Text
marshalled_or out v = elim (out.codec.marshal v) [
  | none ↦ failed (out.marshal_error v)
  | some t ↦ done t
]

-- anthropicToolUseArguments of bridge_anthropic_openai.go
unfoldable pub anthropic_tool_use_arguments : Outer → Json → Translated Text
unfolding trim_space
anthropic_tool_use_arguments out null = done (codes "{}")
anthropic_tool_use_arguments out (string s) = done (if is_blank s then codes "{}" else s)
anthropic_tool_use_arguments out (boolean b) = marshalled_or out (boolean b)
anthropic_tool_use_arguments out (number t) = marshalled_or out (number t)
anthropic_tool_use_arguments out (array xs) = marshalled_or out (array xs)
anthropic_tool_use_arguments out (object m) = marshalled_or out (object m)

abbrev pub tool_call : Outer → ℕ → Members → Text → Members
tool_call out n block args =
    entry "id" (string (fallback_string (text_of (field "id" block)) (tool_id out n))) (
      entry "type" (words_of "function") (
        entry "function"
          (object (
            entry "name" (string (fallback_string (text_of (field "name" block)) (codes "tool")))
              (entry "arguments" (string args) end)))
          end))

-- What the loop on the blocks gathers, with the number of ids drawn.
pub record Parts : Type 0 where
  pub drawn : ℕ
  pub texts : List Text
  pub calls : List Members

abbrev pub with_text : Text → Parts → Parts
with_text t p = if is_empty t then p else record p { texts = t ∷ p.texts }

unfoldable pub answer_parts : Outer → ℕ → Items → Translated Parts
unfolding anthropic_tool_use_arguments fallback_string field text_eq
answer_parts out n nil = done (record { drawn = n; texts = []; calls = [] })
answer_parts out n (cons x xs) =
    let same = answer_parts out n xs in
    let next = answer_parts out (suc n) xs in
    let block = object_of x in
    if is_text "text" (field "type" block)
    then then_translate same (λ p. done (with_text (text_of (field "text" block)) p))
    else if is_text "tool_use" (field "type" block)
    then then_translate (anthropic_tool_use_arguments out (field "input" block)) (λ args.
      then_translate next (λ p. done (record p { calls = tool_call out n block args ∷ p.calls })))
    else same

abbrev pub content_of : List Text → List Members → Json
content_of [] (_ ∷ _) = null
content_of ts _ = string (join_by (codes "\n") ts)

abbrev pub calls_or_none : List Members → Option Json
calls_or_none [] = none
calls_or_none (c ∷ cs) = some (array (array_of (c ∷ cs)))

abbrev pub answer_message : Parts → Members
answer_message p = entry "role" (words_of "assistant") (
    entry "content" (content_of p.texts p.calls)
      (optional "tool_calls" (calls_or_none p.calls) end))

abbrev pub or_text : Text → Text → Text
or_text s fallback = if is_empty s then fallback else s

abbrev pub usage_of : ℤ → ℤ → Members
usage_of input output = entry "prompt_tokens" (number_of input) (
    entry "completion_tokens" (number_of output)
      (entry "total_tokens" (number_of (input +ℤ output)) end))

abbrev pub completion : Outer → Text → ℤ → Members → Parts → Members
completion out route created raw p =
    let usage = object_of (field "usage" raw) in
    let id = or_text (text_of (field "id" raw)) (codes "chatcmpl_" ++ out.fresh p.drawn) in
    let reason = open_ai_finish_reason_from_anthropic (text_of (field "stop_reason" raw)) in
    entry "id" (string id) (
      entry "object" (words_of "chat.completion") (
        entry "created" (number_of created) (
          entry "model" (string (or_text (text_of (field "model" raw)) route)) (
            entry "choices"
              (array (
                cons
                  (object (
                    entry "index" (number_of (pos 0)) (
                      entry "message" (object (answer_message p))
                        (entry "finish_reason" (string reason) end))))
                  nil))
              (entry "usage"
                (object (
                  usage_of (int_value out.whole (field "input_tokens" usage))
                    (int_value out.whole (field "output_tokens" usage))))
                end)))))

-- The map that openAIResponseFromAnthropic builds of an answer that was decoded.
unfoldable pub open_ai_response_from_anthropic : Outer → Text → ℤ → Members → Translated Members
unfolding answer_parts field open_ai_finish_reason_from_anthropic int_value join_by ◌+ℤ◌
open_ai_response_from_anthropic out route created raw =
    then_translate (answer_parts out 0 (items_of (field "content" raw)))
      (λ p. done (completion out route created raw p))

-- json.Unmarshal into a map.
abbrev pub decoded_map : Outer → Text → Option Json → Translated Members
decoded_map out body (some (object m)) = done m
decoded_map out body (some null) = done end
decoded_map out body _ = failed (out.unmarshal_error body)

abbrev pub response_body : Outer → Text → ℤ → Text → Translated Text
response_body out route created body =
    then_translate (decoded_map out body (out.codec.unmarshal body)) (λ raw.
      then_translate (open_ai_response_from_anthropic out route created raw)
        (λ m. marshalled_or out (object m)))
