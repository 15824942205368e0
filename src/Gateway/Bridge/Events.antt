-- ===== src/Gateway/Bridge/Events.antt =====
-- Server sent events, and the usage that they carry: openAISSEPayload, openAIStreamChunk and
-- openAIStreamIncludeUsage (openai.go), usageFromAnthropicSSELine and mergeAnthropicUsage
-- (anthropic.go).
use phlox_gw.Common.{Bool, ◌&&◌, ◌||◌, Option, none, some, List, if◌then◌else◌}
use phlox_gw.Common.Int.{ℤ, pos, ◌+ℤ◌, ltb_ℤ, leb_ℤ}
use phlox_gw.Common.Text.{Text, codes, text_eq, is_empty, has_prefix}
use phlox_gw.Common.Text.Trim.{trim_space}
use phlox_gw.Gateway.Json.{Json, string, array, Members, end}
use phlox_gw.Gateway.Fields.{
  field, object_of, bool_of, entry, words_of, array_of, number_of, optional,
}
use phlox_gw.Gateway.Usage.{TokenUsage}
use phlox_gw.Gateway.Bridge.Messages.{trim_prefix}

-- openAISSEPayload; none is false.
unfoldable pub open_ai_sse_payload : Text → Option Text
unfolding trim_space has_prefix
open_ai_sse_payload line =
    let text = trim_space line in
    let payload = trim_space (trim_prefix (codes "data:") text) in
    if has_prefix text (codes "data:")
    then if is_empty payload then none else some payload
    else none

abbrev pub no_usage : TokenUsage
no_usage = record { input = pos 0; output = pos 0; total = pos 0 }

-- What encoding/json reads into the struct of usageFromAnthropicSSELine.
pub record UsageEvent : Type 0 where
  pub message_input : ℤ
  pub message_output : ℤ
  pub input : ℤ
  pub output : ℤ
  pub total : ℤ

abbrev pub positive_or : ℤ → ℤ → ℤ
positive_or v other = if ltb_ℤ (pos 0) v then v else other

abbrev pub usage_of_event : UsageEvent → TokenUsage
usage_of_event e =
    let input = positive_or e.input e.message_input in
    let output = positive_or e.output e.message_output in
    record {
      input = input;
      output = output;
      total =
          positive_or e.total
            (if ltb_ℤ (pos 0) input || ltb_ℤ (pos 0) output then input +ℤ output else pos 0);
    }

-- usageFromAnthropicSSELine; the argument is json.Unmarshal into its struct.
unfoldable pub usage_from_anthropic_sse_line : (Text → Option UsageEvent) → Text → TokenUsage
unfolding open_ai_sse_payload ◌+ℤ◌ text_eq
usage_from_anthropic_sse_line read line = elim (open_ai_sse_payload line) [
  | none ↦ no_usage
  | some payload ↦
      if text_eq payload (codes "[DONE]")
      then no_usage
      else elim (read payload) [ none ↦ no_usage | some e ↦ usage_of_event e ]
]

unfoldable pub merge_anthropic_usage : TokenUsage → TokenUsage → TokenUsage
unfolding ◌+ℤ◌
merge_anthropic_usage current next =
    let input = positive_or next.input current.input in
    let output = positive_or next.output current.output in
    record {
      input = input;
      output = output;
      total =
          if ltb_ℤ (pos 0) next.total && leb_ℤ (input +ℤ output) next.total
          then next.total
          else input +ℤ output;
    }

unfoldable pub open_ai_stream_include_usage : Members → Bool
unfolding field
open_ai_stream_include_usage raw =
    bool_of (field "include_usage" (object_of (field "stream_options" raw)))

unfoldable pub open_ai_stream_chunk : Text → Text → ℤ → List Members → Option Json → Members
open_ai_stream_chunk route id created choices usage = entry "id" (string id) (
    entry "object" (words_of "chat.completion.chunk") (
      entry "created" (number_of created) (
        entry "model" (string route)
          (entry "choices" (array (array_of choices)) (optional "usage" usage end)))))
