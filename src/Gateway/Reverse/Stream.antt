-- ===== src/Gateway/Reverse/Stream.antt =====
-- bridge_anthropic_openai.go: proxyOpenAIStreamAsAnthropic, which sends the chunks of a chat
-- completion to the client as the events of an Anthropic stream.
pub mod Choices
pub mod Finish
pub mod Closed
use phlox_gw.Common.{
  ℕ, suc, Bool, true, false, not, ◌&&◌, ◌||◌, Option, none, some, List, [], ◌∷◌, ◌++◌, ◌+◌,
  if◌then◌else◌,
}
use phlox_gw.Common.Int.{ℤ, pos, negsuc, ◌+ℤ◌, eq_ℤ, ltb_ℤ}
use phlox_gw.Common.Text.{Text, codes, text_eq, is_empty}
use phlox_gw.Common.Text.Numbers.{decimal}
use phlox_gw.Gateway.Json.{Json, string, array, Items, nil, cons, Members, end}
use phlox_gw.Gateway.Fields.{field, text_of, as_object, object_of, items_of, int_value}
use phlox_gw.Gateway.Usage.{TokenUsage, merge_estimated_usage}
use phlox_gw.Gateway.Flows.{Flow, running, returned, then_flow}
use phlox_gw.Gateway.Bridge.Messages.{content_texts}
use phlox_gw.Gateway.Bridge.Events.{open_ai_sse_payload, no_usage}
use phlox_gw.Gateway.Reverse.Answers.{anthropic_stop_reason}
use phlox_gw.Gateway.Reverse.Blocks.{
  ToolBlock, Reversed, reversed_start, or_else_text, write_event, write_text_delta, stop_block,
  start_tool_block, write_tool_calls,
}
use phlox_gw.Gateway.Reverse.Events.{
  Event, message_start, text_start, tool_start, text_delta, input_delta, block_stop, message_delta,
  message_stop, Client, payload_of, frame,
}

-- openAIStreamDeltaTextFragments
abbrev pub fragments_of : Json → List Text
fragments_of (string s) = if is_empty s then [] else s ∷ []
fragments_of (array xs) = content_texts xs
fragments_of _ = []

unfoldable pub open_ai_stream_delta_text_fragments : Members → List Text
unfolding content_texts field
open_ai_stream_delta_text_fragments delta =
    fragments_of (field "content" delta)
    ++ (fragments_of (field "reasoning" delta) ++ fragments_of (field "reasoning_content" delta))

module _ (c : Client) where
  unfoldable pub write_texts : List Text → Reversed → Flow Reversed
  unfolding write_text_delta
  write_texts [] s = running s
  write_texts (t ∷ ts) s = then_flow (write_text_delta c t s) (write_texts ts)

  abbrev pub note_finish : Text → Reversed → Reversed
  note_finish [] s = s
  note_finish (b ∷ reason) s = record s { stop_reason = anthropic_stop_reason (b ∷ reason) }

  unfoldable pub write_choice : Members → Reversed → Flow Reversed
  unfolding write_texts write_tool_calls open_ai_stream_delta_text_fragments anthropic_stop_reason
      field
  write_choice choice s =
      let delta = object_of (field "delta" choice) in
      then_flow (write_texts (open_ai_stream_delta_text_fragments delta) s) (λ s.
        then_flow (write_tool_calls c (items_of (field "tool_calls" delta)) s)
          (λ s. running (note_finish (text_of (field "finish_reason" choice)) s)))

  -- writeOpenAIChunk, on the choices of the chunk.
  unfoldable pub write_choices : Items → Reversed → Flow Reversed
  unfolding write_choice
  write_choices nil s = running s
  write_choices (cons x xs) s = elim (as_object x) [
    | none ↦ write_choices xs s
    | some choice ↦ then_flow (write_choice choice s) (write_choices xs)
  ]

  -- The round of a block in the loop of finish.
  abbrev pub stop_tool : Option ℕ → ToolBlock → Reversed → Flow Reversed
  stop_tool (some i) b s = write_event c (block_stop i) s
  stop_tool none b s =
      then_flow (start_tool_block c b s) (write_event c (block_stop s.next_block_index))

  -- The loop of finish on toolOrder.
  unfoldable pub stop_tools : List ToolBlock → Reversed → Flow Reversed
  unfolding start_tool_block write_event
  stop_tools [] s = running s
  stop_tools (b ∷ bs) s = then_flow (stop_tool b.block b s) (stop_tools bs)

  unfoldable pub finish : ℤ → Reversed → Flow Reversed
  unfolding stop_tools write_event
  finish output_tokens s = then_flow (stop_block c s.text_block s) (λ s.
      then_flow (stop_tools s.tool_blocks s) (λ s.
        then_flow
          (write_event c
            (message_delta (or_else_text s.stop_reason (codes "end_turn")) output_tokens) s)
          (write_event c message_stop)))

  abbrev pub ended : Flow Reversed → Flow Reversed
  ended (running s) = returned s none
  ended (returned s e) = returned s e

  -- The end of the body, or the event that stands for it.
  unfoldable pub close_stream : Reversed → Flow Reversed
  unfolding finish merge_estimated_usage
  close_stream s =
      let usage = merge_estimated_usage s.usage c.input_tokens s.estimated_output_tokens in
      ended (finish usage.output (record s { usage = usage }))

  abbrev pub is_some_usage : TokenUsage → Bool
  is_some_usage u = ltb_ℤ (pos 0) u.total || ltb_ℤ (pos 0) u.input || ltb_ℤ (pos 0) u.output

  abbrev pub counted : Text → Text → Reversed → Reversed
  counted line payload s =
      let parsed = c.usage payload in
      let usage = if is_some_usage parsed then parsed else s.usage in
      record s {
        usage = usage;
        estimated_output_tokens =
            if eq_ℤ usage.output (pos 0)
            then s.estimated_output_tokens +ℤ c.estimate line
            else s.estimated_output_tokens;
      }

  abbrev pub chunk_choices : Option Json → Items
  chunk_choices none = nil
  chunk_choices (some v) = items_of (field "choices" (object_of v))

  -- The loop on the lines that are read, until the end of the body or the error that reading gives.
  unfoldable pub reverse_lines : Option Text → List Text → Reversed → Flow Reversed
  unfolding write_choices close_stream open_ai_sse_payload field text_eq ◌+ℤ◌
  reverse_lines none [] s = close_stream s
  reverse_lines (some e) [] s = returned s (some e)
  reverse_lines read_error (line ∷ lines) s = elim (open_ai_sse_payload line) [
    | none ↦ reverse_lines read_error lines s
    | some payload ↦
        if text_eq payload (codes "[DONE]")
        then close_stream s
        else then_flow
            (write_choices (chunk_choices (c.outer.codec.unmarshal payload))
              (counted line payload s))
            (reverse_lines read_error lines)
  ]

  -- proxyOpenAIStreamAsAnthropic
  unfoldable pub proxy_open_ai_stream_as_anthropic : Option Text → List Text → Flow Reversed
  unfolding reverse_lines write_event
  proxy_open_ai_stream_as_anthropic read_error lines =
      then_flow (write_event c message_start reversed_start) (reverse_lines read_error lines)
