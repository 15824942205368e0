-- ===== src/Gateway/Bridge/Stream.antt =====
-- bridge_openai_anthropic.go: proxyAnthropicStreamAsOpenAI, which sends the events of an Anthropic
-- stream to the client as the chunks of a chat completion.
pub mod Writes
pub mod Order
pub mod Indices
pub mod Texts
use phlox_gw.Common.{
  ℕ, suc, Bool, true, false, not, ◌&&◌, ◌||◌, Option, none, some, List, [], ◌∷◌, ◌++◌, ◌+◌,
  if◌then◌else◌,
}
use phlox_gw.Common.Int.{ℤ, pos, eq_ℤ}
use phlox_gw.Common.Text.{Text, codes, text_eq, is_empty}
use phlox_gw.Common.Text.Numbers.{decimal}
use phlox_gw.Store.Types.{GuardrailPolicy}
use phlox_gw.Gateway.Json.{Json, string, array, object, nil, cons, Members, end}
use phlox_gw.Gateway.Fields.{
  field, text_of, object_of, is_text, entry, words_of, fallback_string, int_value, number_of,
}
use phlox_gw.Gateway.Rules.{Regexp}
use phlox_gw.Gateway.Guardrails.Bodies.{apply_guardrail_to_stream_payload}
use phlox_gw.Gateway.Usage.{TokenUsage}
use phlox_gw.Gateway.Bridge.{Outer}
use phlox_gw.Gateway.Bridge.Answers.{open_ai_finish_reason_from_anthropic}
use phlox_gw.Gateway.Flows.{Flow, running, returned, then_flow}
use phlox_gw.Gateway.Bridge.Pieces.{
  Piece, role_piece, tool_start, tool_arguments, text_piece, finish_piece, usage_piece, done_mark,
  Client, chunk_of, frame,
}
use phlox_gw.Gateway.Bridge.Events.{
  open_ai_sse_payload, no_usage, UsageEvent, usage_from_anthropic_sse_line, merge_anthropic_usage,
  open_ai_stream_chunk,
}

-- The variables of the loop, with what was given to the client's connection.
pub record Streamed : Type 0 where
  pub tool_index_by_block : List (ℤ × ℕ)
  pub tool_block_count : ℕ
  pub finish_reason : Text
  pub finished : Bool
  pub usage : TokenUsage
  pub written : ℕ
  pub sent : List Piece

abbrev pub stream_start : Streamed
stream_start = record {
  tool_index_by_block = [];
  tool_block_count = 0;
  finish_reason = codes "stop";
  finished = false;
  usage = no_usage;
  written = 0;
  sent = [];
}

abbrev pub tool_index : ℤ → List (ℤ × ℕ) → Option ℕ
tool_index b [] = none
tool_index b ((b', i) ∷ m) = if eq_ℤ b b' then some i else tool_index b m

abbrev pub with_piece : Streamed → Piece → ℕ → Streamed
with_piece s p n = record s { written = s.written + n; sent = s.sent ++ p ∷ [] }

abbrev pub wrote : Streamed → Option Text → Flow Streamed
wrote s none = running s
wrote s (some e) = returned s (some e)

module _ (c : Client) where
  -- writeChunk and writeOpenAIStreamDone, with the return of their error.
  unfoldable pub write_piece : Piece → Streamed → Flow Streamed
  unfolding frame
  write_piece p s = elim (frame c p) [
    | none ↦ returned s (some (c.outer.marshal_error (chunk_of c p)))
    | some text ↦ let (n, e) = c.write s.sent text in wrote (with_piece s p n) e
  ]

  -- finish
  unfoldable pub finish : Streamed → Flow Streamed
  unfolding write_piece
  finish s =
      if s.finished
      then running s
      else then_flow (write_piece (finish_piece s.finish_reason) (record s { finished = true }))
          (λ s.
            then_flow (if c.include_usage then write_piece (usage_piece s.usage) s else running s)
              (λ s. write_piece done_mark s))

  abbrev pub start_tool : Members → ℤ → Streamed → Flow Streamed
  start_tool block block_index s =
      let i = s.tool_block_count in
      let id = codes "toolu_" ++ (c.id ++ (codes "_" ++ decimal i)) in
      write_piece
        (tool_start i (fallback_string (text_of (field "id" block)) id)
          (fallback_string (text_of (field "name" block)) (codes "tool")))
        (record s {
          tool_index_by_block = (block_index, i) ∷ s.tool_index_by_block;
          tool_block_count = suc i;
        })

  abbrev pub add_text : Text → Streamed → Flow Streamed
  add_text t s = if is_empty t then running s else write_piece (text_piece t) s

  abbrev pub add_arguments : Option ℕ → Text → Streamed → Flow Streamed
  add_arguments none partial s = running s
  add_arguments (some i) partial s =
      if is_empty partial then running s else write_piece (tool_arguments i partial) s

  abbrev pub add_delta : Members → Members → Streamed → Flow Streamed
  add_delta event delta s =
      if is_text "text_delta" (field "type" delta)
      then add_text (text_of (field "text" delta)) s
      else if is_text "input_json_delta" (field "type" delta)
      then add_arguments
          (tool_index (int_value c.outer.whole (field "index" event)) s.tool_index_by_block)
          (text_of (field "partial_json" delta)) s
      else running s

  abbrev pub note_reason : Text → Streamed → Streamed
  note_reason reason s =
      if is_empty reason
      then s
      else record s { finish_reason = open_ai_finish_reason_from_anthropic reason }

  -- The switch on the type of an event.
  unfoldable pub stream_event : Members → Streamed → Flow Streamed
  unfolding write_piece finish fallback_string int_value field open_ai_finish_reason_from_anthropic
  stream_event event s =
      let type = field "type" event in
      let block = object_of (field "content_block" event) in
      let delta = object_of (field "delta" event) in
      let message = text_of (field "message" (object_of (field "error" event))) in
      if is_text "message_start" type
      then write_piece role_piece s
      else if is_text "content_block_start" type
      then if is_text "tool_use" (field "type" block)
        then start_tool block (int_value c.outer.whole (field "index" event)) s
        else running s
      else if is_text "content_block_delta" type
      then add_delta event delta s
      else if is_text "message_delta" type
      then running (note_reason (text_of (field "stop_reason" delta)) s)
      else if is_text "message_stop" type
      then finish s
      else if is_text "error" type
      then returned s (some (fallback_string message (codes "upstream Anthropic stream error")))
      else running s

  -- The event of a line: an empty map where there is none.
  unfoldable pub event_of_line : Text → Members
  unfolding open_ai_sse_payload text_eq
  event_of_line line = elim (open_ai_sse_payload line) [
    | none ↦ end
    | some payload ↦
        if text_eq payload (codes "[DONE]")
        then end
        else elim (c.outer.codec.unmarshal payload) [ none ↦ end | some v ↦ object_of v ]
  ]

  unfoldable pub stream_line : Text → Streamed → Flow Streamed
  unfolding stream_event event_of_line merge_anthropic_usage usage_from_anthropic_sse_line
  stream_line line s = stream_event (event_of_line line) (record s {
    usage = merge_anthropic_usage s.usage (usage_from_anthropic_sse_line c.read_usage line);
  })

  abbrev pub at_eof : Flow Streamed → Flow Streamed
  at_eof (running s) = returned s none
  at_eof (returned s e) = returned s e

  -- The loop on the lines that are read, the last with or without a line break, until the end of the
  -- body or the error that reading it gives.
  unfoldable pub stream_lines : Option Text → List Text → Streamed → Flow Streamed
  unfolding stream_line finish
  stream_lines none [] s = at_eof (finish s)
  stream_lines (some e) [] s = returned s (some e)
  stream_lines read_error (line ∷ lines) s =
      then_flow (stream_line line s) (stream_lines read_error lines)
