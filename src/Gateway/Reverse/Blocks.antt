-- ===== src/Gateway/Reverse/Blocks.antt =====
-- bridge_anthropic_openai.go: the state of proxyOpenAIStreamAsAnthropic, and the content blocks that it
-- starts and adds to.
pub mod Order
pub mod Writes
pub mod Texts
pub mod Starts
pub mod Calls
use phlox_gw.Common.{
  ℕ, suc, Bool, true, false, not, ◌&&◌, ◌||◌, Option, none, some, List, [], ◌∷◌, ◌++◌, ◌+◌,
  if◌then◌else◌,
}
use phlox_gw.Common.Int.{ℤ, pos, negsuc, ◌+ℤ◌, eq_ℤ, ltb_ℤ}
use phlox_gw.Common.Text.{Text, codes, text_eq, is_empty}
use phlox_gw.Common.Text.Numbers.{decimal}
use phlox_gw.Gateway.Json.{Json, string, array, Items, nil, cons, Members, end}
use phlox_gw.Gateway.Fields.{field, text_of, as_object, object_of, items_of, int_value}
use phlox_gw.Gateway.Usage.{TokenUsage, merge_estimated_usage}
use phlox_gw.Gateway.Flows.{Flow, running, returned, then_flow}
use phlox_gw.Gateway.Bridge.Messages.{content_texts}
use phlox_gw.Gateway.Bridge.Events.{open_ai_sse_payload, no_usage}
use phlox_gw.Gateway.Reverse.Answers.{anthropic_stop_reason}
use phlox_gw.Gateway.Reverse.Events.{
  Event, message_start, text_start, tool_start, text_delta, input_delta, block_stop, message_delta,
  message_stop, Client, payload_of, frame,
}

-- anthropicOpenAIStreamToolBlock; `block` is its blockIndex once it is started.
pub record ToolBlock : Type 0 where
  pub open_ai_index : ℤ
  pub block : Option ℕ
  pub id : Text
  pub name : Text
  pub pending_json : Text

-- anthropicOpenAIStreamState with the other variables of the loop. The text block is there while
-- textStarted; the tool blocks are in the order of toolOrder.
pub record Reversed : Type 0 where
  pub next_block_index : ℕ
  pub text_block : Option ℕ
  pub tool_blocks : List ToolBlock
  pub written : ℕ
  pub stop_reason : Text
  pub usage : TokenUsage
  pub estimated_output_tokens : ℤ
  pub sent : List Event

abbrev pub reversed_start : Reversed
reversed_start = record {
  next_block_index = 0;
  text_block = none;
  tool_blocks = [];
  written = 0;
  stop_reason = codes "end_turn";
  usage = no_usage;
  estimated_output_tokens = pos 0;
  sent = [];
}

abbrev pub new_tool : ℤ → ToolBlock
new_tool k = record { open_ai_index = k; block = none; id = []; name = []; pending_json = [] }

-- The block of an index, or a new one.
unfoldable pub find_tool : ℤ → List ToolBlock → ToolBlock
find_tool k [] = new_tool k
find_tool k (b ∷ bs) = if eq_ℤ k b.open_ai_index then b else find_tool k bs

-- The list with a block in the place of the one of its index, or after all.
unfoldable pub put_tool : ToolBlock → List ToolBlock → List ToolBlock
put_tool b [] = b ∷ []
put_tool b (b' ∷ bs) =
    let rest = put_tool b bs in if eq_ℤ b.open_ai_index b'.open_ai_index then b ∷ bs else b' ∷ rest

abbrev pub with_event : Reversed → Event → ℕ → Reversed
with_event s e n = record s { written = s.written + n; sent = s.sent ++ e ∷ [] }

abbrev pub sent_event : Reversed → Option Text → Flow Reversed
sent_event s none = running s
sent_event s (some e) = returned s (some e)

abbrev pub or_else_text : Text → Text → Text
or_else_text s other = if is_empty s then other else s

abbrev integer : ℤ → Text
integer (pos n) = decimal n
integer (negsuc n) = 0x2d ∷ decimal (suc n)

module _ (c : Client) where
  unfoldable pub write_event : Event → Reversed → Flow Reversed
  unfolding frame
  write_event e s = elim (frame c e) [
    | none ↦ returned s (some (c.outer.marshal_error (payload_of c e)))
    | some text ↦ let (n, error) = c.write s.sent text in sent_event (with_event s e n) error
  ]

  abbrev pub start_text : Reversed → Flow Reversed
  start_text s =
      write_event (text_start s.next_block_index) (record s {
        text_block = some s.next_block_index;
        next_block_index = suc s.next_block_index;
      })

  -- Text goes to the block that is open, or to a new one.
  abbrev pub add_to_text : Option ℕ → Text → Reversed → Flow Reversed
  add_to_text (some i) t s = write_event (text_delta i t) s
  add_to_text none t s = then_flow (start_text s) (write_event (text_delta s.next_block_index t))

  unfoldable pub write_text_delta : Text → Reversed → Flow Reversed
  unfolding write_event
  write_text_delta t s = if is_empty t then running s else add_to_text s.text_block t s

  abbrev pub stop_block : Option ℕ → Reversed → Flow Reversed
  stop_block none s = running s
  stop_block (some i) s = write_event (block_stop i) s

  -- A block that is started, with an id and a name.
  abbrev pub named : ToolBlock → ℕ → ToolBlock
  named b i = record b {
    block = some i;
    id = or_else_text b.id (codes "toolu_" ++ (c.id ++ (codes "_" ++ integer b.open_ai_index)));
    name = or_else_text b.name (codes "tool");
  }

  abbrev pub open_block : ToolBlock → Reversed → Flow Reversed
  open_block b s = write_event (tool_start s.next_block_index b.id b.name) (record s {
    next_block_index = suc s.next_block_index;
    tool_blocks = put_tool b s.tool_blocks;
  })

  -- What was pending is written once the block is started.
  abbrev pub flush_pending : ToolBlock → ℕ → Reversed → Flow Reversed
  flush_pending b i s =
      if is_empty b.pending_json
      then running s
      else write_event (input_delta i b.pending_json)
          (record s { tool_blocks = put_tool (record b { pending_json = [] }) s.tool_blocks })

  abbrev pub start_unless : Option ℕ → ToolBlock → Reversed → Flow Reversed
  start_unless (some i) b s = running s
  start_unless none b s =
      let i = s.next_block_index in
      then_flow (stop_block s.text_block s) (λ s.
        then_flow (open_block (named b i) (record s { text_block = none }))
          (flush_pending (named b i) i))

  unfoldable pub start_tool_block : ToolBlock → Reversed → Flow Reversed
  unfolding write_event put_tool
  start_tool_block b s = start_unless b.block b s

  abbrev pub with_names : Members → ToolBlock → ToolBlock
  with_names call b = record b {
    id = or_else_text (text_of (field "id" call)) b.id;
    name = or_else_text (text_of (field "name" (object_of (field "function" call)))) b.name;
  }

  -- Arguments are written to a block that is started, and kept for one that is not.
  abbrev pub add_arguments : Option ℕ → ToolBlock → Text → Reversed → Flow Reversed
  add_arguments (some i) b args s = write_event (input_delta i args) s
  add_arguments none b args s = running (record s {
    tool_blocks = put_tool (record b { pending_json = b.pending_json ++ args }) s.tool_blocks;
  })

  abbrev pub write_arguments : ToolBlock → Text → Reversed → Flow Reversed
  write_arguments b args s = if is_empty args then running s else add_arguments b.block b args s

  abbrev pub start_if_named : ToolBlock → Reversed → Flow Reversed
  start_if_named b s = if is_empty b.id && is_empty b.name then running s else start_tool_block b s

  unfoldable pub write_tool_call : Members → Reversed → Flow Reversed
  unfolding start_tool_block find_tool put_tool int_value field
  write_tool_call call s =
      let k = int_value c.outer.whole (field "index" call) in
      let b = with_names call (find_tool k s.tool_blocks) in
      let args = text_of (field "arguments" (object_of (field "function" call))) in
      then_flow (start_if_named b (record s { tool_blocks = put_tool b s.tool_blocks }))
        (λ s. write_arguments (find_tool k s.tool_blocks) args s)

  unfoldable pub write_tool_calls : Items → Reversed → Flow Reversed
  unfolding write_tool_call
  write_tool_calls nil s = running s
  write_tool_calls (cons x xs) s = elim (as_object x) [
    | none ↦ write_tool_calls xs s
    | some call ↦ then_flow (write_tool_call call s) (write_tool_calls xs)
  ]
