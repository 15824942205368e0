-- ===== src/Tests/Reverse.antt =====
-- The theorem on the stream from OpenAI to Anthropic at a concrete input, and runs.
use phlox_gw.Common.{ℕ, ◌≡◌, refl, Option, none, some, List, [], ◌∷◌, length, if◌then◌else◌}
use phlox_gw.Common.Int.{pos}
use phlox_gw.Common.Text.{Text, codes, text_eq}
use phlox_gw.Gateway.Json.{Json, array, object, nil, cons, Members, end}
use phlox_gw.Gateway.Fields.{entry, words_of}
use phlox_gw.Gateway.Flows.{returned, flow_state}
use phlox_gw.Gateway.Bridge.Events.{no_usage}
use phlox_gw.Gateway.Reverse.Requests.{anthropic_request_to_open_ai}
use phlox_gw.Gateway.Reverse.Events.{
  Event, message_start, text_start, tool_start, text_delta, input_delta, block_stop, message_delta,
  message_stop, Client,
}
use phlox_gw.Gateway.Reverse.Blocks.{Reversed}
use phlox_gw.Gateway.Reverse.Blocks.Writes.{IsClosed}
use phlox_gw.Gateway.Reverse.Stream.{proxy_open_ai_stream_as_anthropic}
use phlox_gw.Gateway.Reverse.Stream.Closed.{proxy_open_ai_stream_as_anthropic-order}
use phlox_gw.Tests.{guardrails}
use phlox_gw.Tests.Bridge.{outer}
use phlox_gw.Tests.Guardrails.{words_only}

-- A chunk with one choice of this delta.
abbrev chunk : Members → Members
chunk delta = entry "choices" (array (cons (object (entry "delta" (object delta) end)) nil)) end

abbrev calls : Members → Members
calls call = chunk (entry "tool_calls" (array (cons (object call) nil)) end)

abbrev hello : Members
hello = chunk (entry "content" (words_of "Hello") end)

abbrev weather : Members
weather = calls (
    entry "id" (words_of "t1")
      (entry "function" (object (entry "name" (words_of "weather") end)) end))

abbrev input : Members
input = calls (entry "function" (object (entry "arguments" (words_of "{}") end)) end)

abbrev read : Text → Option Json
read t =
    if text_eq t (codes "hello")
    then some (object hello)
    else if text_eq t (codes "weather")
    then some (object weather)
    else if text_eq t (codes "input")
    then some (object input)
    else none

abbrev client : Client
client = record {
  outer = record outer { codec = record { unmarshal = read; marshal = λ v. some (codes "{}") } };
  route = codes "claude";
  id = codes "c1";
  input_tokens = pos 0;
  regexp = words_only;
  policy = guardrails;
  write = λ sent text. (length text, none);
  usage = λ payload. no_usage;
  estimate = λ line. pos 0;
}

abbrev lines : List Text
lines =
    codes "data: hello\n"
    ∷ codes "data: weather\n"
    ∷ codes "data: input\n"
    ∷ codes "data: [DONE]\n"
    ∷ []

abbrev sent : List Text → List Event
sent lines = (flow_state (proxy_open_ai_stream_as_anthropic client none lines)).sent

runs : Unit {0}
unfolding proxy_open_ai_stream_as_anthropic anthropic_request_to_open_ai
runs = tt

events_runs :
    sent lines
    ≡ message_start
      ∷ text_start 0
      ∷ text_delta 0 (codes "Hello")
      ∷ block_stop 0
      ∷ tool_start 1 (codes "t1") (codes "weather")
      ∷ input_delta 1 (codes "{}")
      ∷ block_stop 1
      ∷ message_delta (codes "end_turn") (pos 0)
      ∷ message_stop
      ∷ []
unfolding runs
events_runs = refl

-- A tool that never gets an id or a name is started at the end, and the text block is stopped twice.
stopped_twice_runs :
    sent (codes "data: hello\n" ∷ codes "data: input\n" ∷ [])
    ≡ message_start
      ∷ text_start 0
      ∷ text_delta 0 (codes "Hello")
      ∷ block_stop 0
      ∷ block_stop 0
      ∷ tool_start 1 (codes "toolu_c1_0") (codes "tool")
      ∷ input_delta 1 (codes "{}")
      ∷ block_stop 1
      ∷ message_delta (codes "end_turn") (pos 0)
      ∷ message_stop
      ∷ []
unfolding runs phlox_gw.Common.Text.Numbers.decimal
stopped_twice_runs = refl

proxy_open_ai_stream_as_anthropic-order_example :
    (s : Reversed) × ((e : Option Text) × ((proxy_open_ai_stream_as_anthropic client none lines
          ≡ returned s e)
        × IsClosed s e))
proxy_open_ai_stream_as_anthropic-order_example =
    proxy_open_ai_stream_as_anthropic-order client none lines
