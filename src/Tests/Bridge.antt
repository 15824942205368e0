-- ===== src/Tests/Bridge.antt =====
-- The theorems on the translations between OpenAI and Anthropic at concrete inputs, with tables for
-- encoding/json, and runs.
use phlox_gw.Common.{
  ℕ, ◌≡◌, ◌≢◌, refl, false, Option, none, some, List, [], ◌∷◌, length, ◌&&◌, ltb, if◌then◌else◌,
}
use phlox_gw.Common.Int.{pos}
use phlox_gw.Common.Text.{Text, codes, text_eq}
use phlox_gw.Common.Text.Numbers.{decimal}
use phlox_gw.Gateway.Json.{Json, number, string, array, object, nil, cons, Members, end}
use phlox_gw.Gateway.Fields.{entry, words_of, array_of, lookup}
use phlox_gw.Gateway.Bridge.{done, failed, then_translate, Outer}
use phlox_gw.Gateway.Bridge.Messages.{text_block, assistant_calls}
use phlox_gw.Gateway.Bridge.Turns.{Turn, open_ai_messages_to_anthropic, user, assistant}
use phlox_gw.Gateway.Bridge.Turns.Alternation.{
  IsConversation, open_ai_messages_to_anthropic-IsConversation,
}
use phlox_gw.Gateway.Bridge.Turns.Contents.{spoken, open_ai_messages_to_anthropic-contents}
use phlox_gw.Gateway.Bridge.Requests.{anthropic_request, open_ai_request_to_anthropic}
use phlox_gw.Gateway.Bridge.Requests.Bodies.{
  IsMessagesBody, open_ai_request_to_anthropic-IsMessagesBody,
}
use phlox_gw.Gateway.Bridge.Retries.{
  anthropic_payload_for_unsupported_params, Response, answered, Opened, opened, open_stream,
  sampling_keys,
}
use phlox_gw.Gateway.Bridge.Retries.Attempts.{Opens, IsOther, open_stream-ends}
use phlox_gw.Gateway.Bridge.Answers.{answer_parts}
use phlox_gw.Gateway.Bridge.Answers.RoundTrip.{
  ToolUse, block_of, IsWired, assistant_calls-answer_parts,
}
use phlox_gw.Gateway.Bridge.Pieces.{
  Client, Piece, tool_start, tool_arguments, text_piece, finish_piece, done_mark,
}
use phlox_gw.Gateway.Flows.{returned, flow_state}
use phlox_gw.Gateway.Bridge.Stream.{Streamed, stream_start, stream_lines}
use phlox_gw.Gateway.Bridge.Stream.Order.{IsClosed}
use phlox_gw.Gateway.Bridge.Stream.Indices.{stream_lines-order}
use phlox_gw.Tests.{guardrails}
use phlox_gw.Tests.Guardrails.{words_only}

abbrev city : Members
city = entry "city" (words_of "Rome") end

abbrev hello : Members
hello = entry "type" (words_of "content_block_delta") (
    entry "delta"
      (object (entry "type" (words_of "text_delta") (entry "text" (words_of "Hello") end))) end)

abbrev block : Members
block = entry "type" (words_of "content_block_start") (
    entry "index" (number (codes "1")) (
      entry "content_block"
        (object (
          entry "type" (words_of "tool_use")
            (entry "id" (words_of "t1") (entry "name" (words_of "weather") end))))
        end))

abbrev input : Members
input = entry "type" (words_of "content_block_delta") (
    entry "index" (number (codes "1")) (
      entry "delta"
        (object
          (entry "type" (words_of "input_json_delta") (entry "partial_json" (words_of "{}") end)))
        end))

abbrev stop : Members
stop = entry "type" (words_of "message_stop") end

abbrev read : Text → Option Json
read t =
    if text_eq t (codes "hello")
    then some (object hello)
    else if text_eq t (codes "block")
    then some (object block)
    else if text_eq t (codes "input")
    then some (object input)
    else if text_eq t (codes "stop")
    then some (object stop)
    else if text_eq t (codes "city")
    then some (object city)
    else none

abbrev write : Json → Option Text
write (object _) = some (codes "city")
write _ = some (codes "null")

abbrev pub outer : Outer
outer = record {
  codec = record { unmarshal = read; marshal = write };
  decode = λ t. elim (read t) [ none ↦ failed (codes "no JSON") | some v ↦ done v ];
  marshal_error = λ v. codes "unsupported value";
  unmarshal_error = λ t. codes "no map";
  whole = λ t. if text_eq t (codes "1") then pos 1 else pos 0;
  fresh = decimal;
}

abbrev said : Text → Text → Json
said role content = object (entry "role" (string role) (entry "content" (string content) end))

-- A system prompt, two messages of the user, and one of the assistant.
abbrev talk : Json
talk = array (
    cons (said (codes "system") (codes "Be brief")) (
      cons (said user (codes "Hi"))
        (cons (said user (codes "Rome?")) (cons (said assistant (codes "Sunny")) nil))))

abbrev turns : List Turn
turns =
    record { role = user; content = text_block (codes "Hi") ∷ text_block (codes "Rome?") ∷ [] }
    ∷ record { role = assistant; content = text_block (codes "Sunny") ∷ [] }
    ∷ []

abbrev completion : Members
completion =
    entry "model" (words_of "claude")
      (entry "messages" talk (entry "temperature" (number (codes "1")) end))

runs : Unit {0}
unfolding open_ai_messages_to_anthropic open_ai_request_to_anthropic stream_lines open_stream
    anthropic_payload_for_unsupported_params
runs = tt

talk_runs : open_ai_messages_to_anthropic outer talk ≡ done (codes "Be brief", turns)
unfolding runs
talk_runs = refl

open_ai_messages_to_anthropic-IsConversation_example : IsConversation turns × (turns ≢ [])
open_ai_messages_to_anthropic-IsConversation_example =
    open_ai_messages_to_anthropic-IsConversation outer talk (codes "Be brief") turns talk_runs

open_ai_messages_to_anthropic-contents_example :
    spoken turns
    ≡ (user, text_block (codes "Hi"))
      ∷ (user, text_block (codes "Rome?"))
      ∷ (assistant, text_block (codes "Sunny"))
      ∷ []
unfolding runs
open_ai_messages_to_anthropic-contents_example =
    open_ai_messages_to_anthropic-contents outer talk (codes "Be brief") turns talk_runs

abbrev request : Members
request = anthropic_request outer completion (codes "Be brief") turns

request_runs : open_ai_request_to_anthropic outer completion ≡ done request
unfolding runs
request_runs = refl

open_ai_request_to_anthropic-IsMessagesBody_example : IsMessagesBody outer completion request
open_ai_request_to_anthropic-IsMessagesBody_example =
    open_ai_request_to_anthropic-IsMessagesBody outer completion request request_runs

-- A provider that takes no temperature.
abbrev picky : ℕ → Text → Response
picky n body =
    if text_eq body (codes "city") && ltb n 1
    then answered (pos 400) (codes "no `temperature`")
    else answered (pos 200) []

abbrev try_picky : Members → Option Opened
try_picky raw =
    open_stream write (λ v. codes "unsupported value") (λ t. t)
      anthropic_payload_for_unsupported_params picky 3 0 raw

without_temperature_runs :
    try_picky (entry "model" (words_of "m") (entry "temperature" (number (codes "1")) end))
    ≡ some (opened (pos 200) (entry "model" (words_of "m") end))
unfolding runs
without_temperature_runs = refl

open_stream-ends_example :
    (o : Opened) × ((try_picky request ≡ some o)
      × Opens (λ m. (k : Text) → IsOther sampling_keys k → lookup k m ≡ lookup k request) o)
open_stream-ends_example =
    open_stream-ends write (λ v. codes "unsupported value") (λ t. t) picky request

abbrev weather : ToolUse
weather = record { id = codes "t1"; name = codes "weather"; input = city }

weather-IsWired : IsWired outer weather
unfolding runs
weather-IsWired = record {
  id = refl;
  name = refl;
  text = codes "city";
  marshal = refl;
  not_blank = refl;
  decode = refl;
}

assistant_calls-answer_parts_example :
    then_translate
      (answer_parts outer 0 (array_of (block_of weather ∷ [])))
      (λ p. then_translate (assistant_calls outer 0 (array_of p.calls)) (λ r. done r.1))
    ≡ done (block_of weather ∷ [])
assistant_calls-answer_parts_example =
    assistant_calls-answer_parts outer 0 0 (weather ∷ []) (weather-IsWired, tt)

abbrev client : Client
client = record {
  outer = outer;
  route = codes "chat/default";
  id = codes "c1";
  created = pos 0;
  include_usage = false;
  regexp = words_only;
  policy = guardrails;
  write = λ sent text. (length text, none);
  read_usage = λ payload. none;
}

abbrev lines : List Text
lines =
    codes "data: hello\n"
    ∷ codes "event: ping\n"
    ∷ codes "data: block\n"
    ∷ codes "data: input\n"
    ∷ codes "data: stop\n"
    ∷ []

abbrev pieces : List Piece
pieces =
    text_piece (codes "Hello")
    ∷ tool_start 0 (codes "t1") (codes "weather")
    ∷ tool_arguments 0 (codes "{}")
    ∷ finish_piece (codes "stop")
    ∷ done_mark
    ∷ []

-- The state in which the loop returned.
abbrev streamed : Streamed
streamed = flow_state (stream_lines client none lines stream_start)

pieces_runs : streamed.sent ≡ pieces
unfolding runs
pieces_runs = refl

stream_lines-order_example :
    (s : Streamed) × ((e : Option Text) × ((stream_lines client none lines stream_start
          ≡ returned s e)
        × IsClosed s e))
stream_lines-order_example = stream_lines-order client none lines
