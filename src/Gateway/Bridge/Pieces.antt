-- ===== src/Gateway/Bridge/Pieces.antt =====
-- bridge_openai_anthropic.go: what proxyAnthropicStreamAsOpenAI writes to the client.
use phlox_gw.Common.{ℕ, Bool, Option, none, some, List, [], ◌∷◌, ◌++◌}
use phlox_gw.Common.Int.{ℤ, pos}
use phlox_gw.Common.Text.{Text, codes}
use phlox_gw.Store.Types.{GuardrailPolicy}
use phlox_gw.Gateway.Json.{Json, string, array, object, nil, cons, Members, end}
use phlox_gw.Gateway.Fields.{entry, words_of, number_of}
use phlox_gw.Gateway.Rules.{Regexp}
use phlox_gw.Gateway.Guardrails.Bodies.{apply_guardrail_to_stream_payload}
use phlox_gw.Gateway.Usage.{TokenUsage}
use phlox_gw.Gateway.Bridge.{Outer}
use phlox_gw.Gateway.Bridge.Events.{UsageEvent, open_ai_stream_chunk}

-- What is written to the client: a chunk of a kind, or the mark at the end.
pub data Piece : Type 0 where
  role_piece : Piece
  tool_start : ℕ → Text → Text → Piece
  tool_arguments : ℕ → Text → Piece
  text_piece : Text → Piece
  finish_piece : Text → Piece
  usage_piece : TokenUsage → Piece
  done_mark : Piece

abbrev pub choice_with : Members → Members
choice_with delta = entry "index" (number_of (pos 0)) (entry "delta" (object delta) end)

abbrev pub calls_delta : Members → Members
calls_delta c = choice_with (entry "tool_calls" (array (cons (object c) nil)) end)

abbrev pub usage_field : TokenUsage → Json
usage_field u = object (
    entry "prompt_tokens" (number_of u.input) (
      entry "completion_tokens" (number_of u.output)
        (entry "total_tokens" (number_of u.total) end)))

-- The choices of a chunk.
unfoldable pub piece_choices : Piece → List Members
piece_choices role_piece = choice_with (entry "role" (words_of "assistant") end) ∷ []
piece_choices (tool_start i id name) =
    calls_delta (
      entry "index" (number_of (pos i)) (
        entry "id" (string id) (
          entry "type" (words_of "function") (
            entry "function"
              (object (entry "name" (string name) (entry "arguments" (string []) end))) end))))
    ∷ []
piece_choices (tool_arguments i partial) =
    calls_delta (
      entry "index" (number_of (pos i))
        (entry "function" (object (entry "arguments" (string partial) end)) end))
    ∷ []
piece_choices (text_piece t) = choice_with (entry "content" (string t) end) ∷ []
piece_choices (finish_piece reason) =
    entry "index" (number_of (pos 0))
      (entry "delta" (object end) (entry "finish_reason" (string reason) end))
    ∷ []
piece_choices (usage_piece u) = []
piece_choices done_mark = []

abbrev pub piece_usage : Piece → Option Json
piece_usage (usage_piece u) = some (usage_field u)
piece_usage _ = none

-- What the stream has from outside: the route, the id and the time of its chunks, the guardrails, the
-- connection (what the n-th write of a text gives: the bytes written, and an error), and
-- encoding/json.
pub record Client : Type 0 where
  pub outer : Outer
  pub route : Text
  pub id : Text
  pub created : ℤ
  pub include_usage : Bool
  pub regexp : Regexp
  pub policy : GuardrailPolicy
  pub write : List Piece → Text → ℕ × Option Text
  pub read_usage : Text → Option UsageEvent

module _ (c : Client) where
  abbrev pub chunk_of : Piece → Json
  chunk_of p = object (
      apply_guardrail_to_stream_payload c.regexp c.policy
        (open_ai_stream_chunk c.route c.id c.created (piece_choices p) (piece_usage p)))

  -- The bytes of a piece; none is an error of json.Marshal.
  unfoldable pub frame : Piece → Option Text
  unfolding piece_choices open_ai_stream_chunk apply_guardrail_to_stream_payload
  frame done_mark = some (codes "data: [DONE]\n\n")
  frame p = elim (c.outer.codec.marshal (chunk_of p)) [
    | none ↦ none
    | some body ↦ some (codes "data: " ++ (body ++ codes "\n\n"))
  ]
