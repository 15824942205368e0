-- ===== src/Gateway/Bridge/Stream/Texts.antt =====
-- The text of the chunks that proxyAnthropicStreamAsOpenAI (bridge_openai_anthropic.go) makes. Each
-- chunk passes the output guardrails on its way to the client, which may redact it; the text here is
-- that before.
use Prim.Native.String.{String}
use phlox_gw.Common.{◌&&◌, Option, none, some, List, [], ◌∷◌, ◌++◌, ◌≡◌, if◌then◌else◌}
use phlox_gw.Common.Text.{Text}
use phlox_gw.Gateway.Json.{Json, Members}
use phlox_gw.Gateway.Fields.{field, text_of, object_of, is_text}
use phlox_gw.Gateway.Bridge.Pieces.{Piece, text_piece, Client}
use phlox_gw.Gateway.Bridge.Stream.{Streamed, event_of_line}

abbrev piece_text : Piece → Text
piece_text (text_piece t) = t
piece_text _ = []

-- The content of the chunks before the output guardrails, put together.
abbrev pub sent_text : List Piece → Text
sent_text [] = []
sent_text (p ∷ ps) = piece_text p ++ sent_text ps

-- The text of an event of the provider: that of a text delta.
abbrev pub event_text : Members → Text
event_text event =
    let delta = object_of (field "delta" event) in
    if is_text "content_block_delta" (field "type" event)
      && is_text "text_delta" (field "type" delta)
    then text_of (field "text" delta)
    else []

abbrev pub streamed_text : Client → List Text → Text
streamed_text c [] = []
streamed_text c (line ∷ lines) = event_text (event_of_line c line) ++ streamed_text c lines

-- The text that was sent so far; with no error, all of it in the end.
abbrev Says : Text → Streamed → Type 0
Says t s = sent_text s.sent ≡ t

module _ (c : Client) (whole : Text) where
  abbrev Ends : Streamed → Option Text → Type 0
  Ends s none = Says whole s
  Ends s (some e) = Unit
