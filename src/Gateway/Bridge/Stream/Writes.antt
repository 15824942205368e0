-- ===== src/Gateway/Bridge/Stream/Writes.antt =====
-- What holds after a piece is written by proxyAnthropicStreamAsOpenAI (bridge_openai_anthropic.go).
use phlox_gw.Common.{ℕ, Option, none, some, inl, inr, Option-cases}
use phlox_gw.Common.Text.{Text}
use phlox_gw.Gateway.Flows.{FlowIs}
use phlox_gw.Gateway.Bridge.Pieces.{Piece, Client, frame, chunk_of}
use phlox_gw.Gateway.Bridge.Stream.{Streamed, with_piece, write_piece, wrote}

module _ (Q : Streamed → Type 0) (R : Streamed → Option Text → Type 0) where
  wrote-FlowIs :
      (s : Streamed) (e : Option Text) → Q s → ((t : Text) → R s (some t)) → FlowIs Q R (wrote s e)
  wrote-FlowIs s none h k = h
  wrote-FlowIs s (some t) h k = k t

  -- A piece is written, or an error is returned before or after it.
  pub write_piece-FlowIs :
      (c : Client) (p : Piece) (s : Streamed)
      → ((n : ℕ) → Q (with_piece s p n))
      → ((t : Text) → R s (some t))
      → ((n : ℕ) (t : Text) → R (with_piece s p n) (some t))
      → FlowIs Q R (write_piece c p s)
  unfolding write_piece
  write_piece-FlowIs c p s h k l = elim (Option-cases (frame c p)) [
    | inl e ↦ rw (write_piece, e) (k (c.outer.marshal_error (chunk_of c p)))
    | inr (text, e) ↦
        rw (write_piece, e)
          (wrote-FlowIs (with_piece s p (c.write s.sent text).0) (c.write s.sent text).1
            (h (c.write s.sent text).0) (l (c.write s.sent text).0))
  ]
