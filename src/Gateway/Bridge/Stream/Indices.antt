-- ===== src/Gateway/Bridge/Stream/Indices.antt =====
-- The order of what proxyAnthropicStreamAsOpenAI (bridge_openai_anthropic.go) writes.
use phlox_gw.Common.{
  ℕ, suc, Bool, true, false, Option, none, some, List, [], ◌∷◌, ◌+◌, ◌≤◌, ◌<◌, ◌≡◌, refl, sym, ap,
  ◌∙◌, arith,
}
use mathlib.Core.Path.{subst}
use phlox_gw.Common.Int.{ℤ}
use phlox_gw.Common.Text.{Text, is_empty}
use phlox_gw.Gateway.Json.{Members}
use phlox_gw.Gateway.Fields.{field, text_of, int_value}
use phlox_gw.Gateway.Bridge.Pieces.{
  Piece, role_piece, tool_start, tool_arguments, text_piece, finish_piece, usage_piece, done_mark,
  Client,
}
use phlox_gw.Gateway.Flows.{
  Flow, running, returned, FlowIs, then_flow-FlowIs, if-FlowIs, Never, returned_of,
}
use phlox_gw.Gateway.Bridge.Stream.Writes.{write_piece-FlowIs}
use phlox_gw.Gateway.Bridge.Stream.{
  Streamed, stream_start, with_piece, write_piece, finish, stream_event, stream_line, stream_lines,
  tool_index, add_arguments, add_delta, note_reason, at_eof, event_of_line,
}
use phlox_gw.Gateway.Bridge.Stream.Order.{
  next_index, started, Fits, mark, IsOrdered-snoc, started-snoc, marks-snoc, flag, IsConsistent,
  IsStreaming, IsClosed, Below-suc, tool_index-Below,
}

-- A piece that starts no call.
module _ (p : Piece) (plain : (n : ℕ) → next_index n p ≡ n) where
  with_piece-IsConsistent :
      (k n : ℕ) (s : Streamed)
      → Fits s.tool_block_count p
      → IsConsistent k s
      → IsConsistent (mark p + k) (with_piece s p n)
  with_piece-IsConsistent k n s f (o, (c, (b, m))) = (
    IsOrdered-snoc 0 s.sent p o (rw c f),
    (
      started-snoc 0 s.sent p ∙ (plain (started 0 s.sent) ∙ c),
      (b, omega (arith, marks-snoc s.sent p, m)),
    ),
  )

flag_le : (b : Bool) → flag b ≤ 1
flag_le true = omega arith
flag_le false = omega arith

consistent-IsClosed :
    (k : ℕ) (s : Streamed) (t : Text) → k ≤ 1 → IsConsistent k s → IsClosed s (some t)
consistent-IsClosed k s t l (o, (c, (b, m))) = (o, omega (arith, m, l))

module _ (c : Client) where
  -- A piece without a mark is written, in a state where it fits.
  write_plain :
      (p : Piece) (s : Streamed)
      → ((n : ℕ) → next_index n p ≡ n)
      → mark p ≡ 0
      → Fits s.tool_block_count p
      → IsStreaming s
      → FlowIs IsStreaming IsClosed (write_piece c p s)
  write_plain p s plain unmarked f h =
      let l = flag_le s.finished in
      let there : (n : ℕ) → IsConsistent (flag s.finished) (with_piece s p n) = λ n.
        subst (λ j. IsConsistent j (with_piece s p n)) (omega (arith, unmarked))
          (with_piece-IsConsistent p plain (flag s.finished) n s f h) in
      write_piece-FlowIs IsStreaming IsClosed c p s there
        (λ t. consistent-IsClosed (flag s.finished) s t l h)
        (λ n t. consistent-IsClosed (flag s.finished) (with_piece s p n) t l (there n))

  -- A call of a tool starts with the next index.
  start_call :
      (b : ℤ) (id name : Text) (s : Streamed)
      → IsStreaming s
      → FlowIs IsStreaming IsClosed (
          write_piece c (tool_start s.tool_block_count id name) (record s {
            tool_index_by_block = (b, s.tool_block_count) ∷ s.tool_index_by_block;
            tool_block_count = suc s.tool_block_count;
          }))
  start_call b id name s (o, (e, (m, k))) =
      let p = tool_start s.tool_block_count id name in
      let t : Streamed = record s {
        tool_index_by_block = (b, s.tool_block_count) ∷ s.tool_index_by_block;
        tool_block_count = suc s.tool_block_count;
      } in
      let there : (n : ℕ) → IsConsistent (flag s.finished) (with_piece t p n) = λ n. (
        IsOrdered-snoc 0 s.sent p o (sym e),
        (
          started-snoc 0 s.sent p ∙ ap suc e,
          (
            (omega arith, Below-suc s.tool_block_count s.tool_index_by_block m),
            omega (arith, marks-snoc s.sent p, k),
          ),
        ),
      ) in
      let l = flag_le s.finished in
      write_piece-FlowIs IsStreaming IsClosed c p t there (λ x. (o, omega (arith, k, l)))
        (λ n x. consistent-IsClosed (flag s.finished) (with_piece t p n) x l (there n))

  -- After finish.
  abbrev IsDone : Streamed → Type 0
  IsDone s = IsConsistent 1 s × (s.finished ≡ true)

  -- While finish writes.
  abbrev IsEnding : Streamed → Type 0
  IsEnding s = IsConsistent 0 s × (s.finished ≡ true)

  write_piece-IsEnding :
      (p : Piece) (s : Streamed)
      → ((n : ℕ) → next_index n p ≡ n)
      → mark p ≡ 0
      → Fits s.tool_block_count p
      → IsEnding s
      → FlowIs IsEnding IsClosed (write_piece c p s)
  write_piece-IsEnding p s plain unmarked f (h, d) =
      let there : (n : ℕ) → IsConsistent 0 (with_piece s p n) = λ n.
        subst (λ j. IsConsistent j (with_piece s p n)) (omega (arith, unmarked))
          (with_piece-IsConsistent p plain 0 n s f h) in
      write_piece-FlowIs IsEnding IsClosed c p s (λ n. (there n, d))
        (λ t. consistent-IsClosed 0 s t (omega arith) h)
        (λ n t. consistent-IsClosed 0 (with_piece s p n) t (omega arith) (there n))

  write_mark : (s : Streamed) → IsEnding s → FlowIs IsDone IsClosed (write_piece c done_mark s)
  write_mark s (h, d) =
      let there : (n : ℕ) → IsConsistent 1 (with_piece s done_mark n) = λ n.
        subst (λ j. IsConsistent j (with_piece s done_mark n)) (omega arith)
          (with_piece-IsConsistent done_mark (λ n. refl) 0 n s tt h) in
      write_piece-FlowIs IsDone IsClosed c done_mark s (λ n. (there n, d))
        (λ t. consistent-IsClosed 0 s t (omega arith) h)
        (λ n t. consistent-IsClosed 1 (with_piece s done_mark n) t (omega arith) (there n))

  finish-IsDone : (s : Streamed) → IsStreaming s → FlowIs IsDone IsClosed (finish c s)
  unfolding finish
  finish-IsDone s h =
      if-FlowIs IsDone IsClosed s.finished _ _ (λ e. (subst (λ b. IsConsistent (flag b) s) e h, e))
        (λ e.
          let t : Streamed = record s { finished = true } in
          let begin : IsEnding t = (subst (λ b. IsConsistent (flag b) s) e h, refl) in
          then_flow-FlowIs IsEnding IsDone IsClosed _ _
            (write_piece-IsEnding (finish_piece s.finish_reason) t (λ n. refl) refl tt begin)
            (λ u h.
              then_flow-FlowIs IsEnding IsDone IsClosed _ _
                (if-FlowIs IsEnding IsClosed c.include_usage _ (running u)
                  (λ _. write_piece-IsEnding (usage_piece u.usage) u (λ n. refl) refl tt h)
                  (λ _. h))
                write_mark))

  done-IsStreaming : (m : Flow Streamed) → FlowIs IsDone IsClosed m → FlowIs IsStreaming IsClosed m
  done-IsStreaming (running s) (h, e) = subst (λ b. IsConsistent (flag b) s) (sym e) h
  done-IsStreaming (returned s e) h = h

  finish-IsStreaming : (s : Streamed) → IsStreaming s → FlowIs IsStreaming IsClosed (finish c s)
  finish-IsStreaming s h = done-IsStreaming (finish c s) (finish-IsDone s h)

  write_role :
      (s : Streamed) → IsStreaming s → FlowIs IsStreaming IsClosed (write_piece c role_piece s)
  write_role s h = write_plain role_piece s (λ n. refl) refl tt h

  write_text :
      (t : Text) (s : Streamed)
      → IsStreaming s
      → FlowIs IsStreaming IsClosed (write_piece c (text_piece t) s)
  write_text t s h = write_plain (text_piece t) s (λ n. refl) refl tt h

  add_arguments-IsStreaming :
      (o : Option ℕ) (partial : Text) (s : Streamed)
      → ((i : ℕ) → o ≡ some i → i < s.tool_block_count)
      → IsStreaming s
      → FlowIs IsStreaming IsClosed (add_arguments c o partial s)
  add_arguments-IsStreaming none partial s l h = h
  add_arguments-IsStreaming (some i) partial s l h =
      if-FlowIs IsStreaming IsClosed (is_empty partial) (running s) _ (λ _. h)
        (λ _. write_plain (tool_arguments i partial) s (λ n. refl) refl (l i refl) h)

  add_delta-IsStreaming :
      (event delta : Members) (s : Streamed)
      → IsStreaming s
      → FlowIs IsStreaming IsClosed (add_delta c event delta s)
  add_delta-IsStreaming event delta s h =
      let b = int_value c.outer.whole (field "index" event) in
      let known =
        add_arguments-IsStreaming (tool_index b s.tool_index_by_block)
          (text_of (field "partial_json" delta)) s
          (λ i e. tool_index-Below b s.tool_index_by_block s.tool_block_count i h.1.1.0 e) h in
      search (if-FlowIs, write_text, known)

  note_reason-IsStreaming :
      (reason : Text) (s : Streamed) → IsStreaming s → IsStreaming (note_reason c reason s)
  note_reason-IsStreaming [] s h = h
  note_reason-IsStreaming (b ∷ reason) s h = h

  stream_event-IsStreaming :
      (event : Members) (s : Streamed)
      → IsStreaming s
      → FlowIs IsStreaming IsClosed (stream_event c event s)
  unfolding stream_event
  stream_event-IsStreaming event s h =
      let fails = λ (t : Text). consistent-IsClosed (flag s.finished) s t (flag_le s.finished) h in
      search
        (
          if-FlowIs, write_role, start_call, add_delta-IsStreaming, note_reason-IsStreaming,
          finish-IsStreaming, fails,
        )
        depth 12 fits 5000

  stream_line-IsStreaming :
      (line : Text) (s : Streamed)
      → IsStreaming s
      → FlowIs IsStreaming IsClosed (stream_line c line s)
  unfolding stream_line
  stream_line-IsStreaming line s h = stream_event-IsStreaming (event_of_line c line) _ h

  at_eof-IsClosed :
      (m : Flow Streamed) → FlowIs IsDone IsClosed m → FlowIs Never IsClosed (at_eof c m)
  at_eof-IsClosed (running s) ((o, (e, (m, k))), d) = (o, k)
  at_eof-IsClosed (returned s e) h = h

  stream_lines-IsClosed :
      (read_error : Option Text) (lines : List Text) (s : Streamed)
      → IsStreaming s
      → FlowIs Never IsClosed (stream_lines c read_error lines s)
  unfolding stream_lines
  stream_lines-IsClosed none [] s h = at_eof-IsClosed (finish c s) (finish-IsDone s h)
  stream_lines-IsClosed (some e) [] s h =
      consistent-IsClosed (flag s.finished) s e (flag_le s.finished) h
  stream_lines-IsClosed read_error (line ∷ lines) s h =
      then_flow-FlowIs IsStreaming Never IsClosed (stream_line c line s)
        (stream_lines c read_error lines) (stream_line-IsStreaming line s h)
        (stream_lines-IsClosed read_error lines)

-- Whatever an Anthropic provider streams and however the connections fail, the loop returns, and then
-- the calls of tools that were sent to the client are numbered 0, 1, 2 and so on in the order in which
-- they were sent, the arguments that were sent belong to a call that was sent before them, the mark
-- of the end was sent at most once, and exactly once if the stream was read to its end without an
-- error.
pub stream_lines-order :
    (c : Client) (read_error : Option Text) (lines : List Text)
    → (s : Streamed) × ((e : Option Text) × ((stream_lines c read_error lines stream_start
            ≡ returned s e)
          × IsClosed s e))
stream_lines-order c read_error lines =
    returned_of IsClosed (stream_lines c read_error lines stream_start)
      (stream_lines-IsClosed c read_error lines stream_start (tt, (refl, (tt, refl))))
