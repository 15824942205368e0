-- ===== src/Gateway/Reverse/Stream/Closed.antt =====
-- The order of what proxyOpenAIStreamAsAnthropic (bridge_anthropic_openai.go) writes.
use phlox_gw.Common.{Option, none, some, List, [], ◌∷◌, ◌≡◌, refl, inl, inr, Option-cases, arith}
use phlox_gw.Common.Int.{ℤ}
use phlox_gw.Common.Text.{Text, codes, text_eq}
use phlox_gw.Gateway.Usage.{TokenUsage, merge_estimated_usage}
use phlox_gw.Gateway.Flows.{
  Flow, running, returned, FlowIs, then_flow-FlowIs, if-FlowIs, Never, returned_of,
}
use phlox_gw.Gateway.Bridge.Events.{open_ai_sse_payload}
use phlox_gw.Gateway.Reverse.Events.{message_start, Client}
use phlox_gw.Gateway.Reverse.Blocks.{Reversed, reversed_start, write_event}
use phlox_gw.Gateway.Reverse.Blocks.Writes.{IsLive, IsClosed, live-IsClosed, write_plain, IsGood}
use phlox_gw.Gateway.Reverse.Stream.{
  write_choices, finish, ended, close_stream, counted, chunk_choices, reverse_lines,
  proxy_open_ai_stream_as_anthropic,
}
use phlox_gw.Gateway.Reverse.Stream.Choices.{write_choices-IsGood}
use phlox_gw.Gateway.Reverse.Stream.Finish.{Done, finish-Done}

module _ (c : Client) where
  ended-IsClosed :
      (m : Flow Reversed) → FlowIs (Done c) IsClosed m → FlowIs Never IsClosed (ended c m)
  ended-IsClosed (running s) h = h
  ended-IsClosed (returned s e) h = h

  -- The variables that say nothing of blocks.
  recount-IsGood :
      (s : Reversed) (usage : TokenUsage) (n : ℤ)
      → IsGood s
      → IsGood (record s { usage = usage; estimated_output_tokens = n })
  recount-IsGood s usage n (h, cov) = (
    record {
      order = h.order;
      count = h.count;
      text = h.text;
      tools = h.tools;
      unmarked = h.unmarked;
    },
    cov,
  )

  close_stream-IsClosed : (s : Reversed) → IsGood s → FlowIs Never IsClosed (close_stream c s)
  unfolding close_stream
  close_stream-IsClosed s h =
      let usage = merge_estimated_usage s.usage c.input_tokens s.estimated_output_tokens in
      let t : Reversed = record s { usage = usage } in
      ended-IsClosed (finish c usage.output t)
        (finish-Done c usage.output t (recount-IsGood s usage s.estimated_output_tokens h))

  reverse_lines-IsClosed :
      (read_error : Option Text) (lines : List Text) (s : Reversed)
      → IsGood s
      → FlowIs Never IsClosed (reverse_lines c read_error lines s)
  unfolding reverse_lines
  reverse_lines-IsClosed none [] s h = close_stream-IsClosed s h
  reverse_lines-IsClosed (some e) [] s h = live-IsClosed s e h.0
  reverse_lines-IsClosed read_error (line ∷ lines) s h =
      elim (Option-cases (open_ai_sse_payload line)) [
        | inl e ↦ rw (reverse_lines, e) (reverse_lines-IsClosed read_error lines s h)
        | inr (payload, e) ↦
            rw (reverse_lines, e)
              (if-FlowIs Never IsClosed (text_eq payload (codes "[DONE]")) (close_stream c s) _
                (λ _. close_stream-IsClosed s h)
                (λ _.
                  then_flow-FlowIs IsGood Never IsClosed
                    (write_choices c (chunk_choices c (c.outer.codec.unmarshal payload))
                      (counted c line payload s))
                    (reverse_lines c read_error lines)
                    (write_choices-IsGood c (chunk_choices c (c.outer.codec.unmarshal payload))
                      (counted c line payload s)
                      (recount-IsGood s (counted c line payload s).usage
                        (counted c line payload s).estimated_output_tokens h))
                    (reverse_lines-IsClosed read_error lines)))
      ]

-- Whatever a provider of the protocol of OpenAI streams and however the connections fail, the loop
-- returns, and then the content blocks that were sent to the client are numbered 0, 1, 2 and so on in
-- the order in which they were sent, each delta and each stop is of a block that was started before
-- it, and message_stop was sent at most once; if the loop returned without an error, it was sent
-- exactly once, and each block was stopped.
pub proxy_open_ai_stream_as_anthropic-order :
    (c : Client) (read_error : Option Text) (lines : List Text)
    → (s : Reversed) × ((e : Option Text) × ((proxy_open_ai_stream_as_anthropic c read_error lines
            ≡ returned s e)
          × IsClosed s e))
unfolding proxy_open_ai_stream_as_anthropic
proxy_open_ai_stream_as_anthropic-order c read_error lines =
    let live : IsLive reversed_start = record {
      order = tt;
      count = refl;
      text = tt;
      tools = tt;
      unmarked = refl;
    } in
    returned_of IsClosed (proxy_open_ai_stream_as_anthropic c read_error lines) (
      then_flow-FlowIs IsGood Never IsClosed (write_event c message_start reversed_start)
        (reverse_lines c read_error lines)
        (write_plain c IsGood message_start reversed_start refl live (λ m. refl) tt
          (λ n l. (l, λ i m. absurd (omega (arith, m)))))
        (reverse_lines-IsClosed c read_error lines))
