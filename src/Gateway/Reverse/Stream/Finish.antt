-- ===== src/Gateway/Reverse/Stream/Finish.antt =====
-- finish of bridge_anthropic_openai.go stops each block.
use mathlib.Core.Path.{subst}
use phlox_gw.Common.{
  ℕ, Option, none, some, List, [], ◌∷◌, ◌++◌, ◌<◌, ◌≡◌, refl, sym, ◌∙◌, ◌⊎◌, inl, inr, arith,
}
use phlox_gw.Common.Int.{ℤ}
use phlox_gw.Common.Text.{codes}
use phlox_gw.Gateway.Flows.{FlowIs, then_flow-FlowIs}
use phlox_gw.Gateway.Reverse.Events.{block_stop, message_delta, message_stop, Client}
use phlox_gw.Gateway.Reverse.Blocks.{
  ToolBlock, Reversed, or_else_text, write_event, stop_block, start_tool_block,
}
use phlox_gw.Gateway.Reverse.Blocks.Order.{
  IsOrdered-snoc, started-snoc, marks-snoc, Stops, Stops-snoc, Stops-last, Tools, Tools-suc, Owns,
  either,
}
use phlox_gw.Gateway.Reverse.Blocks.Writes.{
  IsLive, IsClosed, live-IsClosed, write_event-FlowIs, write_plain, Covered, IsGood,
}
use phlox_gw.Gateway.Reverse.Blocks.Texts.{Stopped, stop_block-Stopped, older, some_eq}
use phlox_gw.Gateway.Reverse.Blocks.Starts.{Started, start_tool_block-Started}
use phlox_gw.Gateway.Reverse.Stream.{stop_tool, stop_tools, finish}

-- In finish: each block that was started was stopped, or is one of the tools' that are left.
abbrev Left : List ToolBlock → Reversed → Type 0
Left bs s =
    IsLive s
    × (Tools s.next_block_index bs
        × ((i : ℕ) → i < s.next_block_index → Stops i s.sent ⊎ Owns i bs))

module _ (c : Client) where
  stop_tool-Left :
      (b : ToolBlock) (bs : List ToolBlock) (o : Option ℕ) (s : Reversed)
      → b.block ≡ o
      → Left (b ∷ bs) s
      → FlowIs (Left bs) IsClosed (stop_tool c o b s)
  stop_tool-Left b bs (some j) s e (h, ((w, v), cov)) =
      write_plain c (Left bs) (block_stop j) s refl h (λ m. refl) (let w' = rw e at w in w')
        (λ n l. (
          l,
          (
            v,
            λ i m.
                either (cov i m) (λ p. inl (Stops-snoc i s.sent (block_stop j) p))
                  (λ p.
                    either p
                      (λ q.
                        let same : some j ≡ some i = sym e ∙ q in
                        inl (
                          subst (λ x. Stops x (s.sent ++ block_stop j ∷ [])) (some_eq same)
                            (Stops-last j s.sent)))
                      inr),
          ),
        ))
  stop_tool-Left b bs none s e (h, ((w, v), cov)) =
      let j = s.next_block_index in
      then_flow-FlowIs (Started b s) (Left bs) IsClosed (start_tool_block c b s)
        (write_event c (block_stop j)) (start_tool_block-Started c b s e h)
        (λ u g.
          write_plain c (Left bs) (block_stop j) u refl g.live (λ m. refl) (omega (arith, g.next))
            (λ n l. (
              l,
              (
                subst (λ m. Tools m bs) (sym g.next) (Tools-suc j bs v),
                λ i m.
                    either (older i j (omega (arith, g.next, m)))
                      (λ p. inl (
                        subst (λ x. Stops x (u.sent ++ block_stop j ∷ [])) (sym p)
                          (Stops-last j u.sent)))
                      (λ p.
                        either (cov i p)
                          (λ q. inl (Stops-snoc i u.sent (block_stop j) (g.stops i q)))
                          (λ q. either q (λ x. absurd (let x' = sym e ∙ x in ground arith)) inr)),
              ),
            )))

  stop_tools-Left :
      (bs : List ToolBlock) (s : Reversed)
      → Left bs s
      → FlowIs (Left []) IsClosed (stop_tools c bs s)
  unfolding stop_tools
  stop_tools-Left [] s h = h
  stop_tools-Left (b ∷ bs) s h =
      then_flow-FlowIs (Left bs) (Left []) IsClosed (stop_tool c b.block b s) (stop_tools c bs)
        (stop_tool-Left b bs b.block s refl h) (stop_tools-Left bs)

  abbrev pub Done : Reversed → Type 0
  Done s = IsClosed s none

  write_stop-Done : (s : Reversed) → Left [] s → FlowIs Done IsClosed (write_event c message_stop s)
  write_stop-Done s (h, (v, cov)) =
      write_event-FlowIs c Done IsClosed message_stop s
        (λ n. (
          IsOrdered-snoc 0 s.sent message_stop h.order tt,
          (
            omega (arith, marks-snoc s.sent message_stop, h.unmarked),
            λ i l. Stops-snoc i s.sent message_stop (
                either (cov i (omega (arith, h.count, started-snoc 0 s.sent message_stop, l)))
                  (λ p. p) (λ p. absurd p)),
          ),
        ))
        (λ t. live-IsClosed s t h)
        (λ n t. (
          IsOrdered-snoc 0 s.sent message_stop h.order tt,
          omega (arith, marks-snoc s.sent message_stop, h.unmarked),
        ))

  Stopped-Left : (s u : Reversed) → Covered s → Stopped c s u → Left u.tool_blocks u
  Stopped-Left s u cov d = (
    d.live,
    (
      d.live.tools,
      λ i l.
          either (cov i (omega (arith, d.next, l))) (λ p. inl (d.stops i p))
            (λ p. either p (λ q. inl (d.text i q)) (λ q. inr (subst (Owns i) (sym d.tools) q))),
    ),
  )

  pub finish-Done : (n : ℤ) (s : Reversed) → IsGood s → FlowIs Done IsClosed (finish c n s)
  unfolding finish
  finish-Done n s (h, cov) =
      then_flow-FlowIs (Stopped c s) Done IsClosed (stop_block c s.text_block s) _
        (stop_block-Stopped c s.text_block s refl h)
        (λ u d.
          then_flow-FlowIs (Left []) Done IsClosed (stop_tools c u.tool_blocks u) _
            (stop_tools-Left u.tool_blocks u (Stopped-Left s u cov d))
            (λ v l.
              then_flow-FlowIs (Left []) Done IsClosed _ (write_event c message_stop)
                (write_plain c (Left [])
                  (message_delta (or_else_text v.stop_reason (codes "end_turn")) n) v refl l.0
                  (λ m. refl) tt
                  (λ m k. (
                    k,
                    (
                      tt,
                      λ i p.
                          either (l.1.1 i p) (λ q. inl (Stops-snoc i v.sent _ q)) (λ q. absurd q),
                    ),
                  )))
                write_stop-Done))
