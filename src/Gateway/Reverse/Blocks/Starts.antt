-- ===== src/Gateway/Reverse/Blocks/Starts.antt =====
-- The start of the block of a tool in proxyOpenAIStreamAsAnthropic (bridge_anthropic_openai.go).
use mathlib.Core.Path.{subst}
use phlox_gw.Common.{
  ℕ, suc, true, none, some, List, [], ◌∷◌, ◌≡◌, refl, sym, ap, ◌∙◌, inl, inr, Bool-cases, arith,
}
use phlox_gw.Common.Int.{ℤ, eq_ℤ}
use phlox_gw.Common.Text.{is_empty}
use phlox_gw.Gateway.Flows.{running, FlowIs, then_flow-FlowIs, if-FlowIs}
use phlox_gw.Gateway.Reverse.Events.{Event, tool_start, input_delta, Client}
use phlox_gw.Gateway.Reverse.Blocks.{
  ToolBlock, Reversed, with_event, write_event, stop_block, named, open_block, flush_pending,
  start_unless, start_tool_block, find_tool, put_tool,
}
use phlox_gw.Gateway.Reverse.Blocks.Order.{
  Stops, Stops-snoc, Tools-suc, Owns, put_tool-Tools, put_tool-Owns_new, put_tool-Owns,
}
use phlox_gw.Gateway.Reverse.Blocks.Writes.{IsLive, IsClosed, write_plain, write_start, opened}
use phlox_gw.Gateway.Reverse.Blocks.Texts.{Stopped, stop_block-Stopped}

eq_ℤ_refl : (k : ℤ) → eq_ℤ k k ≡ true
eq_ℤ_refl k = ground arith

pub find_tool-put_tool :
    (b : ToolBlock) (bs : List ToolBlock) → find_tool b.open_ai_index (put_tool b bs) ≡ b
unfolding find_tool put_tool
find_tool-put_tool b [] = rw (eq_ℤ_refl b.open_ai_index) refl
find_tool-put_tool b (b' ∷ bs) = elim (Bool-cases (eq_ℤ b.open_ai_index b'.open_ai_index)) [
  | inl e ↦ rw (e, eq_ℤ_refl b.open_ai_index) refl
  | inr e ↦ rw (e, e) (find_tool-put_tool b bs)
]

-- What starting the block of a tool changes.
pub record Started (b : ToolBlock) (s u : Reversed) : Type 0 where
  pub live : IsLive u
  pub next : u.next_block_index ≡ suc s.next_block_index
  pub no_text : u.text_block ≡ none
  pub stops : (i : ℕ) → Stops i s.sent → Stops i u.sent
  pub text : (i : ℕ) → s.text_block ≡ some i → Stops i u.sent
  pub found : (find_tool b.open_ai_index u.tool_blocks).block ≡ some s.next_block_index
  pub owns_new : Owns s.next_block_index u.tool_blocks
  pub owns :
      (find_tool b.open_ai_index s.tool_blocks).block ≡ none
      → (i : ℕ) → Owns i s.tool_blocks
      → Owns i u.tool_blocks

module _ (c : Client) (b : ToolBlock) (s : Reversed) where
  abbrev new : ToolBlock
  new = named c b s.next_block_index

  with_tool-Started :
      (u : Reversed) (e : Event) (n : ℕ)
      → Stopped c s u
      → IsLive (with_event (opened u none (put_tool new u.tool_blocks)) e n)
      → Started b s (with_event (opened u none (put_tool new u.tool_blocks)) e n)
  with_tool-Started u e n d l = record {
    live = l;
    next = ap suc d.next;
    no_text = refl;
    stops = λ i p. Stops-snoc i u.sent e (d.stops i p);
    text = λ i p. Stops-snoc i u.sent e (d.text i p);
    found = ap (λ (x : ToolBlock). x.block) (find_tool-put_tool new u.tool_blocks);
    owns_new = put_tool-Owns_new s.next_block_index new u.tool_blocks refl;
    owns = λ none_yet i p.
        put_tool-Owns i new u.tool_blocks
          (λ q.
            let q' : (find_tool b.open_ai_index s.tool_blocks).block ≡ some i =
              subst (λ x. (find_tool b.open_ai_index x).block ≡ some i) d.tools q in
            absurd (let x = sym none_yet ∙ q' in ground arith))
          (subst (Owns i) (sym d.tools) p);
  }

  open_block-Started :
      (u : Reversed)
      → Stopped c s u
      → FlowIs (Started b s) IsClosed (open_block c new (record u { text_block = none }))
  open_block-Started u d =
      write_start c (Started b s) (tool_start u.next_block_index new.id new.name) u refl d.live none
        (put_tool new u.tool_blocks) (λ m. refl) (λ m p. sym p) tt
        (put_tool-Tools (suc u.next_block_index) new u.tool_blocks (omega (arith, d.next))
          (Tools-suc u.next_block_index u.tool_blocks d.live.tools))
        (λ n l. with_tool-Started u (tool_start u.next_block_index new.id new.name) n d l)

  abbrev flushed : Reversed → Reversed
  flushed u = record u { tool_blocks = put_tool (record new { pending_json = [] }) u.tool_blocks }

  flushed-Started : (u : Reversed) → Started b s u → Started b s (flushed u)
  flushed-Started u h =
      let new' : ToolBlock = record new { pending_json = [] } in
      let live : IsLive (flushed u) = record {
        order = h.live.order;
        count = h.live.count;
        text = h.live.text;
        tools =
            put_tool-Tools u.next_block_index new' u.tool_blocks (omega (arith, h.next))
              h.live.tools;
        unmarked = h.live.unmarked;
      } in
      record {
        live = live;
        next = h.next;
        no_text = h.no_text;
        stops = h.stops;
        text = h.text;
        found = ap (λ (x : ToolBlock). x.block) (find_tool-put_tool new' u.tool_blocks);
        owns_new = put_tool-Owns_new s.next_block_index new' u.tool_blocks refl;
        owns = λ none_yet i p.
            put_tool-Owns i new' u.tool_blocks (λ q. sym h.found ∙ q) (h.owns none_yet i p);
      }

  flush_pending-Started :
      (u : Reversed)
      → Started b s u
      → FlowIs (Started b s) IsClosed (flush_pending c new s.next_block_index u)
  flush_pending-Started u h =
      let e = input_delta s.next_block_index b.pending_json in
      let h' = flushed-Started u h in
      if-FlowIs (Started b s) IsClosed (is_empty b.pending_json) (running u)
        (write_event c e (flushed u)) (λ _. h)
        (λ _.
          write_plain c (Started b s) e (flushed u) refl h'.live (λ m. refl) (omega (arith, h.next))
            (λ n l. record {
              live = l;
              next = h'.next;
              no_text = h'.no_text;
              stops = λ i p. Stops-snoc i u.sent e (h'.stops i p);
              text = λ i p. Stops-snoc i u.sent e (h'.text i p);
              found = h'.found;
              owns_new = h'.owns_new;
              owns = h'.owns;
            }))

  pub start_tool_block-Started :
      b.block ≡ none → IsLive s → FlowIs (Started b s) IsClosed (start_tool_block c b s)
  unfolding start_tool_block
  start_tool_block-Started e h =
      subst (λ o. FlowIs (Started b s) IsClosed (start_unless c o b s)) (sym e)
        (then_flow-FlowIs (Stopped c s) (Started b s) IsClosed (stop_block c s.text_block s) _
          (stop_block-Stopped c s.text_block s refl h)
          (λ u d.
            then_flow-FlowIs (Started b s) (Started b s) IsClosed _
              (flush_pending c new s.next_block_index) (open_block-Started u d)
              flush_pending-Started))
