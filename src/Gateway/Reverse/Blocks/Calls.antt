-- ===== src/Gateway/Reverse/Blocks/Calls.antt =====
-- The deltas of tool calls in proxyOpenAIStreamAsAnthropic (bridge_anthropic_openai.go).
use mathlib.Core.Path.{subst}
use phlox_gw.Common.{
  ℕ, ◌&&◌, Option, none, some, List, [], ◌∷◌, ◌++◌, ◌≡◌, refl, sym, ap, ◌∙◌, inl, inr, Option-cases,
  Bool-cases, ==_iff, arith,
}
use phlox_gw.Common.Int.{ℤ, eq_ℤ, eq_of_parts}
use phlox_gw.Common.Text.{Text, is_empty}
use phlox_gw.Gateway.Json.{Items, nil, cons, Members}
use phlox_gw.Gateway.Fields.{field, text_of, as_object, object_of, int_value}
use phlox_gw.Gateway.Flows.{Flow, running, returned, FlowIs, then_flow-FlowIs, if-FlowIs}
use phlox_gw.Gateway.Reverse.Events.{input_delta, Client}
use phlox_gw.Gateway.Reverse.Blocks.{
  ToolBlock, Reversed, start_unless, start_tool_block, find_tool, put_tool, start_if_named,
  write_arguments, add_arguments, with_names, write_tool_call, write_tool_calls,
}
use phlox_gw.Gateway.Reverse.Blocks.Order.{
  Within, Owns, either, put_tool-Tools, find_tool-Within, put_tool-Owns,
}
use phlox_gw.Gateway.Reverse.Blocks.Writes.{
  IsClosed, write_plain, Covered, IsGood, with_event-Covered,
}
use phlox_gw.Gateway.Reverse.Blocks.Texts.{older}
use phlox_gw.Gateway.Reverse.Blocks.Starts.{Started, start_tool_block-Started, find_tool-put_tool}

find_tool_index : (k : ℤ) (bs : List ToolBlock) → (find_tool k bs).open_ai_index ≡ k
unfolding find_tool
find_tool_index k [] = refl
find_tool_index k (b ∷ bs) = elim (Bool-cases (eq_ℤ k b.open_ai_index)) [
  | inl e ↦
      let same : k ≡ b.open_ai_index = eq_of_parts k b.open_ai_index ((==_iff _ _).0 e) in
      rw e (sym same)
  | inr e ↦ rw e (find_tool_index k bs)
]

-- A block takes the place of the one of its index, with the same number.
replace-IsGood :
    (k : ℤ) (b : ToolBlock) (s : Reversed)
    → b.open_ai_index ≡ k
    → b.block ≡ (find_tool k s.tool_blocks).block
    → IsGood s
    → IsGood (record s { tool_blocks = put_tool b s.tool_blocks })
replace-IsGood k b s e same (h, cov) = (
  record {
    order = h.order;
    count = h.count;
    text = h.text;
    tools =
        put_tool-Tools s.next_block_index b s.tool_blocks
          (subst (Within s.next_block_index) (sym same)
            (find_tool-Within s.next_block_index k s.tool_blocks h.tools))
          h.tools;
    unmarked = h.unmarked;
  },
  λ i l. either (cov i l) inl (λ p. inr (
      either p inl (λ q. inr (
        put_tool-Owns i b s.tool_blocks
          (λ x. same ∙ subst (λ j. (find_tool j s.tool_blocks).block ≡ some i) e x) q)))),
)

module _ (c : Client) where
  Started-IsGood :
      (b : ToolBlock) (s u : Reversed)
      → (find_tool b.open_ai_index s.tool_blocks).block ≡ none
      → Covered s
      → Started b s u
      → IsGood u
  Started-IsGood b s u none_yet cov h = (
    h.live,
    λ i l.
        either (older i s.next_block_index (omega (arith, h.next, l)))
          (λ p. inr (inr (subst (λ j. Owns j u.tool_blocks) (sym p) h.owns_new)))
          (λ p.
            either (cov i p) (λ q. inl (h.stops i q))
              (λ q. either q (λ x. inl (h.text i x)) (λ x. inr (inr (h.owns none_yet i x))))),
  )

  start_tool_block-IsGood :
      (b : ToolBlock) (s : Reversed)
      → find_tool b.open_ai_index s.tool_blocks ≡ b
      → IsGood s
      → FlowIs IsGood IsClosed (start_tool_block c b s)
  unfolding start_tool_block
  start_tool_block-IsGood b s found (h, cov) = elim (Option-cases b.block) [
    | inr (i, e) ↦ subst (λ o. FlowIs IsGood IsClosed (start_unless c o b s)) (sym e) (h, cov)
    | inl e ↦
        weaken (start_tool_block c b s)
          (λ u. Started-IsGood b s u (ap (λ (x : ToolBlock). x.block) found ∙ e) cov)
          (start_tool_block-Started c b s e h)
  ]
    where
      weaken :
          (m : Flow Reversed)
          → ((u : Reversed) → Started b s u → IsGood u)
          → FlowIs (Started b s) IsClosed m
          → FlowIs IsGood IsClosed m
      weaken (running u) f k = f u k
      weaken (returned u e) f k = k

  add_arguments-IsGood :
      (k : ℤ) (args : Text) (s : Reversed) (o : Option ℕ)
      → (find_tool k s.tool_blocks).block ≡ o
      → IsGood s
      → FlowIs IsGood IsClosed (add_arguments c o (find_tool k s.tool_blocks) args s)
  add_arguments-IsGood k args s (some i) e (h, cov) =
      write_plain c IsGood (input_delta i args) s refl h (λ m. refl)
        (subst (Within s.next_block_index) e
          (find_tool-Within s.next_block_index k s.tool_blocks h.tools))
        (λ n l. (l, with_event-Covered (input_delta i args) s n cov))
  add_arguments-IsGood k args s none e h =
      let b = find_tool k s.tool_blocks in
      replace-IsGood k (record b { pending_json = b.pending_json ++ args }) s
        (find_tool_index k s.tool_blocks) refl h

  write_arguments-IsGood :
      (k : ℤ) (args : Text) (s : Reversed)
      → IsGood s
      → FlowIs IsGood IsClosed (write_arguments c (find_tool k s.tool_blocks) args s)
  write_arguments-IsGood k args s h =
      if-FlowIs IsGood IsClosed (is_empty args) (running s) _ (λ _. h)
        (λ _. add_arguments-IsGood k args s (find_tool k s.tool_blocks).block refl h)

  write_tool_call-IsGood :
      (call : Members) (s : Reversed) → IsGood s → FlowIs IsGood IsClosed (write_tool_call c call s)
  unfolding write_tool_call
  write_tool_call-IsGood call s h =
      let k = int_value c.outer.whole (field "index" call) in
      let b = with_names c call (find_tool k s.tool_blocks) in
      let s' : Reversed = record s { tool_blocks = put_tool b s.tool_blocks } in
      let g = replace-IsGood k b s (find_tool_index k s.tool_blocks) refl h in
      then_flow-FlowIs IsGood IsGood IsClosed (start_if_named c b s') _
        (if-FlowIs IsGood IsClosed (is_empty b.id && is_empty b.name) (running s')
          (start_tool_block c b s') (λ _. g)
          (λ _. start_tool_block-IsGood b s' (find_tool-put_tool b s.tool_blocks) g))
        (λ u.
          write_arguments-IsGood k (text_of (field "arguments" (object_of (field "function" call))))
            u)

  pub write_tool_calls-IsGood :
      (xs : Items) (s : Reversed) → IsGood s → FlowIs IsGood IsClosed (write_tool_calls c xs s)
  unfolding write_tool_calls
  write_tool_calls-IsGood nil s h = h
  write_tool_calls-IsGood (cons x xs) s h = elim (Option-cases (as_object x)) [
    | inl e ↦ rw (write_tool_calls, e) (write_tool_calls-IsGood xs s h)
    | inr (call, e) ↦
        rw (write_tool_calls, e)
          (then_flow-FlowIs IsGood IsGood IsClosed (write_tool_call c call s)
            (write_tool_calls c xs) (write_tool_call-IsGood call s h) (write_tool_calls-IsGood xs))
  ]
