-- ===== src/Gateway/Reverse/Blocks/Texts.antt =====
-- The text block of proxyOpenAIStreamAsAnthropic (bridge_anthropic_openai.go).
use mathlib.Core.Path.{subst}
use phlox_gw.Common.{
  ℕ, suc, Option, none, some, [], ◌∷◌, ◌++◌, ◌<◌, ◌≡◌, refl, sym, ap, ◌∙◌, ◌⊎◌, inl, inr, arith,
}
use phlox_gw.Common.Text.{Text, is_empty}
use phlox_gw.Gateway.Flows.{running, FlowIs, then_flow-FlowIs, if-FlowIs}
use phlox_gw.Gateway.Reverse.Events.{text_start, text_delta, block_stop, Client}
use phlox_gw.Gateway.Reverse.Blocks.{
  Reversed, write_event, start_text, add_to_text, write_text_delta, stop_block,
}
use phlox_gw.Gateway.Reverse.Blocks.Order.{Stops, Stops-snoc, Stops-last, Within, Tools-suc, either}
use phlox_gw.Gateway.Reverse.Blocks.Writes.{
  IsLive, IsClosed, write_plain, write_start, opened, Covered, IsGood, with_event-Covered,
}

pub some_eq : {i j : ℕ} → some i ≡ some j → i ≡ j
some_eq h = cc

-- After a new block: i is the new one, or an older one.
pub older : (i n : ℕ) → i < suc n → (i ≡ n) ⊎ (i < n)
older i n h = ground arith

module _ (c : Client) where
  add_to_text-IsGood :
      (t : Text) (o : Option ℕ) (s : Reversed)
      → s.text_block ≡ o
      → IsGood s
      → FlowIs IsGood IsClosed (add_to_text c o t s)
  add_to_text-IsGood t (some i) s e (h, k) =
      write_plain c IsGood (text_delta i t) s refl h (λ m. refl)
        (subst (Within s.next_block_index) e h.text)
        (λ n l. (l, with_event-Covered (text_delta i t) s n k))
  add_to_text-IsGood t none s e (h, k) =
      let j = s.next_block_index in
      let r = opened s (some j) s.tool_blocks in
      let mine : Covered r = λ i l.
        either (older i j l) (λ p. inr (inl (ap some (sym p))))
          (λ p. either (k i p) inl (λ q.
            either q (λ x. absurd (let x' = sym e ∙ x in ground arith)) (λ x. inr (inr x)))) in
      let Next : Reversed → Type 0 = λ u. IsGood u × (j < u.next_block_index) in
      then_flow-FlowIs Next IsGood IsClosed (start_text c s) (write_event c (text_delta j t))
        (write_start c Next (text_start j) s refl h (some j) s.tool_blocks (λ m. refl)
          (λ m p. sym p) (omega arith) (Tools-suc j s.tool_blocks h.tools)
          (λ n l. ((l, with_event-Covered (text_start j) r n mine), omega arith)))
        (λ u g.
          write_plain c IsGood (text_delta j t) u refl g.0.0 (λ m. refl) g.1
            (λ n l. (l, with_event-Covered (text_delta j t) u n g.0.1)))

  pub write_text_delta-IsGood :
      (t : Text) (s : Reversed) → IsGood s → FlowIs IsGood IsClosed (write_text_delta c t s)
  unfolding write_text_delta
  write_text_delta-IsGood t s h =
      if-FlowIs IsGood IsClosed (is_empty t) (running s) (add_to_text c s.text_block t s) (λ _. h)
        (λ _. add_to_text-IsGood t s.text_block s refl h)

  -- What stopping the text block changes.
  pub record Stopped (s u : Reversed) : Type 0 where
    pub live : IsLive u
    pub next : u.next_block_index ≡ s.next_block_index
    pub tools : u.tool_blocks ≡ s.tool_blocks
    pub stops : (i : ℕ) → Stops i s.sent → Stops i u.sent
    pub text : (i : ℕ) → s.text_block ≡ some i → Stops i u.sent

  pub stop_block-Stopped :
      (o : Option ℕ) (s : Reversed)
      → s.text_block ≡ o
      → IsLive s
      → FlowIs (Stopped s) IsClosed (stop_block c o s)
  stop_block-Stopped none s e h = record {
    live = h;
    next = refl;
    tools = refl;
    stops = λ i p. p;
    text = λ i p. absurd (let p' = sym e ∙ p in ground arith);
  }
  stop_block-Stopped (some j) s e h =
      write_plain c (Stopped s) (block_stop j) s refl h (λ m. refl)
        (subst (Within s.next_block_index) e h.text)
        (λ n l. record {
          live = l;
          next = refl;
          tools = refl;
          stops = λ i p. Stops-snoc i s.sent (block_stop j) p;
          text = λ i p.
              let same : j ≡ i = some_eq (sym e ∙ p) in
              subst (λ x. Stops x (s.sent ++ block_stop j ∷ [])) same (Stops-last j s.sent);
        })
