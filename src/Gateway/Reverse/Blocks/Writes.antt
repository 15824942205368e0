-- ===== src/Gateway/Reverse/Blocks/Writes.antt =====
-- What holds after an event is written by proxyOpenAIStreamAsAnthropic (bridge_anthropic_openai.go).
use phlox_gw.Common.{
  ℕ, suc, Option, none, some, List, ◌≤◌, ◌<◌, ◌≡◌, ap, ◌∙◌, ◌⊎◌, inl, inr, Option-cases, arith,
}
use phlox_gw.Common.Text.{Text}
use phlox_gw.Gateway.Flows.{FlowIs}
use phlox_gw.Gateway.Reverse.Events.{Event, Client, frame, payload_of}
use phlox_gw.Gateway.Reverse.Blocks.{ToolBlock, Reversed, with_event, sent_event, write_event}
use phlox_gw.Gateway.Reverse.Blocks.Order.{
  next_block, started, Fits, IsOrdered, mark, marks, Stops, IsOrdered-snoc, started-snoc,
  marks-snoc, Stops-snoc, Within, Tools, Owns, either,
}

-- The state is consistent with what was sent, and the end was not sent yet.
pub record IsLive (s : Reversed) : Type 0 where
  pub order : IsOrdered 0 s.sent
  pub count : started 0 s.sent ≡ s.next_block_index
  pub text : Within s.next_block_index s.text_block
  pub tools : Tools s.next_block_index s.tool_blocks
  pub unmarked : marks s.sent ≡ 0

-- What is returned: with no error, the end was sent once, and each block was stopped.
abbrev pub IsClosed : Reversed → Option Text → Type 0
IsClosed s none =
    IsOrdered 0 s.sent × ((marks s.sent ≡ 1) × ((i : ℕ) → i < started 0 s.sent → Stops i s.sent))
IsClosed s (some e) = IsOrdered 0 s.sent × (marks s.sent ≤ 1)

pub live-IsClosed : (s : Reversed) (t : Text) → IsLive s → IsClosed s (some t)
live-IsClosed s t h = (h.order, omega (arith, h.unmarked))

module _ (c : Client) (Q : Reversed → Type 0) (R : Reversed → Option Text → Type 0) where
  sent_event-FlowIs :
      (s : Reversed) (e : Option Text)
      → Q s
      → ((t : Text) → R s (some t))
      → FlowIs Q R (sent_event s e)
  sent_event-FlowIs s none h k = h
  sent_event-FlowIs s (some t) h k = k t

  -- An event is written, or an error is returned before or after it.
  pub write_event-FlowIs :
      (e : Event) (s : Reversed)
      → ((n : ℕ) → Q (with_event s e n))
      → ((t : Text) → R s (some t))
      → ((n : ℕ) (t : Text) → R (with_event s e n) (some t))
      → FlowIs Q R (write_event c e s)
  unfolding write_event
  write_event-FlowIs e s h k l = elim (Option-cases (frame c e)) [
    | inl q ↦ rw (write_event, q) (k (c.outer.marshal_error (payload_of c e)))
    | inr (text, q) ↦
        rw (write_event, q)
          (sent_event-FlowIs (with_event s e (c.write s.sent text).0) (c.write s.sent text).1
            (h (c.write s.sent text).0) (l (c.write s.sent text).0))
  ]

-- An event that starts no block.
with_event-IsLive :
    (e : Event) (s : Reversed) (n : ℕ)
    → ((m : ℕ) → next_block m e ≡ m)
    → mark e ≡ 0
    → Fits s.next_block_index e
    → IsLive s
    → IsLive (with_event s e n)
with_event-IsLive e s n plain unmarked f h = record {
  order = IsOrdered-snoc 0 s.sent e h.order (rw h.count f);
  count = started-snoc 0 s.sent e ∙ (plain (started 0 s.sent) ∙ h.count);
  text = h.text;
  tools = h.tools;
  unmarked = omega (arith, marks-snoc s.sent e, unmarked, h.unmarked);
}

abbrev pub opened : Reversed → Option ℕ → List ToolBlock → Reversed
opened s text tools = record s {
  next_block_index = suc s.next_block_index;
  text_block = text;
  tool_blocks = tools;
}

-- An event that starts a block.
start-IsLive :
    (e : Event) (s : Reversed) (text : Option ℕ) (tools : List ToolBlock) (n : ℕ)
    → ((m : ℕ) → next_block m e ≡ suc m)
    → mark e ≡ 0
    → ((m : ℕ) → m ≡ s.next_block_index → Fits m e)
    → Within (suc s.next_block_index) text
    → Tools (suc s.next_block_index) tools
    → IsLive s
    → IsLive (with_event (opened s text tools) e n)
start-IsLive e s text tools n starts unmarked f w v h = record {
  order = IsOrdered-snoc 0 s.sent e h.order (f (started 0 s.sent) h.count);
  count = started-snoc 0 s.sent e ∙ (starts (started 0 s.sent) ∙ ap suc h.count);
  text = w;
  tools = v;
  unmarked = omega (arith, marks-snoc s.sent e, unmarked, h.unmarked);
}

module _ (c : Client) (Q : Reversed → Type 0) (e : Event) (s : Reversed) (unmarked : mark e ≡ 0)
    (h : IsLive s) where
  pub write_plain :
      ((m : ℕ) → next_block m e ≡ m)
      → Fits s.next_block_index e
      → ((n : ℕ) → IsLive (with_event s e n) → Q (with_event s e n))
      → FlowIs Q IsClosed (write_event c e s)
  write_plain plain f k =
      let there = λ (n : ℕ). with_event-IsLive e s n plain unmarked f h in
      write_event-FlowIs c Q IsClosed e s (λ n. k n (there n)) (λ t. live-IsClosed s t h)
        (λ n t. live-IsClosed (with_event s e n) t (there n))

  pub write_start :
      (text : Option ℕ) (tools : List ToolBlock)
      → ((m : ℕ) → next_block m e ≡ suc m)
      → ((m : ℕ) → m ≡ s.next_block_index → Fits m e)
      → Within (suc s.next_block_index) text
      → Tools (suc s.next_block_index) tools
      → ((n : ℕ)
          → IsLive (with_event (opened s text tools) e n)
          → Q (with_event (opened s text tools) e n))
      → FlowIs Q IsClosed (write_event c e (opened s text tools))
  write_start text tools starts f w v k =
      let there = λ (n : ℕ). start-IsLive e s text tools n starts unmarked f w v h in
      write_event-FlowIs c Q IsClosed e (opened s text tools) (λ n. k n (there n))
        (λ t. (h.order, omega (arith, h.unmarked)))
        (λ n t. live-IsClosed (with_event (opened s text tools) e n) t (there n))

-- Each block that was started was stopped, or is the text block or one of the tools' blocks.
abbrev pub Covered : Reversed → Type 0
Covered s =
    (i : ℕ)
    → i < s.next_block_index
    → Stops i s.sent ⊎ ((s.text_block ≡ some i) ⊎ Owns i s.tool_blocks)

abbrev pub IsGood : Reversed → Type 0
IsGood s = IsLive s × Covered s

pub with_event-Covered : (e : Event) (s : Reversed) (n : ℕ) → Covered s → Covered (with_event s e n)
with_event-Covered e s n k i l = either (k i l) (λ p. inl (Stops-snoc i s.sent e p)) inr
