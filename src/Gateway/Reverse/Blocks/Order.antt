-- ===== src/Gateway/Reverse/Blocks/Order.antt =====
-- What it is for the events that proxyOpenAIStreamAsAnthropic (bridge_anthropic_openai.go) writes to
-- be in order, and for its state to be consistent with them.
use phlox_gw.Common.{
  ℕ, suc, Option, none, some, List, [], ◌∷◌, ◌++◌, ◌+◌, ◌<◌, ◌≡◌, refl, ◌⊎◌, inl, inr, All,
  Bool-cases, arith,
}
use phlox_gw.Common.Int.{ℤ, eq_ℤ}
use phlox_gw.Gateway.Reverse.Events.{
  Event, text_start, tool_start, text_delta, input_delta, block_stop, message_stop,
}
use phlox_gw.Gateway.Reverse.Blocks.{ToolBlock, find_tool, put_tool}

abbrev pub next_block : ℕ → Event → ℕ
next_block n (text_start i) = suc n
next_block n (tool_start i id name) = suc n
next_block n _ = n

-- The number of blocks that events start, after the first n.
abbrev pub started : ℕ → List Event → ℕ
started n [] = n
started n (e ∷ es) = started (next_block n e) es

-- With n blocks started: a new one has the number n, and the rest is about one of those.
abbrev pub Fits : ℕ → Event → Type 0
Fits n (text_start i) = i ≡ n
Fits n (tool_start i id name) = i ≡ n
Fits n (text_delta i t) = i < n
Fits n (input_delta i t) = i < n
Fits n (block_stop i) = i < n
Fits n _ = Unit

abbrev pub IsOrdered : ℕ → List Event → Type 0
IsOrdered n [] = Unit
IsOrdered n (e ∷ es) = Fits n e × IsOrdered (next_block n e) es

abbrev pub mark : Event → ℕ
mark message_stop = 1
mark _ = 0

abbrev pub marks : List Event → ℕ
marks [] = 0
marks (e ∷ es) = mark e + marks es

abbrev IsStop : ℕ → Event → Type 0
IsStop i (block_stop j) = i ≡ j
IsStop i _ = ⊥

-- The block i was stopped.
abbrev pub Stops : ℕ → List Event → Type 0
Stops i [] = ⊥
Stops i (e ∷ es) = IsStop i e ⊎ Stops i es

pub IsOrdered-snoc :
    (n : ℕ) (es : List Event) (e : Event)
    → IsOrdered n es
    → Fits (started n es) e
    → IsOrdered n (es ++ e ∷ [])
IsOrdered-snoc n [] e h k = (k, tt)
IsOrdered-snoc n (d ∷ es) e (f, h) k = (f, IsOrdered-snoc (next_block n d) es e h k)

pub started-snoc :
    (n : ℕ) (es : List Event) (e : Event) → started n (es ++ e ∷ []) ≡ next_block (started n es) e
started-snoc n [] e = refl
started-snoc n (d ∷ es) e = started-snoc (next_block n d) es e

pub marks-snoc : (es : List Event) (e : Event) → marks (es ++ e ∷ []) ≡ mark e + marks es
marks-snoc [] e = refl
marks-snoc (d ∷ es) e = omega (arith, marks-snoc es e)

pub Stops-snoc : (i : ℕ) (es : List Event) (e : Event) → Stops i es → Stops i (es ++ e ∷ [])
Stops-snoc i [] e h = absurd h
Stops-snoc i (d ∷ es) e (inl h) = inl h
Stops-snoc i (d ∷ es) e (inr h) = inr (Stops-snoc i es e h)

pub Stops-last : (i : ℕ) (es : List Event) → Stops i (es ++ block_stop i ∷ [])
Stops-last i [] = inl refl
Stops-last i (d ∷ es) = inr (Stops-last i es)

abbrev pub Within : ℕ → Option ℕ → Type 0
Within n none = Unit
Within n (some i) = i < n

abbrev pub Tools : ℕ → List ToolBlock → Type 0
Tools n bs = All (λ (b : ToolBlock). Within n b.block) bs

pub Within-suc : (n : ℕ) (o : Option ℕ) → Within n o → Within (suc n) o
Within-suc n none h = tt
Within-suc n (some i) h = omega arith

pub Tools-suc : (n : ℕ) (bs : List ToolBlock) → Tools n bs → Tools (suc n) bs
Tools-suc n [] h = tt
Tools-suc n (b ∷ bs) (w, h) = (Within-suc n b.block w, Tools-suc n bs h)

pub put_tool-Tools :
    (n : ℕ) (b : ToolBlock) (bs : List ToolBlock)
    → Within n b.block
    → Tools n bs
    → Tools n (put_tool b bs)
unfolding put_tool
put_tool-Tools n b [] w h = (w, tt)
put_tool-Tools n b (b' ∷ bs) w (v, h) = elim (Bool-cases (eq_ℤ b.open_ai_index b'.open_ai_index)) [
  | inl e ↦ rw e (w, h)
  | inr e ↦ rw e (v, put_tool-Tools n b bs w h)
]

pub find_tool-Within :
    (n : ℕ) (k : ℤ) (bs : List ToolBlock) → Tools n bs → Within n (find_tool k bs).block
unfolding find_tool
find_tool-Within n k [] h = tt
find_tool-Within n k (b ∷ bs) (w, h) = elim (Bool-cases (eq_ℤ k b.open_ai_index)) [
  | inl e ↦ rw e w
  | inr e ↦ rw e (find_tool-Within n k bs h)
]

-- One of the blocks of tools has the number i.
abbrev pub Owns : ℕ → List ToolBlock → Type 0
Owns i [] = ⊥
Owns i (b ∷ bs) = (b.block ≡ some i) ⊎ Owns i bs

pub put_tool-Owns_new :
    (i : ℕ) (b : ToolBlock) (bs : List ToolBlock) → b.block ≡ some i → Owns i (put_tool b bs)
unfolding put_tool
put_tool-Owns_new i b [] h = inl h
put_tool-Owns_new i b (b' ∷ bs) h = elim (Bool-cases (eq_ℤ b.open_ai_index b'.open_ai_index)) [
  | inl e ↦ rw e (inl h)
  | inr e ↦ rw e (inr (put_tool-Owns_new i b bs h))
]

pub either {ℓ κ μ} : {A : Type ℓ} {B : Type κ} {C : Type μ} → A ⊎ B → (A → C) → (B → C) → C
either (inl a) f g = f a
either (inr b) f g = g b

-- A block that is put in the place of another keeps its number, if that had one.
pub put_tool-Owns :
    (i : ℕ) (b : ToolBlock) (bs : List ToolBlock)
    → ((find_tool b.open_ai_index bs).block ≡ some i → b.block ≡ some i)
    → Owns i bs
    → Owns i (put_tool b bs)
unfolding put_tool find_tool
put_tool-Owns i b [] k h = absurd h
put_tool-Owns i b (b' ∷ bs) k h = elim (Bool-cases (eq_ℤ b.open_ai_index b'.open_ai_index)) [
  | inl e ↦ rw e (either h (λ p. inl ((rw e at k) p)) inr)
  | inr e ↦ rw e (either h inl (λ p. inr (put_tool-Owns i b bs (rw e at k) p)))
]
