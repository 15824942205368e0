-- ===== src/Gateway/Flows.antt =====
-- The loops of internal/httpapi that write a stream: the variables of a loop that goes on, or that it
-- returned with, and how to reason on them.
use phlox_gw.Common.{Bool, true, false, Option, ◌≡◌, refl, if◌then◌else◌}
use phlox_gw.Common.Text.{Text}

-- The loop goes on, or it returned: with the text of an error, or none.
pub data Flow (S : Type 0) : Type 0 where
  running : S → Flow S
  returned : S → Option Text → Flow S

module _ {S : Type 0} where
  abbrev pub flow_state : Flow S → S
  flow_state (running s) = s
  flow_state (returned s e) = s

  abbrev pub then_flow : Flow S → (S → Flow S) → Flow S
  then_flow (running s) f = f s
  then_flow (returned s e) f = returned s e

  -- What holds of the state that the loop goes on with, or of what it returned.
  abbrev pub FlowIs : (S → Type 0) → (S → Option Text → Type 0) → Flow S → Type 0
  FlowIs Q R (running s) = Q s
  FlowIs Q R (returned s e) = R s e

  pub then_flow-FlowIs :
      (Q Q' : S → Type 0) (R : S → Option Text → Type 0) (m : Flow S) (f : S → Flow S)
      → FlowIs Q R m
      → ((s : S) → Q s → FlowIs Q' R (f s))
      → FlowIs Q' R (then_flow m f)
  then_flow-FlowIs Q Q' R (running s) f h k = k s h
  then_flow-FlowIs Q Q' R (returned s e) f h k = h

  pub if-FlowIs :
      (Q : S → Type 0) (R : S → Option Text → Type 0) (b : Bool) (m n : Flow S)
      → (b ≡ true → FlowIs Q R m)
      → (b ≡ false → FlowIs Q R n)
      → FlowIs Q R (if b then m else n)
  if-FlowIs Q R true m n h k = h refl
  if-FlowIs Q R false m n h k = k refl

  -- Of a loop that has returned.
  abbrev pub Never : S → Type 0
  Never s = ⊥

  pub returned_of :
      (R : S → Option Text → Type 0) (m : Flow S)
      → FlowIs Never R m
      → (s : S) × ((e : Option Text) × ((m ≡ returned s e) × R s e))
  returned_of R (running s) h = absurd h
  returned_of R (returned s e) h = (s, (e, (refl, h)))
