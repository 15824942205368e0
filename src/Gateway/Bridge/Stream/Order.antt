-- ===== src/Gateway/Bridge/Stream/Order.antt =====
-- What it is for the pieces that proxyAnthropicStreamAsOpenAI (bridge_openai_anthropic.go) writes to be
-- in order, and for the state of its loop to be consistent with them.
use phlox_gw.Common.{
  ℕ, suc, Bool, true, false, Option, none, some, List, [], ◌∷◌, ◌++◌, ◌+◌, ◌≤◌, ◌<◌, ◌≡◌, refl, inl,
  inr, All, Bool-cases, arith,
}
use phlox_gw.Common.Int.{ℤ, eq_ℤ}
use phlox_gw.Common.Text.{Text}
use phlox_gw.Gateway.Bridge.Pieces.{Piece, tool_start, tool_arguments, done_mark}
use phlox_gw.Gateway.Bridge.Stream.{Streamed, tool_index}

abbrev pub next_index : ℕ → Piece → ℕ
next_index n (tool_start i id name) = suc n
next_index n _ = n

-- The number of calls of tools that pieces start, after the first n.
abbrev pub started : ℕ → List Piece → ℕ
started n [] = n
started n (p ∷ ps) = started (next_index n p) ps

-- With n calls started: a new one has the index n, and arguments go to one of those.
abbrev pub Fits : ℕ → Piece → Type 0
Fits n (tool_start i id name) = i ≡ n
Fits n (tool_arguments i partial) = i < n
Fits n _ = Unit

abbrev pub IsOrdered : ℕ → List Piece → Type 0
IsOrdered n [] = Unit
IsOrdered n (p ∷ ps) = Fits n p × IsOrdered (next_index n p) ps

abbrev pub mark : Piece → ℕ
mark done_mark = 1
mark _ = 0

abbrev pub marks : List Piece → ℕ
marks [] = 0
marks (p ∷ ps) = mark p + marks ps

pub IsOrdered-snoc :
    (n : ℕ) (ps : List Piece) (p : Piece)
    → IsOrdered n ps
    → Fits (started n ps) p
    → IsOrdered n (ps ++ p ∷ [])
IsOrdered-snoc n [] p h k = (k, tt)
IsOrdered-snoc n (q ∷ ps) p (f, h) k = (f, IsOrdered-snoc (next_index n q) ps p h k)

pub started-snoc :
    (n : ℕ) (ps : List Piece) (p : Piece) → started n (ps ++ p ∷ []) ≡ next_index (started n ps) p
started-snoc n [] p = refl
started-snoc n (q ∷ ps) p = started-snoc (next_index n q) ps p

pub marks-snoc : (ps : List Piece) (p : Piece) → marks (ps ++ p ∷ []) ≡ mark p + marks ps
marks-snoc [] p = refl
marks-snoc (q ∷ ps) p = omega (arith, marks-snoc ps p)

abbrev pub Below : ℕ → List (ℤ × ℕ) → Type 0
Below n m = All (λ (e : ℤ × ℕ). e.1 < n) m

abbrev pub flag : Bool → ℕ
flag true = 1
flag false = 0

-- The state of the loop, with k marks of the end written.
abbrev pub IsConsistent : ℕ → Streamed → Type 0
IsConsistent k s =
    IsOrdered 0 s.sent
    × ((started 0 s.sent ≡ s.tool_block_count)
        × (Below s.tool_block_count s.tool_index_by_block × (marks s.sent ≡ k)))

abbrev pub IsStreaming : Streamed → Type 0
IsStreaming s = IsConsistent (flag s.finished) s

-- What is returned: with no error, the mark of the end was written once.
abbrev pub IsClosed : Streamed → Option Text → Type 0
IsClosed s none = IsOrdered 0 s.sent × (marks s.sent ≡ 1)
IsClosed s (some e) = IsOrdered 0 s.sent × (marks s.sent ≤ 1)

pub Below-suc : (n : ℕ) (m : List (ℤ × ℕ)) → Below n m → Below (suc n) m
Below-suc n [] h = tt
Below-suc n (e ∷ m) (l, h) = (omega arith, Below-suc n m h)

pub tool_index-Below :
    (b : ℤ) (m : List (ℤ × ℕ)) (n i : ℕ) → Below n m → tool_index b m ≡ some i → i < n
tool_index-Below b [] n i h e = absurd (ground arith)
tool_index-Below b ((b', j) ∷ m) n i (l, h) e = elim (Bool-cases (eq_ℤ b b')) [
  | inl q ↦ let e' = rw q at e in ground arith
  | inr q ↦ tool_index-Below b m n i h (rw q at e)
]
