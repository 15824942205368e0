-- ===== src/Gateway/Bridge/Answers/RoundTrip.antt =====
-- The calls of tools that go from Anthropic to an OpenAI client and come back in its next request
-- (bridge_openai_anthropic.go).
use phlox_gw.Common.{ℕ, suc, false, none, some, List, [], ◌∷◌, ◌≡◌, refl, ap, map, All}
use phlox_gw.Common.Text.{Text, text_eq}
use phlox_gw.Gateway.Json.{object, string, Members, end}
use phlox_gw.Gateway.Fields.{lookup, field, entry, words_of, array_of, is_blank, fallback_string}
use phlox_gw.Gateway.Bridge.{done, failed, then_translate, Outer}
use phlox_gw.Gateway.Bridge.Messages.{arguments_to_input, assistant_calls, tool_use}
use phlox_gw.Gateway.Bridge.Answers.{Parts, answer_parts, anthropic_tool_use_arguments, tool_call}

-- A block of the type tool_use.
pub record ToolUse : Type 0 where
  pub id : Text
  pub name : Text
  pub input : Members

abbrev pub block_of : ToolUse → Members
block_of u =
    entry "type" (words_of "tool_use")
      (entry "id" (string u.id) (entry "name" (string u.name) (entry "input" (object u.input) end)))

-- It has an id and a name, and encoding/json writes its input as a text from which it reads it again.
pub record IsWired (out : Outer) (u : ToolUse) : Type 0 where
  pub id : is_blank u.id ≡ false
  pub name : is_blank u.name ≡ false
  pub text : Text
  pub marshal : out.codec.marshal (object u.input) ≡ some text
  pub not_blank : is_blank text ≡ false
  pub decode : out.decode text ≡ done (object u.input)

fallback_string-own : (v fallback : Text) → is_blank v ≡ false → fallback_string v fallback ≡ v
unfolding fallback_string
fallback_string-own v fallback h = rw h refl

module _ (out : Outer) (u : ToolUse) (w : IsWired out u) where
  call : ℕ → Members
  call n = tool_call out n (block_of u) w.text

  arguments_of_input : anthropic_tool_use_arguments out (object u.input) ≡ done w.text
  unfolding anthropic_tool_use_arguments
  arguments_of_input =
      ap (λ o. elim o [ none ↦ failed (out.marshal_error (object u.input)) | some t ↦ done t ])
        w.marshal

  input_of_arguments : arguments_to_input out (string w.text) ≡ done u.input
  unfolding arguments_to_input
  input_of_arguments = rw (w.not_blank, w.decode) refl

  same_block : (n k : ℕ) → tool_use out k (call n) u.input ≡ block_of u
  unfolding call field lookup text_eq
  same_block n k =
      let id = fallback_string-own u.id in
      let name = fallback_string-own u.name in rw (id _ w.id, id _ w.id, name _ w.name, w.name) refl

-- The calls of an answer, and the blocks that they become again.
abbrev IsReturned : Outer → ℕ → ℕ → List ToolUse → Type 0
IsReturned out n k us =
    (p : Parts) × ((answer_parts out n (array_of (map block_of us)) ≡ done p)
      × ((j : ℕ) × (assistant_calls out k (array_of p.calls) ≡ done (j, map block_of us))))

tools-IsReturned :
    (out : Outer) (n k : ℕ) (us : List ToolUse) → All (IsWired out) us → IsReturned out n k us
unfolding answer_parts assistant_calls call field lookup text_eq
tools-IsReturned out n k [] h = (record { drawn = n; texts = []; calls = [] }, (refl, (k, refl)))
tools-IsReturned out n k (u ∷ us) (w, h) =
    let (p, (same, (j, back))) = tools-IsReturned out (suc n) (suc k) us h in
    let there = arguments_of_input out u w in
    let here = input_of_arguments out u w in
    (
      record p { calls = call out u w n ∷ p.calls },
      (rw (there, same) refl, (j, rw (here, back, same_block out u w n k) refl)),
    )

-- The blocks of tool calls of an Anthropic answer become tool calls of a chat completion, and if the
-- client sends those back in an assistant message, they become the same blocks in the same order;
-- for blocks with an id and a name whose input encoding/json reads as it wrote it.
pub assistant_calls-answer_parts :
    (out : Outer) (n k : ℕ) (us : List ToolUse)
    → All (IsWired out) us
    → then_translate
        (answer_parts out n (array_of (map block_of us)))
        (λ p. then_translate (assistant_calls out k (array_of p.calls)) (λ r. done r.1))
      ≡ done (map block_of us)
assistant_calls-answer_parts out n k us h =
    let (p, (same, (j, back))) = tools-IsReturned out n k us h in rw (same, back) refl
