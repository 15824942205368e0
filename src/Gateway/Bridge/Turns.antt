-- ===== src/Gateway/Bridge/Turns.antt =====
-- bridge_openai_anthropic.go: openAIMessagesToAnthropic, which splits the messages of a chat
-- completion into a system prompt and turns, and merges the consecutive turns of one role.
pub mod Alternation
pub mod Contents
use phlox_gw.Common.{
  ℕ, suc, Bool, true, false, ◌||◌, Option, none, some, List, [], ◌∷◌, ◌++◌, if◌then◌else◌,
}
use phlox_gw.Common.Text.{Text, codes, text_eq, is_empty}
use phlox_gw.Gateway.Json.{Json, array, Items, nil, cons, Members}
use phlox_gw.Gateway.Fields.{field, text_of, as_object, items_of, join_by}
use phlox_gw.Gateway.Bridge.{Translated, done, failed, then_translate, Outer}
use phlox_gw.Gateway.Bridge.Messages.{
  open_ai_content_text, open_ai_user_message_to_anthropic, open_ai_assistant_message_to_anthropic,
  open_ai_tool_message_to_anthropic,
}

-- The map {"role": role, "content": content}.
pub record Turn : Type 0 where
  pub role : Text
  pub content : List Members

-- The turns after `t`, when blocks are appended.
unfoldable pub append_after : Turn → Text → List Members → List Turn → List Turn
unfolding text_eq
append_after t role blocks [] =
    if text_eq t.role role
    then record t { content = t.content ++ blocks } ∷ []
    else t ∷ record { role = role; content = blocks } ∷ []
append_after t role blocks (t' ∷ ts) = t ∷ append_after t' role blocks ts

-- appendBlocks
unfoldable pub append_blocks : Text → List Members → List Turn → List Turn
unfolding append_after
append_blocks role [] ts = ts
append_blocks role (b ∷ bs) [] = record { role = role; content = b ∷ bs } ∷ []
append_blocks role (b ∷ bs) (t ∷ ts) = append_after t role (b ∷ bs) ts

-- The loop's variables, with the number of ids that were drawn.
pub record Conversation : Type 0 where
  pub drawn : ℕ
  pub system_parts : List Text
  pub turns : List Turn

abbrev pub user : Text
user = codes "user"

abbrev pub assistant : Text
assistant = codes "assistant"

-- What one message adds: the ids drawn after it, a part of the system prompt, a role and blocks.
pub record Contribution : Type 0 where
  pub drawn : ℕ
  pub system : List Text
  pub role : Text
  pub blocks : List Members

abbrev pub is_system : Text → Bool
is_system role = text_eq role (codes "system") || text_eq role (codes "developer")

unfoldable pub contribution : Outer → ℕ → Members → Translated Contribution
unfolding open_ai_content_text open_ai_user_message_to_anthropic
    open_ai_assistant_message_to_anthropic open_ai_tool_message_to_anthropic text_eq field
contribution out n msg =
    let role = text_of (field "role" msg) in
    let text = open_ai_content_text (field "content" msg) in
    if is_system role
    then done (record {
      drawn = n;
      system = if is_empty text then [] else text ∷ [];
      role = user;
      blocks = [];
    })
    else if text_eq role assistant
    then then_translate (open_ai_assistant_message_to_anthropic out n msg)
        (λ r. done (record { drawn = r.0; system = []; role = assistant; blocks = r.1 }))
    else if text_eq role (codes "tool")
    then done (record {
      drawn = suc n;
      system = [];
      role = user;
      blocks = open_ai_tool_message_to_anthropic out n msg ∷ [];
    })
    else then_translate (open_ai_user_message_to_anthropic msg)
        (λ bs. done (record { drawn = n; system = []; role = user; blocks = bs }))

abbrev pub added : Conversation → Contribution → Conversation
added s c = record {
  drawn = c.drawn;
  system_parts = s.system_parts ++ c.system;
  turns = append_blocks c.role c.blocks s.turns;
}

-- The loop on the messages.
unfoldable pub converse : Outer → Conversation → Items → Translated Conversation
unfolding contribution append_blocks
converse out s nil = done s
converse out s (cons x xs) = elim (as_object x) [
  | none ↦ failed (codes "messages entries must be objects")
  | some msg ↦ then_translate (contribution out s.drawn msg) (λ c. converse out (added s c) xs)
]

abbrev pub is_nil : Items → Bool
is_nil nil = true
is_nil (cons _ _) = false

abbrev pub nobody_yet : Conversation
nobody_yet = record { drawn = 0; system_parts = []; turns = [] }

-- The system prompt and the turns of a loop's end.
abbrev pub split_conversation : List Text → List Turn → Translated (Text × List Turn)
split_conversation parts [] =
    failed (codes "messages must include at least one user or assistant message")
split_conversation parts (t ∷ ts) = done (join_by (codes "\n\n") parts, t ∷ ts)

unfoldable pub open_ai_messages_to_anthropic : Outer → Json → Translated (Text × List Turn)
unfolding converse join_by
open_ai_messages_to_anthropic out value =
    let xs = items_of value in
    if is_nil xs
    then failed (codes "messages must be a non-empty array")
    else then_translate (converse out nobody_yet xs)
        (λ s. split_conversation s.system_parts s.turns)
