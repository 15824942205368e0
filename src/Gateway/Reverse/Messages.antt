-- ===== src/Gateway/Reverse/Messages.antt =====
-- bridge_anthropic_openai.go: the messages of the Messages API as those of a chat completion.
use phlox_gw.Common.{
  ℕ, suc, true, ◌||◌, Option, none, some, List, [], ◌∷◌, ◌++◌, if◌then◌else◌, Bool, false, not,
}
use phlox_gw.Common.Text.{Text, codes, is_empty}
use phlox_gw.Gateway.Json.{
  Json, null, boolean, number, string, array, object, Items, nil, cons, Members, end,
}
use phlox_gw.Gateway.Fields.{
  field, text_of, as_object, object_of, bool_of, is_text, entry, words_of, array_of,
  fallback_string, join_by, optional,
}
use phlox_gw.Gateway.Bridge.{Translated, done, then_translate, Outer}
use phlox_gw.Gateway.Bridge.Messages.{content_texts, text_block, tool_id}
use phlox_gw.Gateway.Bridge.Answers.{anthropic_tool_use_arguments, calls_or_none}

-- The image of a block in base64; none where the source skips it.
unfoldable pub image_part : Members → Option Members
unfolding field
image_part block =
    let source = object_of (field "source" block) in
    let media_type = text_of (field "media_type" source) in
    let data_text = text_of (field "data" source) in
    if not (is_text "base64" (field "type" source)) || is_empty media_type || is_empty data_text
    then none
    else some (
        entry "type" (words_of "image_url") (
          entry "image_url"
            (object (
              entry "url"
                (string (codes "data:" ++ (media_type ++ (codes ";base64," ++ data_text)))) end))
            end))

abbrev pub part_text : Members → Text
part_text p = text_of (field "text" p)

-- The texts of parts, but for empty ones.
unfoldable pub part_texts : List Members → List Text
unfolding field
part_texts [] = []
part_texts (p ∷ ps) =
    let rest = part_texts ps in if is_empty (part_text p) then rest else part_text p ∷ rest

abbrev pub message_of : Text → Json → Members
message_of role content = entry "role" (string role) (entry "content" content end)

-- The variables of anthropicUserMessageToOpenAI.
pub record UserContent : Type 0 where
  pub messages : List Members
  pub parts : List Members
  pub rich : Bool

-- flushUserContent
unfoldable pub flush_user_content : UserContent → UserContent
unfolding part_texts join_by
flush_user_content s = elim s.parts [
  | [] ↦ s
  | _ ∷ _ ↦ record {
    messages =
        s.messages
        ++ message_of (codes "user") (
            if s.rich
            then array (array_of s.parts)
            else string (join_by (codes "\n") (part_texts s.parts)))
          ∷ [];
    parts = [];
    rich = false;
  }
]

-- anthropicToolResultContentToText; the text of an error of json.Marshal is empty.
unfoldable pub tool_result_text : Outer → Json → Text
unfolding content_texts join_by
tool_result_text out null = []
tool_result_text out (string s) = s
tool_result_text out (array xs) = join_by (codes "\n") (content_texts xs)
tool_result_text out (boolean b) = elim (out.codec.marshal (boolean b)) [ none ↦ [] | some t ↦ t ]
tool_result_text out (number n) = elim (out.codec.marshal (number n)) [ none ↦ [] | some t ↦ t ]
tool_result_text out (object m) = elim (out.codec.marshal (object m)) [ none ↦ [] | some t ↦ t ]

abbrev pub error_flag : Bool → Option Json
error_flag b = if b then some (boolean true) else none

abbrev pub tool_message : Text → Text → Bool → Members
tool_message id text is_error =
    if is_empty id
    then message_of (codes "user") (string text)
    else entry "role" (words_of "tool") (
        entry "tool_call_id" (string id)
          (entry "content" (string text) (optional "is_error" (error_flag is_error) end)))

abbrev pub with_part : Members → Bool → UserContent → UserContent
with_part p rich s = record s { parts = s.parts ++ p ∷ []; rich = s.rich || rich }

abbrev pub with_image : Option Members → UserContent → UserContent
with_image none s = s
with_image (some p) s = with_part p true s

abbrev pub with_message : Members → UserContent → UserContent
with_message m s = record s { messages = s.messages ++ m ∷ [] }

-- The switch on the type of a block.
unfoldable pub user_block : Outer → Members → UserContent → UserContent
unfolding image_part flush_user_content tool_result_text field
user_block out block s =
    let text = text_of (field "text" block) in
    if is_text "text" (field "type" block)
    then if is_empty text then s else with_part (text_block text) false s
    else if is_text "image" (field "type" block)
    then with_image (image_part block) s
    else if is_text "tool_result" (field "type" block)
    then with_message
        (tool_message (text_of (field "tool_use_id" block))
          (tool_result_text out (field "content" block)) (bool_of (field "is_error" block)))
        (flush_user_content s)
    else s

unfoldable pub user_blocks : Outer → Items → UserContent → UserContent
unfolding user_block
user_blocks out nil s = s
user_blocks out (cons x xs) s = elim (as_object x) [
  | none ↦ user_blocks out xs s
  | some block ↦ user_blocks out xs (user_block out block s)
]

abbrev pub no_content : Members
no_content = message_of (codes "user") (string [])

abbrev pub or_no_content : List Members → List Members
or_no_content [] = no_content ∷ []
or_no_content (m ∷ ms) = m ∷ ms

abbrev pub nothing_yet : UserContent
nothing_yet = record { messages = []; parts = []; rich = false }

unfoldable pub anthropic_user_message_to_open_ai : Outer → Members → List Members
unfolding user_blocks flush_user_content field
anthropic_user_message_to_open_ai out msg = elim (field "content" msg) [
  | string s ↦ message_of (codes "user") (string s) ∷ []
  | array xs ↦ or_no_content (flush_user_content (user_blocks out xs nothing_yet)).messages
  | _ ↦ no_content ∷ []
]

-- The parts of an assistant's message, with the number of ids drawn.
pub record AssistantContent : Type 0 where
  pub drawn : ℕ
  pub texts : List Text
  pub calls : List Members

abbrev pub call_of : Outer → ℕ → Members → Text → Members
call_of out n block args =
    entry "id" (string (fallback_string (text_of (field "id" block)) (tool_id out n))) (
      entry "type" (words_of "function") (
        entry "function"
          (object (
            entry "name" (string (text_of (field "name" block)))
              (entry "arguments" (string args) end)))
          end))

abbrev pub add_text : Text → AssistantContent → AssistantContent
add_text t p = if is_empty t then p else record p { texts = t ∷ p.texts }

unfoldable pub assistant_blocks : Outer → ℕ → Items → Translated AssistantContent
unfolding anthropic_tool_use_arguments fallback_string field
assistant_blocks out n nil = done (record { drawn = n; texts = []; calls = [] })
assistant_blocks out n (cons x xs) =
    let same = assistant_blocks out n xs in
    let next = assistant_blocks out (suc n) xs in
    let block = object_of x in
    if is_text "text" (field "type" block)
    then then_translate same (λ p. done (add_text (text_of (field "text" block)) p))
    else if is_text "tool_use" (field "type" block)
    then if is_empty (text_of (field "name" block))
      then same
      else then_translate (anthropic_tool_use_arguments out (field "input" block)) (λ args.
        then_translate next (λ p. done (record p { calls = call_of out n block args ∷ p.calls })))
    else same

abbrev pub assistant_message : AssistantContent → Members
assistant_message p = entry "role" (words_of "assistant") (
    entry "content" (string (join_by (codes "\n") p.texts))
      (optional "tool_calls" (calls_or_none p.calls) end))

unfoldable pub anthropic_assistant_message_to_open_ai :
    Outer → ℕ → Members → Translated (ℕ × Members)
unfolding assistant_blocks join_by field
anthropic_assistant_message_to_open_ai out n msg = elim (field "content" msg) [
  | string s ↦ done (n, message_of (codes "assistant") (string s))
  | array xs ↦ then_translate (assistant_blocks out n xs) (λ p. done (p.drawn, assistant_message p))
  | _ ↦ done (n, message_of (codes "assistant") (string []))
]
