-- ===== src/Gateway/Reverse/Requests.antt =====
-- bridge_anthropic_openai.go: the body of the Messages API as the body of a chat completion.
use Prim.Native.String.{String}
use phlox_gw.Common.{ℕ, false, Option, none, some, List, [], ◌∷◌, ◌++◌, ◌||◌, if◌then◌else◌}
use phlox_gw.Common.Text.{Text, codes, text_eq, is_empty}
use phlox_gw.Common.Text.Trim.{trim_space}
use phlox_gw.Gateway.Json.{Json, boolean, string, array, object, Items, nil, cons, Members, end}
use phlox_gw.Gateway.Fields.{
  lookup, field, text_of, as_object, object_of, items_of, is_text, entry, words_of, array_of,
  is_blank, optional,
}
use phlox_gw.Gateway.Bridge.{Translated, done, failed, then_translate, Outer}
use phlox_gw.Gateway.Bridge.Messages.{text_block}
use phlox_gw.Gateway.Bridge.Turns.{is_nil}
use phlox_gw.Gateway.Bridge.Requests.{schema_of, listed}
use phlox_gw.Gateway.Reverse.Messages.{
  image_part, message_of, anthropic_user_message_to_open_ai, anthropic_assistant_message_to_open_ai,
}

abbrev pub content_part : Members → List Members
content_part block =
    if is_text "text" (field "type" block)
    then text_block (text_of (field "text" block)) ∷ []
    else if is_text "image" (field "type" block)
    then elim (image_part block) [ none ↦ [] | some p ↦ p ∷ [] ]
    else []

unfoldable pub content_parts : Items → List Members
unfolding image_part field
content_parts nil = []
content_parts (cons x xs) = content_part (object_of x) ++ content_parts xs

-- anthropicContentToOpenAI; none is false.
unfoldable pub anthropic_content_to_open_ai : Json → Option Json
unfolding content_parts trim_space
anthropic_content_to_open_ai (string v) = if is_blank v then none else some (string v)
anthropic_content_to_open_ai (array xs) = listed (content_parts xs)
anthropic_content_to_open_ai _ = none

unfoldable pub normalized_tool_description : Text → Text → Text
unfolding trim_space
normalized_tool_description name description =
    if is_blank description
    then if is_blank name
      then codes "No description provided."
      else codes "Tool " ++ (trim_space name ++ codes ".")
    else trim_space description

unfoldable pub function_list : Items → List Members
unfolding normalized_tool_description field
function_list nil = []
function_list (cons x xs) =
    let rest = function_list xs in
    let tool = object_of x in
    let name = text_of (field "name" tool) in
    let description = normalized_tool_description name (text_of (field "description" tool)) in
    if is_empty name
    then rest
    else entry "type" (words_of "function") (
        entry "function"
          (object (
            entry "name" (string name) (
              entry "description" (string description)
                (entry "parameters" (schema_of (field "input_schema" tool)) end))))
          end)
      ∷ rest

-- anthropicToolsToOpenAI; none is false.
unfoldable pub anthropic_tools_to_open_ai : Json → Option Json
unfolding function_list
anthropic_tools_to_open_ai value = listed (function_list (items_of value))

abbrev pub chosen_tool : Text → Option Json
chosen_tool name =
    if is_empty name
    then none
    else some (
        object (
          entry "type" (words_of "function")
            (entry "function" (object (entry "name" (string name) end)) end)))

-- anthropicToolChoiceToOpenAI; none is false.
unfoldable pub anthropic_tool_choice_to_open_ai : Json → Option Json
unfolding field text_eq
anthropic_tool_choice_to_open_ai (string v) =
    if text_eq v (codes "auto") || text_eq v (codes "none") || text_eq v (codes "required")
    then some (string v)
    else none
anthropic_tool_choice_to_open_ai (object v) =
    let type = field "type" v in
    if is_text "auto" type
    then some (words_of "auto")
    else if is_text "none" type
    then some (words_of "none")
    else if is_text "any" type
    then some (words_of "required")
    else if is_text "tool" type
    then chosen_tool (text_of (field "name" v))
    else none
anthropic_tool_choice_to_open_ai _ = none

-- The loop on the messages.
unfoldable pub message_list : Outer → ℕ → Items → Translated (List Members)
unfolding anthropic_user_message_to_open_ai anthropic_assistant_message_to_open_ai field text_eq
message_list out n nil = done []
message_list out n (cons x xs) = elim (as_object x) [
  | none ↦ failed (codes "messages entries must be objects")
  | some msg ↦
      if text_eq (text_of (field "role" msg)) (codes "assistant")
      then then_translate (anthropic_assistant_message_to_open_ai out n msg)
          (λ r. then_translate (message_list out r.0 xs) (λ ms. done (r.1 ∷ ms)))
      else then_translate (message_list out n xs)
          (λ ms. done (anthropic_user_message_to_open_ai out msg ++ ms))
]

-- The message of a system prompt.
abbrev pub system_message : Option Json → List Members
system_message none = []
system_message (some system) = elim (anthropic_content_to_open_ai system) [
  | none ↦ []
  | some content ↦ message_of (codes "system") content ∷ []
]

unfoldable pub anthropic_messages_to_open_ai : Outer → Members → Translated (List Members)
unfolding message_list anthropic_content_to_open_ai lookup field
anthropic_messages_to_open_ai out raw =
    let xs = items_of (field "messages" raw) in
    if is_nil xs
    then failed (codes "messages must be a non-empty array")
    else then_translate (message_list out 0 xs)
        (λ ms. done (system_message (lookup (codes "system") raw) ++ ms))

abbrev pub given : String → Members → Members → Members
given k raw m = optional k (lookup (codes k) raw) m

abbrev pub open_ai_request : Members → List Members → Members
open_ai_request raw ms = entry "model" (field "model" raw) (
    entry "stream" (boolean false) (
      entry "messages" (array (array_of ms)) (
        given "max_tokens" raw (
          given "temperature" raw (
            given "top_p" raw (
              given "presence_penalty" raw (
                given "frequency_penalty" raw (
                  optional "stop" (lookup (codes "stop_sequences") raw) (
                    optional "tools" (anthropic_tools_to_open_ai (field "tools" raw)) (
                      optional "tool_choice"
                        (anthropic_tool_choice_to_open_ai (field "tool_choice" raw)) end))))))))))

unfoldable pub anthropic_request_to_open_ai : Outer → Members → Translated Members
unfolding anthropic_messages_to_open_ai anthropic_tools_to_open_ai anthropic_tool_choice_to_open_ai
    lookup field
anthropic_request_to_open_ai out raw =
    then_translate (anthropic_messages_to_open_ai out raw) (λ ms. done (open_ai_request raw ms))
