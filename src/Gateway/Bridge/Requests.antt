-- ===== src/Gateway/Bridge/Requests.antt =====
-- bridge_openai_anthropic.go: the body of a chat completion as a body of the Messages API.
pub mod Bodies
use Prim.Native.String.{String}
use phlox_gw.Common.{
  ℕ, Bool, true, false, Option, none, some, List, [], ◌∷◌, ◌≡◌, ◌<◌, if◌then◌else◌,
}
use phlox_gw.Common.Int.{ℤ, pos, ltb_ℤ}
use phlox_gw.Common.Text.{Text, codes, text_eq, is_empty}
use phlox_gw.Common.Text.Trim.{trim_space}
use phlox_gw.Gateway.Json.{Json, boolean, string, array, object, Items, nil, cons, Members, end}
use phlox_gw.Gateway.Fields.{
  lookup, field, text_of, as_object, object_of, items_of, is_null, is_text, entry, words_of,
  strings_of, array_of, is_blank, first_present, int_value, number_of, optional,
}
use phlox_gw.Gateway.Bridge.{Translated, done, failed, then_translate, Outer}
use phlox_gw.Gateway.Bridge.Turns.{Turn, open_ai_messages_to_anthropic}

unfoldable pub stop_texts : Items → List Text
unfolding trim_space
stop_texts nil = []
stop_texts (cons x xs) =
    let rest = stop_texts xs in let text = text_of x in if is_blank text then rest else text ∷ rest

unfoldable pub open_ai_stop_to_anthropic : Json → List Text
unfolding stop_texts trim_space
open_ai_stop_to_anthropic (string s) = if is_blank s then [] else s ∷ []
open_ai_stop_to_anthropic (array xs) = stop_texts xs
open_ai_stop_to_anthropic _ = []

-- The schema of a function without parameters.
abbrev pub schema_of : Json → Json
schema_of v = if is_null v then object (entry "type" (words_of "object") end) else v

abbrev pub description_of : Text → Option Json
description_of d = if is_blank d then none else some (string d)

unfoldable pub tool_list : Items → List Members
unfolding field trim_space
tool_list nil = []
tool_list (cons x xs) =
    let rest = tool_list xs in
    let function = object_of (field "function" (object_of x)) in
    let name = text_of (field "name" function) in
    if is_empty name
    then rest
    else entry "name" (string name) (
        entry "input_schema" (schema_of (field "parameters" function))
          (optional "description" (description_of (text_of (field "description" function))) end))
      ∷ rest

abbrev pub listed : List Members → Option Json
listed [] = none
listed (m ∷ ms) = some (array (array_of (m ∷ ms)))

-- openAIToolsToAnthropic; none is false.
unfoldable pub open_ai_tools_to_anthropic : Json → Option Json
unfolding tool_list
open_ai_tools_to_anthropic value = listed (tool_list (items_of value))

abbrev pub choice : String → Option Json
choice t = some (object (entry "type" (words_of t) end))

abbrev pub choice_of_word : Text → Option Json
choice_of_word v =
    if text_eq v (codes "auto")
    then choice "auto"
    else if text_eq v (codes "none")
    then choice "none"
    else if text_eq v (codes "required")
    then choice "any"
    else none

abbrev pub choice_of_tool : Members → Option Json
choice_of_tool v =
    let name = text_of (field "name" (object_of (field "function" v))) in
    if is_text "function" (field "type" v)
    then if is_empty name
      then none
      else some (object (entry "type" (words_of "tool") (entry "name" (string name) end)))
    else none

-- openAIToolChoiceToAnthropic; none is false.
unfoldable pub open_ai_tool_choice_to_anthropic : Json → Option Json
unfolding field text_eq
open_ai_tool_choice_to_anthropic (string v) = choice_of_word v
open_ai_tool_choice_to_anthropic (object v) = choice_of_tool v
open_ai_tool_choice_to_anthropic _ = none

abbrev pub default_open_ai_anthropic_max_tokens : ℤ
default_open_ai_anthropic_max_tokens = pos 4096

unfoldable pub max_tokens_of : Outer → Members → ℤ
unfolding first_present int_value
max_tokens_of out raw =
    let n =
      int_value out.whole
        (first_present (codes "max_completion_tokens" ∷ codes "max_tokens" ∷ []) raw) in
    if ltb_ℤ (pos 0) n then n else default_open_ai_anthropic_max_tokens

abbrev pub turn_list : List Turn → List Members
turn_list [] = []
turn_list (t ∷ ts) =
    entry "role" (string t.role) (entry "content" (array (array_of t.content)) end) ∷ turn_list ts

abbrev pub text_or_none : Text → Option Json
text_or_none [] = none
text_or_none (b ∷ s) = some (string (b ∷ s))

abbrev pub stops_or_none : List Text → Option Json
stops_or_none [] = none
stops_or_none (s ∷ ss) = some (array (strings_of (s ∷ ss)))

-- The map `out` of openAIRequestToAnthropic, for the system prompt and the turns.
abbrev pub anthropic_request : Outer → Members → Text → List Turn → Members
anthropic_request out raw system turns = entry "model" (field "model" raw) (
    entry "stream" (boolean false) (
      entry "max_tokens" (number_of (max_tokens_of out raw)) (
        entry "messages" (array (array_of (turn_list turns))) (
          optional "temperature" (lookup (codes "temperature") raw) (
            optional "top_p" (lookup (codes "top_p") raw) (
              optional "stop_sequences"
                (stops_or_none (open_ai_stop_to_anthropic (field "stop" raw)))
                (optional "system" (text_or_none system) (
                  optional "tools" (open_ai_tools_to_anthropic (field "tools" raw)) (
                    optional "tool_choice"
                      (open_ai_tool_choice_to_anthropic (field "tool_choice" raw)) end)))))))))

unfoldable pub open_ai_request_to_anthropic : Outer → Members → Translated Members
unfolding open_ai_messages_to_anthropic max_tokens_of open_ai_stop_to_anthropic
    open_ai_tools_to_anthropic open_ai_tool_choice_to_anthropic field lookup
open_ai_request_to_anthropic out raw =
    then_translate (open_ai_messages_to_anthropic out (field "messages" raw))
      (λ r. done (anthropic_request out raw r.0 r.1))
