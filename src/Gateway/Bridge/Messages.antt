-- ===== src/Gateway/Bridge/Messages.antt =====
-- bridge_openai_anthropic.go: the messages of a chat completion as Anthropic turns.
use Prim.Native.String.{String}
use phlox_gw.Common.{
  ℕ, suc, true, not, ◌||◌, Option, none, some, List, [], ◌∷◌, ◌++◌, if◌then◌else◌,
}
use phlox_gw.Common.Text.{Text, codes, text_eq, is_empty, has_prefix}
use phlox_gw.Common.Text.Split.{cut}
use phlox_gw.Common.Text.Trim.{trim_space}
use phlox_gw.Gateway.Json.{
  Json, null, boolean, number, string, array, object, Items, nil, cons, Members, end,
}
use phlox_gw.Gateway.Fields.{
  field, text_of, as_object, object_of, items_of, bool_of, is_text, entry, words_of, is_blank,
  fallback_string, join_by,
}
use phlox_gw.Gateway.Bridge.{Translated, done, failed, then_translate, Outer}

-- The texts of the blocks of a content, but for empty ones.
unfoldable pub content_texts : Items → List Text
unfolding field
content_texts nil = []
content_texts (cons x xs) =
    let rest = content_texts xs in
    let text = text_of (field "text" (object_of x)) in if is_empty text then rest else text ∷ rest

unfoldable pub open_ai_content_text : Json → Text
unfolding content_texts join_by
open_ai_content_text (string s) = s
open_ai_content_text (array xs) = join_by (codes "\n") (content_texts xs)
open_ai_content_text _ = []

abbrev pub text_block : Text → Members
text_block t = entry "type" (words_of "text") (entry "text" (string t) end)

abbrev pub bad_image_url : Text
bad_image_url = codes "image_url data URLs must use the data:<media-type>;base64,<data> form"

-- strings.TrimPrefix
abbrev pub trim_prefix : Text → Text → Text
trim_prefix [] s = s
trim_prefix (_ ∷ _) [] = []
trim_prefix (_ ∷ p) (_ ∷ s) = trim_prefix p s

-- strings.CutSuffix
unfoldable pub cut_suffix : Text → Text → Option Text
unfolding text_eq
cut_suffix suffix [] = if is_empty suffix then some [] else none
cut_suffix suffix (b ∷ s) =
    let rest = cut_suffix suffix s in
    if text_eq (b ∷ s) suffix
    then some []
    else elim rest [ none ↦ none | some before ↦ some (b ∷ before) ]

abbrev pub url_image : Text → Members
url_image url =
    entry "type" (words_of "image")
      (entry "source" (object (entry "type" (words_of "url") (entry "url" (string url) end))) end)

abbrev pub data_image : Text → Text → Members
data_image media_type data_text = entry "type" (words_of "image") (
    entry "source"
      (object (
        entry "type" (words_of "base64")
          (entry "media_type" (string media_type) (entry "data" (string data_text) end))))
      end)

-- The parts of a data URL, after its scheme.
abbrev pub data_parts : Option (Text × Text) → Translated (List Members)
data_parts none = failed bad_image_url
data_parts (some (meta, data_text)) = elim (cut_suffix (codes ";base64") meta) [
  | none ↦ failed bad_image_url
  | some media_type ↦
      if is_empty media_type || is_empty data_text
      then failed bad_image_url
      else done (data_image media_type data_text ∷ [])
]

abbrev pub image_of_url : Text → Translated (List Members)
image_of_url url =
    if is_blank url
    then done []
    else if not (has_prefix url (codes "data:"))
    then done (url_image url ∷ [])
    else data_parts (cut 0x2c (trim_prefix (codes "data:") url))

-- openAIImageURLToAnthropic; a nil block is none.
unfoldable pub open_ai_image_url_to_anthropic : Json → Translated (List Members)
unfolding field trim_space has_prefix cut cut_suffix
open_ai_image_url_to_anthropic raw = elim (as_object raw) [
  | none ↦ done []
  | some image_url ↦ image_of_url (text_of (field "url" image_url))
]

abbrev pub text_blocks : Text → List Members
text_blocks t = if is_blank t then [] else text_block t ∷ []

abbrev pub user_part : Members → Translated (List Members)
user_part part =
    if is_text "text" (field "type" part)
    then done (text_blocks (text_of (field "text" part)))
    else if is_text "image_url" (field "type" part)
    then open_ai_image_url_to_anthropic (field "image_url" part)
    else done []

unfoldable pub user_parts : Items → Translated (List Members)
unfolding open_ai_image_url_to_anthropic field trim_space
user_parts nil = done []
user_parts (cons x xs) =
    let rest = user_parts xs in
    elim (as_object x) [
      | none ↦ rest
      | some part ↦
          then_translate (user_part part) (λ bs. then_translate rest (λ cs. done (bs ++ cs)))
    ]

unfoldable pub open_ai_user_message_to_anthropic : Members → Translated (List Members)
unfolding user_parts field trim_space
open_ai_user_message_to_anthropic msg = elim (field "content" msg) [
  | string s ↦ done (text_blocks s)
  | array xs ↦ user_parts xs
  | _ ↦ done []
]

abbrev pub unsupported : String → Translated Members
unsupported t = failed (codes "unsupported OpenAI tool call arguments type " ++ codes t)

abbrev pub decoded_input : Outer → Text → Translated Json → Translated Members
decoded_input out v (done (object m)) = done m
decoded_input out v (done null) = done end
decoded_input out v (done _) =
    failed (codes "could not parse OpenAI tool call arguments: " ++ out.unmarshal_error v)
decoded_input out v (failed e) = failed (codes "could not parse OpenAI tool call arguments: " ++ e)

-- openAIToolCallArgumentsToAnthropicInput of bridge_anthropic_openai.go
unfoldable pub arguments_to_input : Outer → Json → Translated Members
unfolding trim_space
arguments_to_input out null = done end
arguments_to_input out (string v) =
    if is_blank v then done end else decoded_input out v (out.decode v)
arguments_to_input out (object m) = done m
arguments_to_input out (boolean _) = unsupported "bool"
arguments_to_input out (number _) = unsupported "float64"
arguments_to_input out (array _) = unsupported "[]interface {}"

-- "toolu_"+requestID(), for the n-th id.
abbrev pub tool_id : Outer → ℕ → Text
tool_id out n = codes "toolu_" ++ out.fresh n

abbrev pub tool_use : Outer → ℕ → Members → Members → Members
tool_use out n call input =
    let name = text_of (field "name" (object_of (field "function" call))) in
    entry "type" (words_of "tool_use") (
      entry "id" (string (fallback_string (text_of (field "id" call)) (tool_id out n))) (
        entry "name" (string (if is_blank name then codes "tool" else name))
          (entry "input" (object input) end)))

-- The loop on tool_calls: the ids drawn afterwards, and the blocks.
unfoldable pub assistant_calls : Outer → ℕ → Items → Translated (ℕ × List Members)
unfolding arguments_to_input fallback_string field trim_space
assistant_calls out n nil = done (n, [])
assistant_calls out n (cons x xs) =
    let skipped = assistant_calls out n xs in
    let rest = assistant_calls out (suc n) xs in
    elim (as_object x) [
      | none ↦ skipped
      | some call ↦
          then_translate
            (arguments_to_input out (field "arguments" (object_of (field "function" call))))
            (λ input. then_translate rest (λ r. done (r.0, tool_use out n call input ∷ r.1)))
    ]

unfoldable pub open_ai_assistant_message_to_anthropic :
    Outer → ℕ → Members → Translated (ℕ × List Members)
unfolding assistant_calls open_ai_content_text field trim_space
open_ai_assistant_message_to_anthropic out n msg =
    let text = open_ai_content_text (field "content" msg) in
    then_translate (assistant_calls out n (items_of (field "tool_calls" msg)))
      (λ r. done (r.0, text_blocks text ++ r.1))

unfoldable pub open_ai_tool_message_to_anthropic : Outer → ℕ → Members → Members
unfolding open_ai_content_text fallback_string field
open_ai_tool_message_to_anthropic out n msg = entry "type" (words_of "tool_result") (
    entry "tool_use_id"
      (string (fallback_string (text_of (field "tool_call_id" msg)) (tool_id out n)))
      (entry "content" (string (open_ai_content_text (field "content" msg)))
        (if bool_of (field "is_error" msg) then entry "is_error" (boolean true) end else end)))
