-- ===== src/Gateway/Bridge/Requests/Bodies.antt =====
-- The bodies that openAIRequestToAnthropic (bridge_openai_anthropic.go) makes.
use Prim.Native.String.{String}
use phlox_gw.Common.{
  ℕ, false, Option, none, some, List, [], ◌∷◌, ◌≡◌, ◌≢◌, refl, ◌<◌, ◌∙◌, ◌||◌, inl, inr, Bool-cases,
  arith, if◌then◌else◌,
}
use mathlib.Core.Path.{subst}
use phlox_gw.Common.Int.{ℤ, pos, negsuc, ltb_ℤ}
use phlox_gw.Common.Text.{Text, codes, text_eq, text_eq_refl}
use phlox_gw.Common.Text.Numbers.{decimal}
use phlox_gw.Gateway.Json.{Json, boolean, number, array, Members, end}
use phlox_gw.Gateway.Fields.{lookup, field, optional, array_of, int_value, first_present}
use phlox_gw.Gateway.Bridge.{done, Outer}
use phlox_gw.Gateway.Bridge.Turns.{Turn, open_ai_messages_to_anthropic}
use phlox_gw.Gateway.Bridge.Turns.Alternation.{
  IsConversation, done_inj, then_translate-done, open_ai_messages_to_anthropic-IsConversation,
}
use phlox_gw.Gateway.Bridge.Requests.{
  max_tokens_of, turn_list, stops_or_none, text_or_none, open_ai_stop_to_anthropic,
  open_ai_tools_to_anthropic, open_ai_tool_choice_to_anthropic, anthropic_request,
  open_ai_request_to_anthropic,
}

chosen : ℤ → ℤ
chosen n = if ltb_ℤ (pos 0) n then n else pos 4096

chosen_positive : (n : ℤ) → (k : ℕ) × ((0 < k) × (chosen n ≡ pos k))
unfolding chosen
chosen_positive (pos n) = elim (Bool-cases (ltb_ℤ (pos 0) (pos n))) [
  | inl e ↦ (n, (ground arith, rw e refl))
  | inr e ↦ (4096, (omega arith, rw e refl))
]
chosen_positive (negsuc n) = (4096, (omega arith, ground arith))

max_tokens_of-positive :
    (out : Outer) (raw : Members) → (k : ℕ) × ((0 < k) × (max_tokens_of out raw ≡ pos k))
unfolding max_tokens_of chosen
max_tokens_of-positive out raw = chosen_positive (
    int_value out.whole
      (first_present (codes "max_completion_tokens" ∷ codes "max_tokens" ∷ []) raw))

lookup-optional :
    (k : String) (o : Option Json) (m : Members)
    → lookup (codes k) m ≡ none
    → lookup (codes k) (optional k o m) ≡ o
unfolding lookup
lookup-optional k none m h = h
lookup-optional k (some v) m h = rw (text_eq_refl (codes k)) refl

lookup-other :
    (k : Text) (k' : String) (o : Option Json) (m : Members)
    → text_eq k (codes k') ≡ false
    → lookup k (optional k' o m) ≡ lookup k m
unfolding lookup
lookup-other k k' none m h = refl
lookup-other k k' (some v) m h = rw h refl

-- The entries after temperature and top_p.
abbrev rest_of : Option Json → Option Json → Option Json → Option Json → Members
rest_of stops system tools choice =
    optional "stop_sequences" stops
      (optional "system" system (optional "tools" tools (optional "tool_choice" choice end)))

module _ (stops system tools choice : Option Json) where
  rest-none :
      (k : Text)
      → text_eq k (codes "stop_sequences")
          || text_eq k (codes "system")
          || text_eq k (codes "tools")
          || text_eq k (codes "tool_choice")
        ≡ false
      → lookup k (rest_of stops system tools choice) ≡ none
  unfolding lookup
  rest-none k h =
      lookup-other k "stop_sequences" stops _ (ground (arith, h))
      ∙ (lookup-other k "system" system _ (ground (arith, h))
          ∙ (lookup-other k "tools" tools _ (ground (arith, h))
              ∙ lookup-other k "tool_choice" choice end (ground (arith, h))))

  temperature_lem :
      (t p : Option Json)
      → lookup
          (codes "temperature")
          (optional "temperature" t (optional "top_p" p (rest_of stops system tools choice)))
        ≡ t
  unfolding text_eq
  temperature_lem t p =
      lookup-optional "temperature" t (optional "top_p" p (rest_of stops system tools choice)) (
        lookup-other (codes "temperature") "top_p" p (rest_of stops system tools choice) refl
        ∙ rest-none (codes "temperature") refl)

  top_p_lem :
      (t p : Option Json)
      → lookup
          (codes "top_p")
          (optional "temperature" t (optional "top_p" p (rest_of stops system tools choice)))
        ≡ p
  unfolding text_eq
  top_p_lem t p =
      lookup-other (codes "top_p") "temperature" t
        (optional "top_p" p (rest_of stops system tools choice)) refl
      ∙ lookup-optional "top_p" p (rest_of stops system tools choice)
          (rest-none (codes "top_p") refl)

-- The messages of a body and its limit, and what it has from the body of the client.
pub record IsMessagesBody (out : Outer) (raw m : Members) : Type 0 where
  pub turns : List Turn
  pub conversation : IsConversation turns × (turns ≢ [])
  pub messages : field "messages" m ≡ array (array_of (turn_list turns))
  pub limit : ℕ
  pub max_tokens : (0 < limit) × (field "max_tokens" m ≡ number (decimal limit))
  pub model : field "model" m ≡ field "model" raw
  pub stream : field "stream" m ≡ boolean false
  pub temperature : lookup (codes "temperature") m ≡ lookup (codes "temperature") raw
  pub top_p : lookup (codes "top_p") m ≡ lookup (codes "top_p") raw

anthropic_request-IsMessagesBody :
    (out : Outer) (raw : Members) (system : Text) (turns : List Turn)
    → open_ai_messages_to_anthropic out (field "messages" raw) ≡ done (system, turns)
    → IsMessagesBody out raw (anthropic_request out raw system turns)
unfolding field lookup text_eq
anthropic_request-IsMessagesBody out raw system turns e =
    let (k, (positive, same)) = max_tokens_of-positive out raw in
    record {
      turns = turns;
      conversation =
          open_ai_messages_to_anthropic-IsConversation out (field "messages" raw) system turns e;
      messages = refl;
      limit = k;
      max_tokens = (positive, rw same refl);
      model = refl;
      stream = refl;
      temperature =
          temperature_lem (stops_or_none (open_ai_stop_to_anthropic (field "stop" raw)))
            (text_or_none system) (open_ai_tools_to_anthropic (field "tools" raw))
            (open_ai_tool_choice_to_anthropic (field "tool_choice" raw))
            (lookup (codes "temperature") raw) (lookup (codes "top_p") raw);
      top_p =
          top_p_lem (stops_or_none (open_ai_stop_to_anthropic (field "stop" raw)))
            (text_or_none system) (open_ai_tools_to_anthropic (field "tools" raw))
            (open_ai_tool_choice_to_anthropic (field "tool_choice" raw))
            (lookup (codes "temperature") raw) (lookup (codes "top_p") raw);
    }

-- A chat completion that is translated has become a body whose messages are of the user and the
-- assistant in turn, none empty and at least one of them, whose max_tokens is positive and whose stream
-- is false; its model is that of the client, and its temperature and top_p are passed on as they were,
-- each absent where the client gave none.
pub open_ai_request_to_anthropic-IsMessagesBody :
    (out : Outer) (raw m : Members)
    → open_ai_request_to_anthropic out raw ≡ done m
    → IsMessagesBody out raw m
unfolding open_ai_request_to_anthropic field lookup
open_ai_request_to_anthropic-IsMessagesBody out raw m e =
    let (r, (d, k)) =
      then_translate-done (open_ai_messages_to_anthropic out (field "messages" raw))
        (λ r. done (anthropic_request out raw r.0 r.1)) m e in
    subst (IsMessagesBody out raw) (done_inj k) (anthropic_request-IsMessagesBody out raw r.0 r.1 d)
