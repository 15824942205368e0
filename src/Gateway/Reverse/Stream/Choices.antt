-- ===== src/Gateway/Reverse/Stream/Choices.antt =====
-- What writeOpenAIChunk (bridge_anthropic_openai.go) keeps.
use phlox_gw.Common.{List, [], ◌∷◌, inl, inr, Option-cases}
use phlox_gw.Common.Text.{Text}
use phlox_gw.Gateway.Json.{Items, nil, cons, Members}
use phlox_gw.Gateway.Fields.{field, text_of, as_object, object_of, items_of}
use phlox_gw.Gateway.Flows.{FlowIs, then_flow-FlowIs}
use phlox_gw.Gateway.Reverse.Events.{Client}
use phlox_gw.Gateway.Reverse.Blocks.{Reversed, write_text_delta, write_tool_calls}
use phlox_gw.Gateway.Reverse.Blocks.Writes.{IsClosed, IsGood}
use phlox_gw.Gateway.Reverse.Blocks.Texts.{write_text_delta-IsGood}
use phlox_gw.Gateway.Reverse.Blocks.Calls.{write_tool_calls-IsGood}
use phlox_gw.Gateway.Reverse.Stream.{
  open_ai_stream_delta_text_fragments, write_texts, note_finish, write_choice, write_choices,
}

module _ (c : Client) where
  write_texts-IsGood :
      (ts : List Text) (s : Reversed) → IsGood s → FlowIs IsGood IsClosed (write_texts c ts s)
  unfolding write_texts
  write_texts-IsGood [] s h = h
  write_texts-IsGood (t ∷ ts) s h =
      then_flow-FlowIs IsGood IsGood IsClosed (write_text_delta c t s) (write_texts c ts)
        (write_text_delta-IsGood c t s h) (write_texts-IsGood ts)

  note_finish-IsGood : (reason : Text) (s : Reversed) → IsGood s → IsGood (note_finish c reason s)
  note_finish-IsGood [] s h = h
  note_finish-IsGood (b ∷ reason) s (h, cov) = (
    record {
      order = h.order;
      count = h.count;
      text = h.text;
      tools = h.tools;
      unmarked = h.unmarked;
    },
    cov,
  )

  write_choice-IsGood :
      (choice : Members) (s : Reversed)
      → IsGood s
      → FlowIs IsGood IsClosed (write_choice c choice s)
  unfolding write_choice
  write_choice-IsGood choice s h =
      let delta = object_of (field "delta" choice) in
      then_flow-FlowIs IsGood IsGood IsClosed
        (write_texts c (open_ai_stream_delta_text_fragments delta) s) _
        (write_texts-IsGood (open_ai_stream_delta_text_fragments delta) s h)
        (λ u g.
          then_flow-FlowIs IsGood IsGood IsClosed
            (write_tool_calls c (items_of (field "tool_calls" delta)) u) _
            (write_tool_calls-IsGood c (items_of (field "tool_calls" delta)) u g)
            (note_finish-IsGood (text_of (field "finish_reason" choice))))

  pub write_choices-IsGood :
      (xs : Items) (s : Reversed) → IsGood s → FlowIs IsGood IsClosed (write_choices c xs s)
  unfolding write_choices
  write_choices-IsGood nil s h = h
  write_choices-IsGood (cons x xs) s h = elim (Option-cases (as_object x)) [
    | inl e ↦ rw (write_choices, e) (write_choices-IsGood xs s h)
    | inr (choice, e) ↦
        rw (write_choices, e)
          (then_flow-FlowIs IsGood IsGood IsClosed (write_choice c choice s) (write_choices c xs)
            (write_choice-IsGood choice s h) (write_choices-IsGood xs))
  ]
