-- ===== src/Gateway/Bridge/Turns/Contents.antt =====
-- What the turns of openAIMessagesToAnthropic (bridge_openai_anthropic.go) hold: the blocks of the
-- messages, one after another, each under the role of its message.
use phlox_gw.Common.{
  ℕ, none, some, List, [], ◌∷◌, ◌++◌, ◌≡◌, refl, sym, ap, ◌∙◌, inl, inr, append_assoc, append-nil,
  Bool-cases, Option-cases,
}
use phlox_gw.Common.Text.{Text, text_eq, text_eq_iff}
use phlox_gw.Gateway.Json.{Json, Items, nil, cons, Members}
use phlox_gw.Gateway.Fields.{as_object, items_of}
use phlox_gw.Gateway.Bridge.{done, failed, Outer}
use phlox_gw.Gateway.Bridge.Turns.{
  Turn, append_after, append_blocks, Conversation, contribution, added, converse, is_nil,
  nobody_yet, split_conversation, open_ai_messages_to_anthropic,
}
use phlox_gw.Gateway.Bridge.Turns.Alternation.{
  done_inj, not_failed, then_translate-done, split_conversation-turns,
}

abbrev pub under : Text → List Members → List (Text × Members)
under role [] = []
under role (b ∷ bs) = (role, b) ∷ under role bs

abbrev pub spoken : List Turn → List (Text × Members)
spoken [] = []
spoken (t ∷ ts) = under t.role t.content ++ spoken ts

-- What each message contributes, read on its own.
abbrev pub contributed : Outer → ℕ → Items → List (Text × Members)
contributed out n nil = []
contributed out n (cons x xs) = elim (as_object x) [
  | none ↦ []
  | some msg ↦ elim (contribution out n msg) [
    | failed _ ↦ []
    | done c ↦ under c.role c.blocks ++ contributed out c.drawn xs
  ]
]

under-append :
    (role : Text) (xs ys : List Members) → under role (xs ++ ys) ≡ under role xs ++ under role ys
under-append role [] ys = refl
under-append role (x ∷ xs) ys = ap (λ zs. (role, x) ∷ zs) (under-append role xs ys)

spoken-append_after :
    (t : Turn) (role : Text) (bs : List Members) (ts : List Turn)
    → spoken (append_after t role bs ts) ≡ spoken (t ∷ ts) ++ under role bs
unfolding append_after
spoken-append_after t role bs [] = elim (Bool-cases (text_eq t.role role)) [
  | inl e ↦
      let same = (text_eq_iff t.role role).0 e in
      rw (e, append-nil, append-nil, under-append t.role t.content bs, same) refl
  | inr e ↦ rw (e, append-nil, append-nil) refl
]
spoken-append_after t role bs (t' ∷ ts) =
    ap (λ z. under t.role t.content ++ z) (spoken-append_after t' role bs ts)
    ∙ sym (append_assoc (under t.role t.content) (spoken (t' ∷ ts)) (under role bs))

spoken-append_blocks :
    (role : Text) (bs : List Members) (ts : List Turn)
    → spoken (append_blocks role bs ts) ≡ spoken ts ++ under role bs
unfolding append_blocks
spoken-append_blocks role [] ts = sym (append-nil (spoken ts))
spoken-append_blocks role (b ∷ bs) [] = append-nil (under role (b ∷ bs))
spoken-append_blocks role (b ∷ bs) (t ∷ ts) = spoken-append_after t role (b ∷ bs) ts

spoken-converse :
    (out : Outer) (xs : Items) (s s' : Conversation)
    → converse out s xs ≡ done s'
    → spoken s'.turns ≡ spoken s.turns ++ contributed out s.drawn xs
unfolding converse
spoken-converse out nil s s' e =
    rw (append-nil (spoken s.turns)) (ap (λ x. spoken x.turns) (sym (done_inj e)))
spoken-converse out (cons x xs) s s' e = elim (Option-cases (as_object x)) [
  | inl q ↦ absurd (not_failed (rw (q, converse) at e))
  | inr (msg, q) ↦
      let (c, (d, k)) =
        then_translate-done (contribution out s.drawn msg) _ s' (rw (q, converse) at e) in
      let rest = spoken-converse out xs (added s c) s' k in
      let here = spoken-append_blocks c.role c.blocks s.turns in
      rw (rest, here, append_assoc, contributed, q, d) refl
]

-- If the messages of a chat completion are translated, then the blocks of the turns, read in order
-- and each with its turn's role, are those that the messages contribute one by one: merging the
-- turns of one role neither loses, repeats nor reorders a block.
pub open_ai_messages_to_anthropic-contents :
    (out : Outer) (value : Json) (system : Text) (ts : List Turn)
    → open_ai_messages_to_anthropic out value ≡ done (system, ts)
    → spoken ts ≡ contributed out 0 (items_of value)
unfolding open_ai_messages_to_anthropic
open_ai_messages_to_anthropic-contents out value system ts e =
    elim (Bool-cases (is_nil (items_of value))) [
      | inl q ↦ absurd (not_failed (rw q at e))
      | inr q ↦
          let (s, (d, k)) =
            then_translate-done (converse out nobody_yet (items_of value))
              (λ s. split_conversation s.system_parts s.turns) (system, ts) (rw q at e) in
          let same = (split_conversation-turns s.system_parts s.turns system ts k).0 in
          rw (← same) (spoken-converse out (items_of value) nobody_yet s d)
    ]
