-- ===== src/Gateway/Bridge/Turns/Alternation.antt =====
-- The turns that openAIMessagesToAnthropic of bridge_openai_anthropic.go makes.
use phlox_gw.Common.{
  ℕ, Bool, true, false, List, [], ◌∷◌, ◌++◌, All, ◌≡◌, ◌≢◌, refl, ap, ◌∙◌, ◌⊎◌, inl, inr,
  Bool-cases, Option-cases, arith, if◌then◌else◌, ◌||◌,
}
use mathlib.Core.Path.{subst}
use phlox_gw.Common.Text.{Text, text_eq}
use phlox_gw.Gateway.Json.{Json, Items, nil, cons, Members}
use phlox_gw.Gateway.Fields.{as_object, items_of}
use phlox_gw.Gateway.Bridge.{Translated, done, failed, then_translate, Outer}
use phlox_gw.Gateway.Bridge.Turns.{
  Turn, append_after, append_blocks, Conversation, Contribution, contribution, added, converse,
  is_nil, nobody_yet, split_conversation, open_ai_messages_to_anthropic, user, assistant,
}

pub Translated-cases :
    {A : Type 0} (t : Translated A) → ((a : A) × (t ≡ done a)) ⊎ ((e : Text) × (t ≡ failed e))
Translated-cases (done a) = inl (a, refl)
Translated-cases (failed e) = inr (e, refl)

pub done_inj : {A : Type 0} {a b : A} → done a ≡ done b → a ≡ b
done_inj h = cc

pub not_failed : {A : Type 0} {a : A} {e : Text} → failed e ≡ done a → ⊥
not_failed h = ground arith

-- An error in the first step is an error of the whole.
pub then_translate-done :
    {A B : Type 0} (t : Translated A) (f : A → Translated B) (b : B)
    → then_translate t f ≡ done b
    → (a : A) × ((t ≡ done a) × (f a ≡ done b))
then_translate-done (done a) f b h = (a, (refl, h))
then_translate-done (failed e) f b h = absurd (not_failed h)

-- Each turn is of another role than the one before it.
abbrev pub Alternates : Text → List Turn → Type 0
Alternates role [] = Unit
Alternates role (t ∷ ts) = (text_eq role t.role ≡ false) × Alternates t.role ts

abbrev is_none : List Members → Bool
is_none [] = true
is_none (_ ∷ _) = false

abbrev is_speaker : Text → Bool
is_speaker role = text_eq role user || text_eq role assistant

-- Of the user or the assistant, and with content.
abbrev pub IsTurn : Turn → Type 0
IsTurn t = (is_speaker t.role ≡ true) × (is_none t.content ≡ false)

abbrev pub IsConversation : List Turn → Type 0
IsConversation [] = Unit
IsConversation (t ∷ ts) = All IsTurn (t ∷ ts) × Alternates t.role ts

append_none : (xs ys : List Members) → is_none xs ≡ false → is_none (xs ++ ys) ≡ false
append_none [] ys h = absurd (ground arith)
append_none (x ∷ xs) ys h = refl

module _ (role : Text) (b : Members) (bs : List Members) where
  append_after-Alternates :
      (r : Text) (t : Turn) (ts : List Turn)
      → text_eq r t.role ≡ false
      → Alternates t.role ts
      → Alternates r (append_after t role (b ∷ bs) ts)
  unfolding append_after
  append_after-Alternates r t [] h k = elim (Bool-cases (text_eq t.role role)) [
    | inl e ↦ rw e (h, tt)
    | inr e ↦ rw e (h, (e, tt))
  ]
  append_after-Alternates r t (t' ∷ ts) h (k, l) = (h, append_after-Alternates t.role t' ts k l)

  append_after-IsTurn :
      (t : Turn) (ts : List Turn)
      → is_speaker role ≡ true
      → All IsTurn (t ∷ ts)
      → All IsTurn (append_after t role (b ∷ bs) ts)
  unfolding append_after
  append_after-IsTurn t [] s ((p, q), h) = elim (Bool-cases (text_eq t.role role)) [
    | inl e ↦ rw e ((p, append_none t.content (b ∷ bs) q), tt)
    | inr e ↦ rw e ((p, q), ((s, refl), tt))
  ]
  append_after-IsTurn t (t' ∷ ts) s (p, h) = (p, append_after-IsTurn t' ts s h)

append_blocks-IsConversation :
    (role : Text) (blocks : List Members) (ts : List Turn)
    → is_speaker role ≡ true
    → IsConversation ts
    → IsConversation (append_blocks role blocks ts)
unfolding append_blocks append_after
append_blocks-IsConversation role [] ts s h = h
append_blocks-IsConversation role (b ∷ bs) [] s h = (((s, refl), tt), tt)
append_blocks-IsConversation role (b ∷ bs) (t ∷ []) s (h, k) =
    elim (Bool-cases (text_eq t.role role)) [
      | inl e ↦ rw e (append_one, tt)
      | inr e ↦ rw e ((h.0, ((s, refl), tt)), (e, tt))
    ]
  where
    append_one : All IsTurn (record t { content = t.content ++ b ∷ bs } ∷ [])
    append_one = ((h.0.0, append_none t.content (b ∷ bs) h.0.1), tt)
append_blocks-IsConversation role (b ∷ bs) (t ∷ t' ∷ ts) s (h, k) = (
  append_after-IsTurn role b bs t (t' ∷ ts) s h,
  append_after-Alternates role b bs t.role t' ts k.0 k.1,
)

-- What is contributed is said by the user or the assistant.
abbrev Speaks : Translated Contribution → Type 0
Speaks t = (c : Contribution) → t ≡ done c → is_speaker c.role ≡ true

if-Speaks :
    (b : Bool) (t u : Translated Contribution) → Speaks t → Speaks u → Speaks (if b then t else u)
if-Speaks true t u h k = h
if-Speaks false t u h k = k

done-Speaks : (d : Contribution) → is_speaker d.role ≡ true → Speaks (done d)
done-Speaks d h c e = subst (λ x. is_speaker x.role ≡ true) (done_inj e) h

then_translate-Speaks :
    {A : Type 0} (t : Translated A) (f : A → Translated Contribution)
    → ((a : A) → Speaks (f a))
    → Speaks (then_translate t f)
then_translate-Speaks (done a) f h = h a
then_translate-Speaks (failed e) f h = λ c k. absurd (not_failed k)

contribution-Speaks : (out : Outer) (n : ℕ) (msg : Members) → Speaks (contribution out n msg)
unfolding contribution
contribution-Speaks out n msg = search (if-Speaks, done-Speaks, then_translate-Speaks)

converse-IsConversation :
    (out : Outer) (xs : Items) (s s' : Conversation)
    → converse out s xs ≡ done s'
    → IsConversation s.turns
    → IsConversation s'.turns
unfolding converse
converse-IsConversation out nil s s' e h = subst (λ x. IsConversation x.turns) (done_inj e) h
converse-IsConversation out (cons x xs) s s' e h = elim (Option-cases (as_object x)) [
  | inl q ↦ absurd (not_failed (rw (q, converse) at e))
  | inr (msg, q) ↦
      let (c, (d, k)) =
        then_translate-done (contribution out s.drawn msg) _ s' (rw (q, converse) at e) in
      converse-IsConversation out xs (added s c) s' k (
        append_blocks-IsConversation c.role c.blocks s.turns
          (contribution-Speaks out s.drawn msg c d) h)
]

pub split_conversation-turns :
    (parts : List Text) (us : List Turn) (system : Text) (ts : List Turn)
    → split_conversation parts us ≡ done (system, ts)
    → (us ≡ ts) × (ts ≢ [])
split_conversation-turns parts [] system ts e = absurd (not_failed e)
split_conversation-turns parts (t ∷ us) system ts e =
    let same : t ∷ us ≡ ts = ap (λ r. r.1) (done_inj e) in (same, λ f. ground (arith, same ∙ f))

-- The messages of a chat completion that are translated become at least one turn; each turn is of
-- the user or of the assistant and has at least one block, and no two turns that follow one another
-- have the same role.
pub open_ai_messages_to_anthropic-IsConversation :
    (out : Outer) (value : Json) (system : Text) (ts : List Turn)
    → open_ai_messages_to_anthropic out value ≡ done (system, ts)
    → IsConversation ts × (ts ≢ [])
unfolding open_ai_messages_to_anthropic
open_ai_messages_to_anthropic-IsConversation out value system ts e =
    elim (Bool-cases (is_nil (items_of value))) [
      | inl q ↦ absurd (not_failed (rw q at e))
      | inr q ↦
          let (s, (d, k)) =
            then_translate-done (converse out nobody_yet (items_of value))
              (λ s. split_conversation s.system_parts s.turns) (system, ts) (rw q at e) in
          let (same, some_turn) = split_conversation-turns s.system_parts s.turns system ts k in
          (
            subst IsConversation same
                (converse-IsConversation out (items_of value) nobody_yet s d tt),
            some_turn,
          )
    ]
