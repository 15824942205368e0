-- ===== src/Gateway/Guardrails/Strings.antt =====
-- The strings of a JSON value that guardrails.go of internal/httpapi inspects, as a list, and a
-- value with each of them changed: what redactJSONValueInto does, without its flags.
use phlox_gw.Common.{
  ◌≡◌, refl, sym, ap, inl, inr, Bool, false, ◌||◌, List, [], ◌∷◌, ◌++◌, any, if◌then◌else◌, arith,
  Bool-cases,
}
use phlox_gw.Common.Text.{Text, text_eq_iff}
use phlox_gw.Store.Types.{GuardrailPolicy}
use phlox_gw.Gateway.Json.{
  Json, null, boolean, number, string, array, object, Items, nil, cons, Members, end, member,
}
use phlox_gw.Gateway.Guardrails.{TextResult, text_result, apply_guardrail_to_text}
use phlox_gw.Gateway.Rules.{Regexp}
use phlox_gw.Gateway.Guardrails.Values.{
  guardrail_skip_string_key, Inspected, kept, redact_value, redact_items, redact_members,
}

unfoldable mutual
  pub strings : Text → Json → List Text
  strings key null = []
  strings key (boolean b) = []
  strings key (number n) = []
  strings key (string s) = if guardrail_skip_string_key key then [] else s ∷ []
  strings key (array xs) = strings_items key xs
  strings key (object ms) = strings_members ms

  pub strings_items : Text → Items → List Text
  strings_items key nil = []
  strings_items key (cons x xs) = strings key x ++ strings_items key xs

  pub strings_members : Members → List Text
  strings_members end = []
  strings_members (member k x ms) = strings k x ++ strings_members ms

module _ (f : Text → Text) where
  unfoldable mutual
    pub map_strings : Text → Json → Json
    map_strings key null = null
    map_strings key (boolean b) = boolean b
    map_strings key (number n) = number n
    map_strings key (string s) = if guardrail_skip_string_key key then string s else string (f s)
    map_strings key (array xs) = array (map_items key xs)
    map_strings key (object ms) = object (map_members ms)

    pub map_items : Text → Items → Items
    map_items key nil = nil
    map_items key (cons x xs) = cons (map_strings key x) (map_items key xs)

    pub map_members : Members → Members
    map_members end = end
    map_members (member k x ms) = member k (map_strings k x) (map_members ms)

any-append : (p : Text → Bool) (xs ys : List Text) → any p (xs ++ ys) ≡ (any p xs || any p ys)
any-append p [] ys = refl
any-append p (x ∷ xs) ys = ground (arith, any-append p xs ys)

text_result_unchanged :
    (action : Text) (force : Bool) (s : Text) (fs : List Text) (blocks : Bool) (t : Text)
    → (text_result action force s fs blocks t).redacted ≡ false
    → (text_result action force s fs blocks t).text ≡ s
text_result_unchanged action force s fs blocks t h = ground (arith, text_eq_iff t s)

module _ (re : Regexp) (policy : GuardrailPolicy) (action : Text) (force : Bool) where
  abbrev pub applied : Text → TextResult
  applied = apply_guardrail_to_text re policy action force

  text_unchanged : (s : Text) → (applied s).redacted ≡ false → (applied s).text ≡ s
  unfolding apply_guardrail_to_text
  text_unchanged s h = text_result_unchanged action force s _ _ _ h

  kept_lem :
      (v : Json) (r : Inspected Json) → (r.mutated ≡ false → r.value ≡ v) → kept v r ≡ r.value
  kept_lem v r h = elim (Bool-cases r.mutated) [ inl e ↦ rw e refl | inr e ↦ rw e (sym (h e)) ]

  mutual
    unfolding redact_value

    value_unchanged :
        (key : Text) (v : Json)
        → (redact_value re policy action force key v).mutated ≡ false
        → (redact_value re policy action force key v).value ≡ v
    value_unchanged key null h = refl
    value_unchanged key (boolean b) h = refl
    value_unchanged key (number n) h = refl
    value_unchanged key (string s) h = elim (Bool-cases (guardrail_skip_string_key key)) [
      | inl e ↦ rw e refl
      | inr e ↦ rw e (ap string (text_unchanged s (rw e at h)))
    ]
    value_unchanged key (array xs) h = ap array (items_unchanged key xs h)
    value_unchanged key (object ms) h = ap object (members_unchanged ms h)

    items_unchanged :
        (key : Text) (xs : Items)
        → (redact_items re policy action force key xs).mutated ≡ false
        → (redact_items re policy action force key xs).value ≡ xs
    items_unchanged key nil h = refl
    items_unchanged key (cons x xs) h =
        let r = redact_value re policy action force key x in
        let here : r.mutated ≡ false = ground arith in
        let there : (redact_items re policy action force key xs).mutated ≡ false = ground arith in
        rw (here, items_unchanged key xs there) refl

    pub members_unchanged :
        (ms : Members)
        → (redact_members re policy action force ms).mutated ≡ false
        → (redact_members re policy action force ms).value ≡ ms
    members_unchanged end h = refl
    members_unchanged (member k x ms) h =
        let r = redact_value re policy action force k x in
        let here : r.mutated ≡ false = ground arith in
        let there : (redact_members re policy action force ms).mutated ≡ false = ground arith in
        rw (here, members_unchanged ms there) refl

  value_kept :
      (key : Text) (v : Json)
      → kept v (redact_value re policy action force key v)
        ≡ (redact_value re policy action force key v).value
  value_kept key v = kept_lem v (redact_value re policy action force key v) (value_unchanged key v)

  mutual
    unfolding redact_value map_strings

    -- The value is the one with each inspected string replaced.
    pub redact_value-map_strings :
        (key : Text) (v : Json)
        → (redact_value re policy action force key v).value
          ≡ map_strings (λ s. (applied s).text) key v
    redact_value-map_strings key null = refl
    redact_value-map_strings key (boolean b) = refl
    redact_value-map_strings key (number n) = refl
    redact_value-map_strings key (string s) = elim (Bool-cases (guardrail_skip_string_key key)) [
      | inl e ↦ rw e refl
      | inr e ↦ rw e refl
    ]
    redact_value-map_strings key (array xs) = ap array (redact_items-map_items key xs)
    redact_value-map_strings key (object ms) = ap object (redact_members-map_members ms)

    pub redact_items-map_items :
        (key : Text) (xs : Items)
        → (redact_items re policy action force key xs).value
          ≡ map_items (λ s. (applied s).text) key xs
    redact_items-map_items key nil = refl
    redact_items-map_items key (cons x xs) =
        rw (value_kept key x, redact_value-map_strings key x, redact_items-map_items key xs) refl

    pub redact_members-map_members :
        (ms : Members)
        → (redact_members re policy action force ms).value ≡ map_members (λ s. (applied s).text) ms
    redact_members-map_members end = refl
    redact_members-map_members (member k x ms) =
        rw (value_kept k x, redact_value-map_strings k x, redact_members-map_members ms) refl

  mutual
    unfolding redact_value strings

    -- The value is blocked exactly if one of its inspected strings is.
    pub redact_value-blocked :
        (key : Text) (v : Json)
        → (redact_value re policy action force key v).blocked
          ≡ any (λ s. (applied s).blocked) (strings key v)
    redact_value-blocked key null = refl
    redact_value-blocked key (boolean b) = refl
    redact_value-blocked key (number n) = refl
    redact_value-blocked key (string s) = elim (Bool-cases (guardrail_skip_string_key key)) [
      | inl e ↦ rw e refl
      | inr e ↦ rw e (ground arith)
    ]
    redact_value-blocked key (array xs) = redact_items-blocked key xs
    redact_value-blocked key (object ms) = redact_members-blocked ms

    pub redact_items-blocked :
        (key : Text) (xs : Items)
        → (redact_items re policy action force key xs).blocked
          ≡ any (λ s. (applied s).blocked) (strings_items key xs)
    redact_items-blocked key nil = refl
    redact_items-blocked key (cons x xs) =
        rw
          (
            any-append _ (strings key x) (strings_items key xs),
            redact_value-blocked key x,
            redact_items-blocked key xs,
          )
          refl

    pub redact_members-blocked :
        (ms : Members)
        → (redact_members re policy action force ms).blocked
          ≡ any (λ s. (applied s).blocked) (strings_members ms)
    redact_members-blocked end = refl
    redact_members-blocked (member k x ms) =
        rw
          (
            any-append _ (strings k x) (strings_members ms),
            redact_value-blocked k x,
            redact_members-blocked ms,
          )
          refl
