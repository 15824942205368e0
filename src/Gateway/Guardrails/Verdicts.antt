-- ===== src/Gateway/Guardrails/Verdicts.antt =====
-- What applyGuardrailToMap and applyGuardrailToStreamPayload (guardrails.go of internal/httpapi)
-- answer on a whole body.
use phlox_gw.Common.{
  ◌≡◌, refl, ◌∙◌, inl, inr, Bool, true, false, not, ◌&&◌, List, [], ◌∷◌, any, if◌then◌else◌, arith,
  Bool-cases,
}
use phlox_gw.Common.Text.{Text, codes, text_eq, text_eq_iff, is_empty}
use phlox_gw.Store.Types.{GuardrailPolicy}
use phlox_gw.Gateway.Json.{Members}
use phlox_gw.Gateway.Guardrails.{text_result, is_blocked, apply_guardrail_to_text}
use phlox_gw.Gateway.Rules.{Regexp}
use phlox_gw.Gateway.Guardrails.Values.{Inspected, redact_members}
use phlox_gw.Gateway.Guardrails.Bodies.{Phase, map_result, guardrail_action, apply_guardrail_to_map}
use phlox_gw.Gateway.Guardrails.Strings.{
  strings_members, map_members, applied, members_unchanged, redact_members-map_members,
  redact_members-blocked,
}

-- The string is not empty, and what is found in it blocks it.
abbrev pub blocks : Regexp → GuardrailPolicy → Text → Text → Bool
blocks re policy action s = not (is_empty s) && is_blocked re policy action s

text_result_blocked :
    (action : Text) (s : Text) (fs : List Text) (b : Bool) (t : Text)
    → text_eq action (codes "off") ≡ false
    → (text_result action false s fs b t).blocked ≡ (not (is_empty s) && b)
text_result_blocked action s fs b t h = ground (arith, h)

applied_blocked :
    (re : Regexp) (policy : GuardrailPolicy) (action : Text) (s : Text)
    → text_eq action (codes "off") ≡ false
    → (applied re policy action false s).blocked ≡ blocks re policy action s
unfolding apply_guardrail_to_text
applied_blocked re policy action s h = text_result_blocked action s _ _ _ h

any-cong : (p q : Text → Bool) → ((s : Text) → p s ≡ q s) → (xs : List Text) → any p xs ≡ any q xs
any-cong p q h [] = refl
any-cong p q h (x ∷ xs) = rw (h x, any-cong p q h xs) refl

members_blocked :
    (re : Regexp) (policy : GuardrailPolicy) (action : Text) (raw : Members)
    → text_eq action (codes "off") ≡ false
    → (redact_members re policy action false raw).blocked
      ≡ any (blocks re policy action) (strings_members raw)
members_blocked re policy action raw h =
    redact_members-blocked re policy action false raw
    ∙ any-cong _ _ (λ s. applied_blocked re policy action s h) (strings_members raw)

map_result_blocked :
    (action : Text) (raw : Members) (r : Inspected Members)
    → text_eq action (codes "off") ≡ false
    → (map_result action raw r).1.blocked ≡ r.blocked
map_result_blocked action raw r on = elim (Bool-cases r.blocked) [
  | inl b ↦ rw (on, map_result, b) refl
  | inr b ↦ elim (Bool-cases (text_eq action (codes "redact") && r.mutated)) [
    | inl m ↦ rw (on, map_result, b, m) refl
    | inr m ↦ rw (on, map_result, b, m) refl
  ]
]

map_result_verdict :
    (action : Text) (raw : Members) (r : Inspected Members) (x : Bool)
    → (text_eq action (codes "off") ≡ false → r.blocked ≡ x)
    → (map_result action raw r).1.blocked ≡ (not (text_eq action (codes "off")) && x)
map_result_verdict action raw r x h = elim (Bool-cases (text_eq action (codes "off"))) [
  | inl off ↦ rw (off, map_result) refl
  | inr on ↦ map_result_blocked action raw r on ∙ (h on ∙ (rw on refl))
]

off_not_redact :
    (action : Text) → text_eq action (codes "off") ≡ true → text_eq action (codes "redact") ≡ false
unfolding text_eq
off_not_redact action h = let e = (text_eq_iff action (codes "off")).0 h in rw e refl

map_result_value :
    (action : Text) (raw : Members) (r : Inspected Members)
    → (r.mutated ≡ false → r.value ≡ raw)
    → (map_result action raw r).0 ≡ (
        if text_eq action (codes "redact") && not (map_result action raw r).1.blocked
        then r.value
        else raw)
map_result_value action raw r same = elim (Bool-cases (text_eq action (codes "off"))) [
  | inl off ↦ rw (off, map_result, off_not_redact action off) refl
  | inr on ↦ elim (Bool-cases r.blocked) [
    | inl b ↦ rw (map_result_blocked action raw r on, b, on, map_result) (ground arith)
    | inr b ↦ elim (Bool-cases (text_eq action (codes "redact"))) [
      | inr e ↦ rw (e, on, map_result, b) refl
      | inl e ↦ elim (Bool-cases r.mutated) [
        | inl m ↦ rw (e, on, map_result, b, m) refl
        | inr m ↦ rw (e, on, map_result, b, m, same m) refl
      ]
    ]
  ]
]

-- A request is blocked exactly if guardrails are on for its phase and something blocks one of the
-- strings of its body that are inspected.
pub apply_guardrail_to_map_blocked :
    (re : Regexp) (policy : GuardrailPolicy) (phase : Phase) (raw : Members)
    → (apply_guardrail_to_map re policy phase raw).1.blocked ≡ (
        not (text_eq (guardrail_action policy phase) (codes "off"))
        && any (blocks re policy (guardrail_action policy phase)) (strings_members raw))
unfolding apply_guardrail_to_map
apply_guardrail_to_map_blocked re policy phase raw =
    let action = guardrail_action policy phase in
    map_result_verdict action raw (redact_members re policy action false raw) _
      (members_blocked re policy action raw)

-- A body that is not blocked, under the action of redaction, is passed on with each inspected string
-- replaced by its redaction; any other body is passed on as it is.
pub apply_guardrail_to_map_value :
    (re : Regexp) (policy : GuardrailPolicy) (phase : Phase) (raw : Members)
    → (apply_guardrail_to_map re policy phase raw).0 ≡ (
        if text_eq (guardrail_action policy phase) (codes "redact")
          && not (apply_guardrail_to_map re policy phase raw).1.blocked
        then map_members (λ s. (applied re policy (codes "redact") false s).text) raw
        else raw)
unfolding apply_guardrail_to_map
apply_guardrail_to_map_value re policy phase raw =
    let action = guardrail_action policy phase in
    let r = redact_members re policy action false raw in
    map_result_value action raw r (members_unchanged re policy action false raw)
    ∙ redacting action (not (map_result action raw r).1.blocked) r.value raw
        (redact_members-map_members re policy action false raw)
  where
    redacting :
        (action : Text) (b : Bool) (value raw : Members)
        → value ≡ map_members (λ s. (applied re policy action false s).text) raw
        → (if text_eq action (codes "redact") && b then value else raw) ≡ (
            if text_eq action (codes "redact") && b
            then map_members (λ s. (applied re policy (codes "redact") false s).text) raw
            else raw)
    redacting action b value raw h = elim (Bool-cases (text_eq action (codes "redact"))) [
      | inr e ↦ rw e refl
      | inl e ↦
          let same = (text_eq_iff action (codes "redact")).0 e in
          let h' : value
              ≡ map_members (λ s. (applied re policy (codes "redact") false s).text) raw =
            rw same at h in
          rw h' refl
    ]
