-- ===== src/Gateway/Handlers/Blocked.antt =====
-- A body that the input guardrails block goes no further (gateway.go, guardrails.go of
-- internal/httpapi).
use phlox_gw.Common.{ℕ, ◌≡◌, refl, ◌∙◌, true, false, any}
use phlox_gw.Common.Int.{pos}
use phlox_gw.Common.Text.{codes, text_eq}
use phlox_gw.Store.Types.{Db}
use phlox_gw.Gateway.Json.{Members}
use phlox_gw.Gateway.Guardrails.Bodies.{
  input, guardrail_action, apply_guardrail_to_map, guardrail_reason,
}
use phlox_gw.Gateway.Guardrails.Strings.{strings_members}
use phlox_gw.Gateway.Guardrails.Verdicts.{blocks, apply_guardrail_to_map_blocked}
use phlox_gw.Gateway.Outside.{Outside}
use phlox_gw.Gateway.Handlers.{Surface, Caller, only_error, handle}

-- If guardrails are on for requests and something blocks one of the strings of a body that are
-- inspected, then the handler answers with an error of status 400 that names the findings, of the type
-- that the surface writes for a violation of the content policy (that type for a chat completion,
-- api_error for messages), calls no provider and leaves the database as it was.
pub handle_blocked :
    (out : Outside) (s : Surface) (c : Caller) (random : ℕ → ℕ) (body : Members) (db : Db)
    → text_eq (guardrail_action c.guardrails input) (codes "off") ≡ false
    → any
        (blocks out.regexp c.guardrails (guardrail_action c.guardrails input))
        (strings_members body)
      ≡ true
    → handle out s c random body db
      ≡ only_error db
          (pos 400)
          (guardrail_reason input
            (apply_guardrail_to_map out.regexp c.guardrails input body).1.findings)
          (s.error_type (codes "content_policy_violation"))
unfolding handle
handle_blocked out s c random body db on found =
    let e = apply_guardrail_to_map_blocked out.regexp c.guardrails input body in
    let blocked : (apply_guardrail_to_map out.regexp c.guardrails input body).1.blocked ≡ true =
      e ∙ (rw (on, found) refl) in
    rw (handle, blocked) refl
