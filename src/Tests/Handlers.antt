-- ===== src/Tests/Handlers.antt =====
-- The theorems on the handlers at a concrete input.
use phlox_gw.Common.{ℕ, ◌≡◌, refl, [], true, false, any}
use phlox_gw.Common.Int.{pos}
use phlox_gw.Common.Text.{codes, text_eq, has_prefix}
use phlox_gw.Store.Types.{RoutedModel}
use phlox_gw.Gateway.Json.{Members, member, string, end}
use phlox_gw.Gateway.Guardrails.Bodies.{
  input, guardrail_action, guardrail_reason, apply_guardrail_to_map,
}
use phlox_gw.Gateway.Guardrails.Strings.{strings_members}
use phlox_gw.Gateway.Guardrails.Verdicts.{blocks}
use phlox_gw.Gateway.Policy.Database.{database}
use phlox_gw.Gateway.Outside.{Outside}
use phlox_gw.Gateway.Handlers.{
  Surface, Caller, StreamEnd, only_error, handle, open_ai_surface, anthropic_surface,
}
use phlox_gw.Gateway.Handlers.Permitted.{IsSafe, handle-IsSafe}
use phlox_gw.Gateway.Handlers.Blocked.{handle_blocked}
use phlox_gw.Tests.{guardrails, ann, key, db}
use phlox_gw.Tests.Execution.{outside, request}
use phlox_gw.Tests.Guardrails.{words_only, body}

abbrev gateway : Outside
gateway = record outside { regexp = words_only; reads = database }

abbrev caller : Caller
caller = record {
  user = ann;
  key = key;
  request_id = codes "q";
  meta = request.meta;
  guardrails = guardrails;
}

abbrev cut_off : ℕ → RoutedModel → Members → StreamEnd
cut_off t r raw = record {
  status = pos 200;
  error_text = [];
  usage = record { input = pos 1; output = pos 1; total = pos 2 };
  latency_ms = pos 5;
}

abbrev surface : Surface
surface = open_ai_surface gateway cut_off

abbrev last_number : ℕ → ℕ
last_number n = 3

abbrev hello : Members
hello = member (codes "model") (string (codes "chat/default")) end

handle-IsSafe_example :
    IsSafe gateway surface caller last_number
      (apply_guardrail_to_map words_only guardrails input hello).0
      db
      (handle gateway surface caller last_number hello db)
handle-IsSafe_example = handle-IsSafe gateway surface caller last_number db hello

on : text_eq (guardrail_action guardrails input) (codes "off") ≡ false
unfolding guardrail_action text_eq
on = refl

found :
    any
      (blocks words_only guardrails (guardrail_action guardrails input))
      (strings_members (body (codes "on apollo")))
    ≡ true
unfolding guardrail_action text_eq has_prefix strings_members
    phlox_gw.Gateway.Guardrails.Values.guardrail_skip_string_key phlox_gw.Gateway.Rules.pii_rules
    phlox_gw.Gateway.Guardrails.builtin_rule_matches phlox_gw.Gateway.Guardrails.compiled_patterns
found = refl

handle_blocked_example :
    handle gateway surface caller last_number (body (codes "on apollo")) db
    ≡ only_error db
        (pos 400)
        (guardrail_reason input
          (apply_guardrail_to_map words_only guardrails input
            (body (codes "on apollo"))).1.findings)
        (surface.error_type (codes "content_policy_violation"))
handle_blocked_example =
    handle_blocked gateway surface caller last_number (body (codes "on apollo")) db on found

-- The messages surface answers the same body with an error of its one type.
messages_refused :
    handle gateway
      (anthropic_surface gateway cut_off)
      caller
      last_number
      (body (codes "on apollo"))
      db
    ≡ only_error db
        (pos 400)
        (guardrail_reason input
          (apply_guardrail_to_map words_only guardrails input
            (body (codes "on apollo"))).1.findings)
        (codes "api_error")
unfolding anthropic_surface
messages_refused =
    handle_blocked gateway (anthropic_surface gateway cut_off) caller last_number
      (body (codes "on apollo")) db on found
