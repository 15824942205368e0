-- ===== src/Gateway/Guardrails/Bodies.antt =====
-- guardrails.go of internal/httpapi: what is done to the bodies of requests, results and streams.
use phlox_gw.Common.{
  Bool, true, false, not, ◌&&◌, ◌||◌, Option, none, some, List, [], ◌∷◌, ◌++◌, if◌then◌else◌,
}
use phlox_gw.Common.Int.{pos, leb_ℤ}
use phlox_gw.Common.Text.{Text, codes, text_eq, is_empty}
use phlox_gw.Store.Types.{GuardrailPolicy}
use phlox_gw.Gateway.Json.{Json, string, object, Members, end, member, Codec}
use phlox_gw.Gateway.Usage.{UpstreamResult}
use phlox_gw.Gateway.Guardrails.{sorted_finding_names}
use phlox_gw.Gateway.Rules.{Regexp}
use phlox_gw.Gateway.Guardrails.Values.{Inspected, redact_value, redact_members}

-- The phases of a request.
pub data Phase : Type 0 where
  input output : Phase

unfoldable pub guardrail_action : GuardrailPolicy → Phase → Text
guardrail_action policy input = if policy.enabled then policy.input_action else codes "off"
guardrail_action policy output = if policy.enabled then policy.output_action else codes "off"

pub record Evaluation : Type 0 where
  pub action : Text
  pub findings : List Text
  pub redacted : Bool
  pub blocked : Bool

abbrev pub not_inspected : Text → Evaluation
not_inspected action = record { action = action; findings = []; redacted = false; blocked = false }

abbrev pub evaluated : {A : Type 0} → Text → Inspected A → Evaluation
evaluated action r = record {
  action = action;
  findings = sorted_finding_names r.findings;
  redacted = not r.blocked && (text_eq action (codes "redact") && r.mutated);
  blocked = r.blocked;
}

-- The body that is passed on, for what its inspection gives.
abbrev pub map_result : Text → Members → Inspected Members → Members × Evaluation
map_result action raw r =
    if text_eq action (codes "off")
    then (raw, not_inspected action)
    else if r.blocked
    then (raw, evaluated action r)
    else if text_eq action (codes "redact") && r.mutated
    then (r.value, evaluated action r)
    else (raw, evaluated action r)

-- applyGuardrailToMap: the body of a request, which is a map.
unfoldable pub apply_guardrail_to_map :
    Regexp → GuardrailPolicy → Phase → Members → Members × Evaluation
unfolding guardrail_action redact_value sorted_finding_names
apply_guardrail_to_map re policy phase raw =
    let action = guardrail_action policy phase in
    map_result action raw (redact_members re policy action false raw)

-- applyGuardrailToBody; none is an error of json.Marshal.
unfoldable pub apply_guardrail_to_body :
    Regexp → Codec → GuardrailPolicy → Phase → Text → Option (Text × Evaluation)
unfolding guardrail_action redact_value sorted_finding_names
apply_guardrail_to_body re codec policy phase body =
    let action = guardrail_action policy phase in
    if text_eq action (codes "off") || is_empty body
    then some (body, not_inspected action)
    else elim (codec.unmarshal body) [
      | none ↦ some (body, not_inspected action)
      | some raw ↦
          let r = redact_value re policy action false [] raw in
          if r.blocked
          then some (body, evaluated action r)
          else if text_eq action (codes "redact") && r.mutated
          then elim (codec.marshal r.value) [
            | none ↦ none
            | some next ↦ some (next, evaluated action r)
          ]
          else some (body, evaluated action r)
    ]

abbrev pub joined : List Text → Text
joined [] = []
joined (x ∷ []) = x
joined (x ∷ y ∷ ys) = x ++ (codes ", " ++ joined (y ∷ ys))

abbrev pub phase_name : Phase → Text
phase_name input = codes "input"
phase_name output = codes "output"

unfoldable pub guardrail_reason : Phase → List Text → Text
guardrail_reason phase [] = codes "guardrail policy blocked request"
guardrail_reason phase (x ∷ xs) =
    codes "guardrail policy blocked "
    ++ (phase_name phase ++ (codes " content: " ++ joined (x ∷ xs)))

abbrev pub marshalled : Codec → Json → Text
marshalled codec v = elim (codec.marshal v) [ none ↦ [] | some s ↦ s ]

unfoldable pub guardrail_error_body : Codec → Text → Text → Text
guardrail_error_body codec protocol message =
    if text_eq protocol (codes "anthropic")
    then marshalled codec (
        object (
          member (codes "type") (string (codes "error")) (
            member (codes "error")
              (object (
                member (codes "type") (string (codes "content_policy_violation"))
                  (member (codes "message") (string message) end)))
              end)))
    else marshalled codec (
        object (
          member (codes "error")
            (object (
              member (codes "message") (string message) (
                member (codes "type") (string (codes "content_policy_violation"))
                  (member (codes "code") (string (codes "guardrail_blocked")) end))))
            end))

abbrev pub content_type : Text × Text
content_type = (codes "Content-Type", codes "application/json")

abbrev pub header_value : Text → List (Text × Text) → Text
header_value k [] = []
header_value k ((k', v) ∷ hs) = let rest = header_value k hs in if text_eq k k' then v else rest

abbrev pub without_header : Text → List (Text × Text) → List (Text × Text)
without_header k [] = []
without_header k ((k', v) ∷ hs) =
    let rest = without_header k hs in if text_eq k k' then rest else (k', v) ∷ rest

-- Headers with a content type.
abbrev pub with_content_type : Option (List (Text × Text)) → Option (List (Text × Text))
with_content_type none = some (content_type ∷ [])
with_content_type (some hs) =
    if is_empty (header_value content_type.0 hs)
    then some (content_type ∷ without_header content_type.0 hs)
    else some hs

abbrev pub guarded_by : Codec → UpstreamResult → Option (Text × Evaluation) → UpstreamResult
guarded_by codec r none = r
guarded_by codec r (some (body, e)) =
    let message = guardrail_reason output e.findings in
    if text_eq e.action (codes "off")
    then r
    else if e.blocked
    then record r {
      status = pos 422;
      headers = some (content_type ∷ []);
      body = some (guardrail_error_body codec r.protocol message);
      error_text = message;
    }
    else if e.redacted
    then record r { body = some body; headers = with_content_type r.headers }
    else r

unfoldable pub apply_output_guardrails_to_result :
    Regexp → Codec → GuardrailPolicy → UpstreamResult → UpstreamResult
unfolding apply_guardrail_to_body guardrail_reason guardrail_error_body
apply_output_guardrails_to_result re codec policy r = elim r.body [
  | none ↦ r
  | some body ↦
      if leb_ℤ (pos 400) r.status
      then r
      else guarded_by codec r (apply_guardrail_to_body re codec policy output body)
]

unfoldable pub guardrail_rejects_streaming_output : GuardrailPolicy → Bool
guardrail_rejects_streaming_output policy =
    policy.enabled
    && (text_eq policy.output_action (codes "block")
        && text_eq policy.streaming_block_mode (codes "reject"))

-- applyGuardrailToStreamPayload
unfoldable pub apply_guardrail_to_stream_payload : Regexp → GuardrailPolicy → Members → Members
unfolding guardrail_action redact_value
apply_guardrail_to_stream_payload re policy payload =
    let r = redact_members re policy (codes "redact") true payload in
    if not (text_eq (guardrail_action policy output) (codes "redact"))
    then payload
    else if r.mutated
    then r.value
    else payload
