-- ===== src/Gateway/Guardrails/Values.antt =====
-- guardrails.go of internal/httpapi: the strings of a JSON value are inspected, but for those under
-- keys that carry no content, and the value is cleared or blocked.
use phlox_gw.Common.{Bool, false, ◌||◌, List, [], ◌∷◌, ◌++◌, any, if◌then◌else◌}
use phlox_gw.Common.Text.{Text, codes, text_eq}
use phlox_gw.Common.Text.Lower.{to_lower}
use phlox_gw.Store.Types.{GuardrailPolicy}
use phlox_gw.Gateway.Json.{
  Json, null, boolean, number, string, array, object, Items, nil, cons, Members, end, member,
}
use phlox_gw.Gateway.Guardrails.{apply_guardrail_to_text}
use phlox_gw.Gateway.Rules.{Regexp}

abbrev pub skipped_keys : List Text
skipped_keys =
    codes "id"
    ∷ codes "object"
    ∷ codes "model"
    ∷ codes "role"
    ∷ codes "type"
    ∷ codes "finish_reason"
    ∷ codes "stop_reason"
    ∷ codes "stop_sequence"
    ∷ codes "provider"
    ∷ codes "protocol"
    ∷ []

unfoldable pub guardrail_skip_string_key : Text → Bool
unfolding to_lower
guardrail_skip_string_key key = any (text_eq (to_lower key)) skipped_keys

-- What redactJSONValueInto returns, with the findings that it adds.
pub record Inspected (A : Type 0) : Type 0 where
  pub value : A
  pub findings : List Text
  pub mutated : Bool
  pub blocked : Bool

abbrev pub as_it_is : {A : Type 0} → A → Inspected A
as_it_is v = record { value = v; findings = []; mutated = false; blocked = false }

-- The child that a container holds afterwards.
abbrev pub kept : Json → Inspected Json → Json
kept child r = if r.mutated then r.value else child

module _ (re : Regexp) (policy : GuardrailPolicy) (action : Text) (force : Bool) where
  unfoldable mutual
    unfolding guardrail_skip_string_key

    pub redact_value : Text → Json → Inspected Json
    redact_value key null = as_it_is null
    redact_value key (boolean b) = as_it_is (boolean b)
    redact_value key (number n) = as_it_is (number n)
    redact_value key (string s) =
        let r = apply_guardrail_to_text re policy action force s in
        if guardrail_skip_string_key key then as_it_is (string s) else record {
          value = string r.text;
          findings = r.findings;
          mutated = r.redacted;
          blocked = r.blocked;
        }
    redact_value key (array xs) =
        let r = redact_items key xs in
        record {
          value = array r.value;
          findings = r.findings;
          mutated = r.mutated;
          blocked = r.blocked;
        }
    redact_value key (object ms) =
        let r = redact_members ms in
        record {
          value = object r.value;
          findings = r.findings;
          mutated = r.mutated;
          blocked = r.blocked;
        }

    pub redact_items : Text → Items → Inspected Items
    redact_items key nil = as_it_is nil
    redact_items key (cons x xs) =
        let r = redact_value key x in
        let rs = redact_items key xs in
        record {
          value = cons (kept x r) rs.value;
          findings = r.findings ++ rs.findings;
          mutated = r.mutated || rs.mutated;
          blocked = r.blocked || rs.blocked;
        }

    pub redact_members : Members → Inspected Members
    redact_members end = as_it_is end
    redact_members (member k x ms) =
        let r = redact_value k x in
        let rs = redact_members ms in
        record {
          value = member k (kept x r) rs.value;
          findings = r.findings ++ rs.findings;
          mutated = r.mutated || rs.mutated;
          blocked = r.blocked || rs.blocked;
        }
