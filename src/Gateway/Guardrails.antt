-- ===== src/Gateway/Guardrails.antt =====
-- guardrails.go of internal/httpapi: the rules that find private data in a text, and what is done to
-- the text.
pub mod Values
pub mod Bodies
pub mod Strings
pub mod Verdicts
use phlox_gw.Common.{
  ℕ, suc, ◌+◌, ◌-◌, ◌*◌, ◌%◌, ◌≤◌, Bool, true, false, not, ◌&&◌, ◌||◌, Option, none, some, List, [],
  ◌∷◌, ◌++◌, map, reverse, any, select, length, ltb, leb, ◌==◌, if◌then◌else◌,
}
use phlox_gw.Common.Text.{Text, codes, text_eq, is_empty}
use phlox_gw.Common.Text.Trim.{trim_space}
use phlox_gw.Store.Clock.{text_ltb}
use phlox_gw.Store.Types.{GuardrailPolicy, GuardrailCustomPattern}
use phlox_gw.Gateway.Rules.{Pattern, Regexp, PiiRule, pii_rules}

pub record CompiledPattern : Type 0 where
  pub name : Text
  pub action : Text
  pub redaction_text : Text
  pub finding : Text
  pub pattern : Pattern

unfoldable pub guardrail_custom_pattern_display : GuardrailCustomPattern → Text
unfolding trim_space
guardrail_custom_pattern_display p =
    if not (is_empty (trim_space p.name))
    then trim_space p.name
    else if not (is_empty (trim_space p.id))
    then trim_space p.id
    else codes "custom"

abbrev pub first_text : Text → Text → Text
first_text s t = if is_empty s then t else s

-- sort.Strings of a set of names.
unfoldable pub insert_name : Text → List Text → List Text
insert_name x [] = x ∷ []
insert_name x (y ∷ ys) =
    let rest = insert_name x ys in
    if text_eq x y then y ∷ ys else if text_ltb x y then x ∷ y ∷ ys else y ∷ rest

unfoldable pub sorted_finding_names : List Text → List Text
unfolding insert_name
sorted_finding_names [] = []
sorted_finding_names (x ∷ xs) = insert_name x (sorted_finding_names xs)

pub record TextResult : Type 0 where
  pub text : Text
  pub findings : List Text
  pub redacted : Bool
  pub blocked : Bool

abbrev pub untouched : Text → TextResult
untouched text = record { text = text; findings = []; redacted = false; blocked = false }

-- What is answered on a text: `redacted` is the text without what was found, `blocks` tells whether
-- what was found blocks it.
abbrev pub text_result : Text → Bool → Text → List Text → Bool → Text → TextResult
text_result action force text findings blocks redacted =
    if is_empty text || text_eq action (codes "off")
    then untouched text
    else if blocks && not force
    then record { text = text; findings = findings; redacted = false; blocked = true }
    else if not (text_eq action (codes "redact")) && not force
    then record { text = text; findings = findings; redacted = false; blocked = false }
    else record {
      text = redacted;
      findings = findings;
      redacted = not (text_eq redacted text);
      blocked = false;
    }

module _ (re : Regexp) (policy : GuardrailPolicy) where
  abbrev compiled_pattern : GuardrailCustomPattern → Pattern → CompiledPattern
  compiled_pattern p compiled =
      let name = guardrail_custom_pattern_display p in
      record {
        name = name;
        action = if text_eq p.action (codes "block") then p.action else codes "redact";
        redaction_text =
            first_text (trim_space p.redaction_text)
              (first_text (trim_space policy.redaction_text) (codes "[REDACTED]"));
        finding = codes "custom:" ++ name;
        pattern = compiled;
      }

  unfoldable pub compiled_patterns : List GuardrailCustomPattern → List CompiledPattern
  unfolding guardrail_custom_pattern_display
  compiled_patterns [] = []
  compiled_patterns (p ∷ ps) =
      let rest = compiled_patterns ps in
      if not p.enabled || is_empty (trim_space p.pattern)
      then rest
      else elim (re.compile p.pattern) [ none ↦ rest | some c ↦ compiled_pattern p c ∷ rest ]

  abbrev pub is_valid : PiiRule → Text → Bool
  is_valid rule found = elim rule.valid [ none ↦ true | some f ↦ f found ]

  unfoldable pub builtin_rule_matches : PiiRule → Text → Bool
  builtin_rule_matches rule text = elim (re.compile rule.pattern) [
    | none ↦ false
    | some p ↦ any (is_valid rule) (p.find_all_string text)
  ]

  abbrev pub builtin_redaction_text : PiiRule → Text
  builtin_redaction_text rule = if is_empty rule.token then policy.redaction_text else rule.token

  unfoldable pub redact_builtin : List PiiRule → Text → Text
  redact_builtin [] text = text
  redact_builtin (rule ∷ rules) text = elim (re.compile rule.pattern) [
    | none ↦ redact_builtin rules text
    | some p ↦ redact_builtin rules (
        p.replace_all_string_func text
          (λ found. if is_valid rule found then builtin_redaction_text rule else found))
  ]

  unfoldable pub redact_custom : Bool → List CompiledPattern → Text → Text
  redact_custom force [] text = text
  redact_custom force (r ∷ rs) text =
      let skip = redact_custom force rs text in
      let next =
        redact_custom force rs
          (r.pattern.replace_all_string text (first_text r.redaction_text policy.redaction_text)) in
      if not (text_eq r.action (codes "redact")) && not force then skip else next

  abbrev pub enabled_rules : List PiiRule
  enabled_rules = select (λ rule. rule.enabled policy) pii_rules

  abbrev pub matching_rules : Text → List PiiRule
  matching_rules text = select (λ rule. builtin_rule_matches rule text) enabled_rules

  abbrev pub matching_customs : Text → List CompiledPattern
  matching_customs text =
      select (λ r. r.pattern.match_string text) (compiled_patterns policy.custom_patterns)

  -- Whether the text has what blocks it.
  abbrev pub is_blocked : Text → Text → Bool
  is_blocked action text =
      any (λ rule. text_eq action (codes "block")) (matching_rules text)
      || any (λ r. text_eq action (codes "block") || text_eq r.action (codes "block"))
          (matching_customs text)

  unfoldable pub apply_guardrail_to_text : Text → Bool → Text → TextResult
  unfolding pii_rules compiled_patterns builtin_rule_matches redact_builtin redact_custom
      sorted_finding_names
  apply_guardrail_to_text action force text =
      text_result action force text
        (sorted_finding_names (
          map (λ (r : PiiRule). r.name) (matching_rules text)
          ++ map (λ (r : CompiledPattern). r.finding) (matching_customs text)))
        (is_blocked action text)
        (redact_custom force (compiled_patterns policy.custom_patterns)
          (redact_builtin enabled_rules text))
