-- ===== src/Tests/Guardrails.antt =====
-- The theorems on the guardrails at concrete inputs, with an engine of literal words for the package
-- regexp, and runs.
use phlox_gw.Common.{
  ℕ, zero, suc, ◌-◌, ◌≡◌, refl, true, false, not, ◌&&◌, none, some, List, [], ◌∷◌, ◌++◌, any,
  length, arith, if◌then◌else◌,
}
use phlox_gw.Common.Text.{Text, codes, text_eq, has_prefix}
use phlox_gw.Gateway.Json.{string, array, object, nil, cons, Members, end, member}
use phlox_gw.Gateway.Rules.{Pattern, Regexp, ssn_pattern, luhn_valid}
use phlox_gw.Gateway.Guardrails.Bodies.{input, guardrail_action, apply_guardrail_to_map}
use phlox_gw.Gateway.Guardrails.Strings.{strings_members, map_members, applied}
use phlox_gw.Gateway.Guardrails.Verdicts.{
  blocks, apply_guardrail_to_map_blocked, apply_guardrail_to_map_value,
}
use phlox_gw.Gateway.Rules.Luhn.{luhn_valid-digit}
use phlox_gw.Tests.{guardrails}

-- The occurrences of a word, of which `skip` bytes are still to be passed over.
abbrev replace_word : Text → Text → ℕ → Text → Text
replace_word w r skip [] = []
replace_word w r (suc skip) (b ∷ s) = replace_word w r skip s
replace_word w r zero (b ∷ s) =
    let after = replace_word w r (length w - 1) s in
    let next = replace_word w r 0 s in if has_prefix (b ∷ s) w then r ++ after else b ∷ next

abbrev find_word : Text → Text → List Text
find_word w [] = []
find_word w (b ∷ s) = let rest = find_word w s in if has_prefix (b ∷ s) w then w ∷ rest else rest

abbrev word : Text → Pattern
word w = record {
  find_all_string = find_word w;
  match_string = λ s. not (text_eq s (replace_word w [] 0 s));
  replace_all_string_func = λ s f. replace_word w (f w) 0 s;
  replace_all_string = λ s r. replace_word w r 0 s;
}

abbrev pub words_only : Regexp
words_only = record {
  compile = λ source.
      if text_eq source ssn_pattern
      then some (word (codes "078-05-1120"))
      else if text_eq source (codes "apollo")
      then some (word source)
      else none;
}

abbrev pub body : Text → Members
body content = member (codes "model") (string (codes "apollo")) (
    member (codes "messages")
      (array (
        cons
          (object (
            member (codes "role") (string (codes "user"))
              (member (codes "content") (string content) end)))
          nil))
      end)

runs : Unit {0}
unfolding apply_guardrail_to_map phlox_gw.Gateway.Guardrails.apply_guardrail_to_text text_eq
    has_prefix
runs = tt

cleared :
    (apply_guardrail_to_map words_only guardrails input (body (codes "my ssn is 078-05-1120."))).0
    ≡ body (codes "my ssn is [SSN].")
unfolding runs
cleared = refl

refused :
    (apply_guardrail_to_map words_only guardrails input (body (codes "on apollo"))).1.blocked ≡ true
unfolding runs
refused = refl

apply_guardrail_to_map_blocked_example :
    (apply_guardrail_to_map words_only guardrails input (body (codes "on apollo"))).1.blocked ≡ (
      not (text_eq (guardrail_action guardrails input) (codes "off"))
      && any
          (blocks words_only guardrails (guardrail_action guardrails input))
          (strings_members (body (codes "on apollo"))))
apply_guardrail_to_map_blocked_example =
    apply_guardrail_to_map_blocked words_only guardrails input (body (codes "on apollo"))

apply_guardrail_to_map_value_example :
    (apply_guardrail_to_map words_only guardrails input (body (codes "ssn 078-05-1120"))).0 ≡ (
      if text_eq (guardrail_action guardrails input) (codes "redact")
        && not
            (apply_guardrail_to_map words_only guardrails input
              (body (codes "ssn 078-05-1120"))).1.blocked
      then map_members
          (λ s. (applied words_only guardrails (codes "redact") false s).text)
          (body (codes "ssn 078-05-1120"))
      else body (codes "ssn 078-05-1120"))
apply_guardrail_to_map_value_example =
    apply_guardrail_to_map_value words_only guardrails input (body (codes "ssn 078-05-1120"))

card : luhn_valid (codes "4111111" ++ 49 ∷ codes "11111111") ≡ true
unfolding luhn_valid
card = refl

luhn_valid-digit_example : luhn_valid (codes "4111111" ++ 50 ∷ codes "11111111") ≡ false
luhn_valid-digit_example =
    luhn_valid-digit (codes "4111111") (codes "11111111") 49 50 (omega arith, omega arith)
      (omega arith, omega arith) (λ e. omega (arith, e)) card
