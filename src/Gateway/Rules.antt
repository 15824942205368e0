-- ===== src/Gateway/Rules.antt =====
-- The built-in rules of guardrails.go (internal/httpapi) that find private data in a text. The package
-- regexp is given from outside.
pub mod Luhn
use phlox_gw.Common.{
  ℕ, suc, ◌+◌, ◌-◌, ◌*◌, ◌%◌, ◌≤◌, Bool, true, false, not, ◌&&◌, ◌||◌, Option, none, some, List, [],
  ◌∷◌, ◌++◌, map, reverse, any, select, length, ltb, leb, ◌==◌, if◌then◌else◌,
}
use phlox_gw.Common.Text.{Text, codes, text_eq, is_empty}
use phlox_gw.Common.Text.Trim.{trim_space}
use phlox_gw.Store.Clock.{text_ltb}
use phlox_gw.Store.Types.{GuardrailPolicy, GuardrailCustomPattern}

-- A compiled regexp: FindAllString(text, -1), MatchString, ReplaceAllStringFunc and ReplaceAllString.
pub record Pattern : Type 0 where
  pub find_all_string : Text → List Text
  pub match_string : Text → Bool
  pub replace_all_string_func : Text → (Text → Text) → Text
  pub replace_all_string : Text → Text → Text

-- regexp.Compile; none is its error.
pub record Regexp : Type 0 where
  pub compile : Text → Option Pattern

unfoldable pub digits_only : Text → Text
digits_only [] = []
digits_only (b ∷ s) = let rest = digits_only s in if leb 48 b && leb b 57 then b ∷ rest else rest

-- The value of a digit in the sum.
abbrev pub luhn_value : Bool → ℕ → ℕ
luhn_value double b =
    let n = b - 48 in if double then (if ltb 9 (n * 2) then n * 2 - 9 else n * 2) else n

-- The loop from the last digit to the first.
unfoldable pub luhn_sum : Bool → Text → ℕ
luhn_sum double [] = 0
luhn_sum double (b ∷ s) = luhn_value double b + luhn_sum (not double) s

unfoldable pub luhn_valid : Text → Bool
unfolding luhn_sum
luhn_valid digits = let sum = luhn_sum false (reverse digits) in ltb 0 sum && sum % 10 == 0

unfoldable pub card_valid : Text → Bool
unfolding digits_only luhn_valid
card_valid found =
    let digits = digits_only found in
    leb 13 (length digits) && leb (length digits) 19 && luhn_valid digits

pub record PiiRule : Type 0 where
  pub name : Text
  pub token : Text
  pub enabled : GuardrailPolicy → Bool
  pub pattern : Text
  pub valid : Option (Text → Bool)

abbrev pub email_pattern : Text
email_pattern = codes "(?i)\\b[A-Z0-9._%+\\-]+@[A-Z0-9.\\-]+\\.[A-Z]{2,}\\b"

abbrev pub phone_pattern : Text
phone_pattern =
    codes
      "\\b(?:\\+?1[\\s.\\-]?)?(?:\\([2-9][0-9]{2}\\)|[2-9][0-9]{2})[\\s.\\-]?[0-9]{3}[\\s.\\-]?[0-9]{4}\\b"

abbrev pub ssn_pattern : Text
ssn_pattern = codes "\\b[0-9]{3}-[0-9]{2}-[0-9]{4}\\b"

abbrev pub credit_card_pattern : Text
credit_card_pattern = codes "\\b(?:[0-9][ -]*?){13,19}\\b"

abbrev pub api_key_pattern : Text
api_key_pattern =
    codes
      "(?i)\\b(?:pgw-sk-[A-Za-z0-9_\\-]{16,}|sk-[A-Za-z0-9_\\-]{16,}|xox[baprs]-[A-Za-z0-9\\-]{10,}|gh[pousr]_[A-Za-z0-9_]{20,}|glpat-[A-Za-z0-9_\\-]{20,}|AKIA[0-9A-Z]{16})\\b"

unfoldable pub pii_rules : List PiiRule
unfolding card_valid
pii_rules =
    record {
      name = codes "email";
      token = codes "[EMAIL]";
      enabled = λ p. p.detect_email;
      pattern = email_pattern;
      valid = none;
    }
    ∷ record {
      name = codes "phone";
      token = codes "[PHONE]";
      enabled = λ p. p.detect_phone;
      pattern = phone_pattern;
      valid = none;
    }
    ∷ record {
      name = codes "ssn";
      token = codes "[SSN]";
      enabled = λ p. p.detect_ssn;
      pattern = ssn_pattern;
      valid = none;
    }
    ∷ record {
      name = codes "credit_card";
      token = codes "[CREDIT_CARD]";
      enabled = λ p. p.detect_credit_card;
      pattern = credit_card_pattern;
      valid = some card_valid;
    }
    ∷ record {
      name = codes "api_key";
      token = codes "[API_KEY]";
      enabled = λ p. p.detect_api_key;
      pattern = api_key_pattern;
      valid = none;
    }
    ∷ []
