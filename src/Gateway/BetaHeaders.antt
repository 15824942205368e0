-- ===== src/Gateway/BetaHeaders.antt =====
-- beta_headers.go of internal/httpapi: which values of the header anthropic-beta are sent to a
-- provider. Letters outside ASCII are compared as they are.
pub mod Kept
use phlox_gw.Common.{
  ℕ, Bool, true, false, ◌&&◌, ◌||◌, Option, none, some, List, [], ◌∷◌, any, select, not, length,
  leb, ◌==◌, if◌then◌else◌,
}
use phlox_gw.Common.Text.{Text, codes, text_eq, is_empty}
use phlox_gw.Common.Text.Lower.{lower_byte}
use phlox_gw.Common.Text.Split.{fields_func, trim_items, split, join}
use phlox_gw.Store.Types.{Provider}
use phlox_gw.Store.Lists.{take}

abbrev pub azure_anthropic_beta_prefixes : List Text
azure_anthropic_beta_prefixes =
    codes "interleaved-thinking-"
    ∷ codes "fine-grained-tool-streaming-"
    ∷ codes "computer-use-"
    ∷ codes "context-management-"
    ∷ codes "compact-"
    ∷ codes "context-1m-"
    ∷ codes "files-api-"
    ∷ codes "skills-"
    ∷ codes "code-execution-"
    ∷ codes "mcp-client-"
    ∷ codes "token-efficient-tools-"
    ∷ codes "token-counting-"
    ∷ codes "output-128k-"
    ∷ codes "pdfs-"
    ∷ codes "prompt-caching-"
    ∷ codes "extended-cache-ttl-"
    ∷ []

unfoldable pub beta_separator : ℕ → Bool
beta_separator b = b == 10 || b == 13 || b == 44

unfoldable pub split_beta_prefixes : Text → List Text
unfolding beta_separator fields_func trim_items
split_beta_prefixes raw = trim_items (fields_func beta_separator raw)

unfoldable pub normalize_beta_prefixes : Text → Text
unfolding split_beta_prefixes join
normalize_beta_prefixes raw = join 10 (split_beta_prefixes raw)

-- A list, and the default where it is empty; none is no filter.
abbrev or_default : List Text → Provider → Option (List Text)
or_default (x ∷ xs) p = some (x ∷ xs)
or_default [] p =
    if text_eq p.type (codes "azure-anthropic") then some azure_anthropic_beta_prefixes else none

unfoldable pub beta_prefixes_for : Provider → Option (List Text)
unfolding split_beta_prefixes
beta_prefixes_for p = or_default (split_beta_prefixes p.beta_header_prefixes) p

-- strings.EqualFold
unfoldable pub equal_fold : Text → Text → Bool
equal_fold [] [] = true
equal_fold [] (_ ∷ _) = false
equal_fold (_ ∷ _) [] = false
equal_fold (a ∷ s) (b ∷ t) = lower_byte a == lower_byte b && equal_fold s t

abbrev pub matches_prefix : Text → Text → Bool
matches_prefix value prefix =
    text_eq prefix (codes "*")
    || (leb (length prefix) (length value) && equal_fold (take (length prefix) value) prefix)

unfoldable pub beta_value_allowed : Text → List Text → Bool
unfolding equal_fold take
beta_value_allowed value prefixes = any (matches_prefix value) prefixes

-- The loop over the values: those that are kept, and those that are dropped.
unfoldable pub sort_values : List Text → List Text → List Text × List Text
unfolding beta_value_allowed
sort_values prefixes [] = ([], [])
sort_values prefixes (v ∷ vs) =
    let (kept, dropped) = sort_values prefixes vs in
    if beta_value_allowed v prefixes then (v ∷ kept, dropped) else (kept, v ∷ dropped)

-- The values of a header.
unfoldable pub header_values : Text → List Text
unfolding split trim_items
header_values raw = trim_items (split 44 raw)

abbrev pub filtered : Text → Option (List Text) → Text × List Text
filtered raw none = (raw, [])
filtered raw (some prefixes) =
    let (kept, dropped) = sort_values prefixes (header_values raw) in (join 44 kept, dropped)

-- filterAnthropicBetaHeader, over the lines of the header.
unfoldable pub filter_anthropic_beta_header : Provider → List Text → Text × List Text
unfolding beta_prefixes_for join
filter_anthropic_beta_header p lines =
    let raw = join 44 lines in if is_empty raw then ([], []) else filtered raw (beta_prefixes_for p)
