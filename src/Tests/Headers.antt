-- ===== src/Tests/Headers.antt =====
-- The theorem on the header anthropic-beta at a concrete input, and a run.
use phlox_gw.Common.{◌≡◌, refl, true, false, not, some, List, [], ◌∷◌, select}
use phlox_gw.Common.Text.{Text, codes, text_eq, is_empty}
use phlox_gw.Common.Text.Split.{join}
use phlox_gw.Store.Types.{Provider}
use phlox_gw.Gateway.BetaHeaders.{
  azure_anthropic_beta_prefixes, beta_value_allowed, beta_prefixes_for, header_values,
  filter_anthropic_beta_header,
}
use phlox_gw.Gateway.BetaHeaders.Kept.{filter_anthropic_beta_header-header_values}
use phlox_gw.Tests.{provider}

abbrev azure : Provider
azure = record (provider (codes "p3")) { type = codes "azure-anthropic" }

abbrev lines : List Text
lines = codes "Interleaved-Thinking-2025, fast-mode-1" ∷ codes "skills-2" ∷ []

two_kept :
    filter_anthropic_beta_header azure lines
    ≡ (codes "Interleaved-Thinking-2025,skills-2", codes "fast-mode-1" ∷ [])
unfolding filter_anthropic_beta_header text_eq phlox_gw.Gateway.BetaHeaders.sort_values
    header_values phlox_gw.Common.Text.Trim.trim_space
two_kept = refl

full : is_empty (join 44 lines) ≡ false
unfolding join
full = refl

built_in : beta_prefixes_for azure ≡ some azure_anthropic_beta_prefixes
unfolding beta_prefixes_for text_eq
built_in = refl

filter_anthropic_beta_header-header_values_example :
    (header_values (filter_anthropic_beta_header azure lines).0
      ≡ select
          (λ v. beta_value_allowed v azure_anthropic_beta_prefixes)
          (header_values (join 44 lines)))
    × ((filter_anthropic_beta_header azure lines).1
        ≡ select
            (λ v. not (beta_value_allowed v azure_anthropic_beta_prefixes))
            (header_values (join 44 lines)))
filter_anthropic_beta_header-header_values_example =
    filter_anthropic_beta_header-header_values azure lines azure_anthropic_beta_prefixes full
      built_in
