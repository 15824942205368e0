-- ===== src/Gateway/Outside.antt =====
-- What the execution of a plan has from outside (executeOpenAIPlan and executeAnthropicPlan of
-- internal/httpapi/routing.go), and in what the two plans differ.
use phlox_gw.Common.{ℕ, Bool, Option, if◌then◌else◌}
use phlox_gw.Common.Int.{ℤ}
use phlox_gw.Common.Text.{Text, codes, text_eq}
use phlox_gw.Store.Types.{GuardrailPolicy, Time, RoutedModel, User, ApiKey, Db}
use phlox_gw.Gateway.Policy.{PolicyStore}
use phlox_gw.Gateway.Routing.{ReliabilityPolicy}
use phlox_gw.Gateway.Json.{Codec, Members}
use phlox_gw.Gateway.Rules.{Regexp}
use phlox_gw.Gateway.Guardrails.Bodies.{apply_output_guardrails_to_result}
use phlox_gw.Gateway.Usage.{
  UpstreamResult, EventMeta, TokenUsage, provider_protocol, open_ai_usage_with_fallback,
}

-- What is outside the process: the clock, the random ids, the answers of the providers and the reads
-- of the database. Each is given by the number of the moment at which it is asked for.
pub record Outside : Type 0 where
  pub clock : ℕ → Time
  pub usage_id : ℕ → Option Text
  pub log_id : ℕ → Option Text
  pub reads : Db → Time → PolicyStore
  -- callOpenAIViaAnthropicNonStreaming, callOpenAINonStreamingWithParamRetry
  pub open_ai_via_anthropic : ℕ → RoutedModel → Members → UpstreamResult
  pub open_ai : ℕ → RoutedModel → Members → UpstreamResult
  -- callAnthropicNonStreaming, callAnthropicViaOpenAINonStreaming
  pub anthropic : ℕ → RoutedModel → Members → UpstreamResult
  pub anthropic_via_open_ai : ℕ → RoutedModel → Members → UpstreamResult
  -- parseOpenAIUsage, parseAnthropicUsage, and the two estimates of openAIUsageWithFallback
  pub parse_open_ai_usage : Option Text → TokenUsage
  pub parse_anthropic_usage : Option Text → TokenUsage
  pub estimated_input : Members → ℤ
  pub estimated_response : Option Text → ℤ
  -- The packages regexp and encoding/json
  pub regexp : Regexp
  pub codec : Codec

-- Who calls, and how.
pub record Request : Type 0 where
  pub user : User
  pub key : ApiKey
  pub request_id : Text
  pub policy : ReliabilityPolicy
  pub meta : EventMeta
  pub guardrails : GuardrailPolicy

-- An answer after the output guardrails.
abbrev pub guarded : Outside → Request → UpstreamResult → UpstreamResult
guarded out req r = apply_output_guardrails_to_result out.regexp out.codec req.guardrails r

-- In what the two plans differ.
pub record Dialect : Type 0 where
  pub call : ℕ → RoutedModel → UpstreamResult
  pub usage : UpstreamResult → TokenUsage
  pub recorded_protocol : UpstreamResult → Text
  pub error_protocol : RoutedModel → Text
  pub nobody : Text

abbrev pub is_anthropic : RoutedModel → Bool
is_anthropic r = text_eq (provider_protocol r.provider) (codes "anthropic")

unfoldable pub open_ai_dialect : Outside → Members → Dialect
unfolding provider_protocol open_ai_usage_with_fallback
open_ai_dialect out raw = record {
  call = λ n r. if is_anthropic r then out.open_ai_via_anthropic n r raw else out.open_ai n r raw;
  usage = λ x.
      let usage = out.parse_open_ai_usage x.body in
      if text_eq x.protocol (codes "openai")
      then open_ai_usage_with_fallback usage x.status (out.estimated_input raw)
          (out.estimated_response x.body)
      else usage;
  recorded_protocol = λ x. x.protocol;
  error_protocol = λ r. provider_protocol r.provider;
  nobody = codes "no available provider candidate for OpenAI-compatible request";
}

unfoldable pub anthropic_dialect : Outside → Members → Dialect
unfolding provider_protocol
anthropic_dialect out raw = record {
  call = λ n r. if is_anthropic r then out.anthropic n r raw else out.anthropic_via_open_ai n r raw;
  usage = λ x. out.parse_anthropic_usage x.body;
  recorded_protocol = λ x. codes "anthropic";
  error_protocol = λ r. codes "anthropic";
  nobody = codes "no available provider candidate for Anthropic-compatible request";
}
