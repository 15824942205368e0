-- ===== src/Gateway/Usage.antt =====
-- usage.go of internal/httpapi, with the answer of a provider (types.go) and the usage that
-- openai.go completes by estimates: what is written after each call.
use phlox_gw.Common.{ℕ, Bool, ◌&&◌, ◌||◌, Option, none, some, List, leb, length, if◌then◌else◌}
use phlox_gw.Common.Int.{ℤ, pos, ◌+ℤ◌, ltb_ℤ, leb_ℤ, eq_ℤ}
use phlox_gw.Common.Text.{Text, codes, text_eq}
use phlox_gw.Store.Types.{
  Time, RoutedModel, Provider, User, ApiKey, UsageRecord, RequestLogRecord, Db,
}
use phlox_gw.Store.Lists.{take}
use phlox_gw.Store.Usage.{cost, insert_usage, insert_request_log}

-- upstreamResult; the zero value has no route, and a nil body or header is none.
pub record UpstreamResult : Type 0 where
  pub route : Option RoutedModel
  pub protocol : Text
  pub status : ℤ
  pub headers : Option (List (Text × Text))
  pub body : Option Text
  pub error_text : Text
  pub latency_ms : ℤ

-- requestEventMeta
pub record EventMeta : Type 0 where
  pub method : Text
  pub endpoint : Text
  pub streaming : Bool
  pub client_ip : Text
  pub user_agent : Text

pub record TokenUsage : Type 0 where
  pub input : ℤ
  pub output : ℤ
  pub total : ℤ

unfoldable pub limit_string : Text → ℕ → Text
unfolding take
limit_string s max = if leb (length s) max then s else take max s

unfoldable pub provider_protocol : Provider → Text
provider_protocol p =
    if text_eq p.type (codes "azure-openai") || text_eq p.type (codes "google")
    then codes "openai"
    else if text_eq p.type (codes "azure-anthropic")
    then codes "anthropic"
    else p.type

abbrev or_estimate : ℤ → ℤ → ℤ
or_estimate v estimated = if eq_ℤ v (pos 0) && ltb_ℤ (pos 0) estimated then estimated else v

unfoldable pub merge_estimated_usage : TokenUsage → ℤ → ℤ → TokenUsage
unfolding ◌+ℤ◌
merge_estimated_usage usage estimated_input estimated_output =
    let input = or_estimate usage.input estimated_input in
    let output = or_estimate usage.output estimated_output in
    record {
      input = input;
      output = output;
      total =
          if eq_ℤ usage.total (pos 0) || ltb_ℤ usage.total (input +ℤ output)
          then input +ℤ output
          else usage.total;
    }

-- openAIUsageWithFallback, on the usage in the body and the estimates of its two texts.
unfoldable pub open_ai_usage_with_fallback : TokenUsage → ℤ → ℤ → ℤ → TokenUsage
unfolding merge_estimated_usage
open_ai_usage_with_fallback usage status estimated_input estimated_output =
    if leb_ℤ (pos 400) status
    then usage
    else if ltb_ℤ (pos 0) usage.input && ltb_ℤ (pos 0) usage.output && ltb_ℤ (pos 0) usage.total
    then usage
    else merge_estimated_usage usage estimated_input estimated_output

-- The total of a usage whose parts alone are known.
abbrev pub with_total : TokenUsage → TokenUsage
with_total u =
    if eq_ℤ u.total (pos 0) && (ltb_ℤ (pos 0) u.input || ltb_ℤ (pos 0) u.output)
    then record u { total = u.input +ℤ u.output }
    else u

-- What recordUsage is called with.
pub record Call : Type 0 where
  pub request_id : Text
  pub user : User
  pub key : ApiKey
  pub route : RoutedModel
  pub protocol : Text
  pub usage : TokenUsage
  pub latency_ms : ℤ
  pub status : ℤ
  pub error_text : Text
  pub meta : EventMeta

unfoldable pub usage_row : Text → Time → Call → UsageRecord
unfolding cost limit_string
usage_row id now c =
    let u = with_total c.usage in
    record {
      id = id;
      request_id = c.request_id;
      user_id = c.user.id;
      username = c.user.username;
      department = c.user.department;
      api_key_id = c.key.id;
      provider_id = c.route.provider.id;
      model = c.route.model.route;
      protocol = c.protocol;
      input_tokens = u.input;
      output_tokens = u.output;
      total_tokens = u.total;
      cost_usd = cost u.input u.output c.route.model;
      latency_ms = c.latency_ms;
      status_code = c.status;
      error_text = limit_string c.error_text 1000;
      created_at = now;
    }

unfoldable pub log_row : Text → Time → Call → RequestLogRecord
unfolding cost limit_string
log_row id now c =
    let u = with_total c.usage in
    record {
      id = id;
      request_id = c.request_id;
      user_id = c.user.id;
      username = c.user.username;
      department = c.user.department;
      api_key_id = c.key.id;
      api_key_prefix = c.key.prefix;
      api_key_name = c.key.name;
      provider_id = c.route.provider.id;
      provider_type = c.route.provider.type;
      model_route = c.route.model.route;
      upstream_model_id = c.route.model.model_id;
      protocol = c.protocol;
      method = c.meta.method;
      endpoint = c.meta.endpoint;
      streaming = c.meta.streaming;
      input_tokens = u.input;
      output_tokens = u.output;
      total_tokens = u.total;
      cost_usd = cost u.input u.output c.route.model;
      latency_ms = c.latency_ms;
      status_code = c.status;
      error_text = limit_string c.error_text 1000;
      client_ip = limit_string c.meta.client_ip 200;
      user_agent = limit_string c.meta.user_agent 500;
      created_at = now;
    }

-- recordUsage; an id is none if no random bytes are had for it.
unfoldable pub record_usage : Option Text → Option Text → Time → Call → Db → Db
unfolding usage_row log_row insert_usage insert_request_log
record_usage usage_id log_id now c db = elim usage_id [
  | none ↦ db
  | some id ↦
      let db' = insert_usage (usage_row id now c) db in
      elim log_id [ none ↦ db' | some id' ↦ insert_request_log (log_row id' now c) db' ]
]
