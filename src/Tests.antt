-- ===== src/Tests.antt =====
-- A small gateway on which the definitions run.
mod Store
mod Gateway
pub mod Execution
pub mod Guardrails
mod Handlers
mod Headers
pub mod Auth
pub mod Bridge
mod Reverse
mod Sessions
mod Accounts
mod Catalog
mod Oidc
use phlox_gw.Common.{ℕ, Bool, true, false, none, some, List, [], ◌∷◌}
use phlox_gw.Common.Int.{ℤ, pos}
use phlox_gw.Common.Text.{Text, codes}
use phlox_gw.Store.Types.{
  Time, Model, Provider, RoutedModel, User, ApiKey, Budget, RateLimit, UsageRecord, Db,
  GuardrailPolicy, GuardrailCustomPattern,
}

abbrev pub at : ℕ → ℕ → Time
at s n = record { sec = s; nano = n }

-- 1 February 2026, 12:00:00 UTC
abbrev pub noon : Time
noon = at 1_769_947_200 0

abbrev pub provider : Text → Provider
provider id = record {
  id = id;
  name = id;
  type = codes "openai";
  base_url = [];
  api_key = [];
  api_key_env = [];
  azure_api_version = [];
  beta_header_prefixes = [];
  aws_region = [];
  aws_auth_method = [];
  aws_access_key_id = [];
  aws_secret_access_key = [];
  aws_session_token = [];
  bedrock_api_key = [];
  enabled = true;
  health_status = codes "healthy";
  consecutive_failures = pos 0;
  last_health_check_at = none;
  last_error = [];
  circuit_open_until = none;
  created_at = noon;
  updated_at = noon;
}

abbrev pub model : Text → Text → Text → Text → Model
model id provider_id model_id route = record {
  id = id;
  provider_id = provider_id;
  model_id = model_id;
  route = route;
  display_name = [];
  input_cost_per_million = pos 2_000_000;
  output_cost_per_million = pos 8_000_000;
  context_window = pos 0;
  supports_streaming = true;
  enabled = true;
  fallback_routes = [];
  weighted_routes = [];
  retry_attempts = pos 2;
  request_timeout_ms = pos 2500;
  health_routing_enabled = true;
  created_at = noon;
  updated_at = noon;
}

abbrev pub chat : Model
chat = record (model (codes "m1") (codes "p1") (codes "gpt") (codes "chat/default")) {
  fallback_routes = codes "chat/slow, chat/none\nchat/slow";
  weighted_routes = codes "chat/default 3, chat/slow=1";
}

abbrev pub slow : Model
slow = model (codes "m2") (codes "p2") (codes "llama") (codes "chat/slow")

abbrev pub ann : User
ann = record {
  id = codes "u1";
  username = codes "ann";
  email = [];
  display_name = [];
  department = codes "lab";
  role = codes "user";
  password_hash = [];
  auth_provider = codes "local";
  is_active = true;
  must_change_password = false;
  session_version = pos 0;
  created_at = noon;
  updated_at = noon;
  last_login_at = none;
}

abbrev pub key : ApiKey
key = record {
  id = codes "k1";
  user_id = codes "u1";
  name = [];
  prefix = [];
  key_hash = [];
  is_active = true;
  expires_at = none;
  last_used_at = none;
  created_at = noon;
  budget_usd = pos 5_000_000;
  rpm_limit = pos 2;
  tpm_limit = pos 1000;
  model_allowlist = codes "chat/default m2";
}

abbrev pub used : Text → Time → UsageRecord
used id t = record {
  id = id;
  request_id = id;
  user_id = codes "u1";
  username = codes "ann";
  department = codes "lab";
  api_key_id = codes "k1";
  provider_id = codes "p1";
  model = codes "chat/default";
  protocol = codes "openai";
  input_tokens = pos 100;
  output_tokens = pos 50;
  total_tokens = pos 150;
  cost_usd = pos 600;
  latency_ms = pos 12;
  status_code = pos 200;
  error_text = [];
  created_at = t;
}

abbrev pub budget : Budget
budget = record {
  id = codes "b1";
  scope_type = codes "department";
  scope_value = codes "lab";
  limit_usd = pos 1_000_000;
  warn_pct = pos 90_000_000;
  is_active = true;
  created_at = noon;
  updated_at = noon;
}

abbrev pub limit : RateLimit
limit = record {
  id = codes "l1";
  scope_type = codes "model";
  scope_value = codes "chat/default";
  rpm_limit = pos 1;
  tpm_limit = pos 0;
  is_active = true;
  created_at = noon;
  updated_at = noon;
}

abbrev pub secret_word : GuardrailCustomPattern
secret_word = record {
  id = codes "c1";
  name = codes "project";
  pattern = codes "apollo";
  action = codes "block";
  redaction_text = [];
  enabled = true;
}

abbrev pub guardrails : GuardrailPolicy
guardrails = record {
  id = codes "default";
  enabled = true;
  input_action = codes "redact";
  output_action = codes "redact";
  detect_email = true;
  detect_phone = true;
  detect_ssn = true;
  detect_credit_card = true;
  detect_api_key = true;
  custom_patterns = secret_word ∷ [];
  redaction_text = codes "[REDACTED]";
  streaming_block_mode = codes "reject";
  created_at = noon;
  updated_at = noon;
}

abbrev pub db : Db
db = record {
  users = ann ∷ [];
  api_keys = key ∷ [];
  providers = provider (codes "p1") ∷ provider (codes "p2") ∷ [];
  models = chat ∷ slow ∷ [];
  budgets = budget ∷ [];
  rate_limits = limit ∷ [];
  usage_ledger = used (codes "r1") (at 1_769_947_000 7) ∷ [];
  request_log = [];
}
