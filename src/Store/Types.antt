-- ===== src/Store/Types.antt =====
-- The rows of the tables, as internal/store declares them, and the database as the list of rows of
-- each table. An int or int64 is an integer; an amount of money is a whole number of millionths of a
-- dollar, the unit to which roundCost rounds.
use phlox_gw.Common.{ℕ, Bool, List, Option, ◌≡◌, refl, ◌⊎◌, inl, inr}
use phlox_gw.Common.Int.{ℤ}
use phlox_gw.Common.Text.{Text}

-- A time.Time in UTC: whole seconds, and the nanoseconds within the second.
pub record Time : Type 0 where
  pub sec : ℕ
  pub nano : ℕ

pub record Model : Type 0 where
  pub id : Text
  pub provider_id : Text
  pub model_id : Text
  pub route : Text
  pub display_name : Text
  pub input_cost_per_million : ℤ
  pub output_cost_per_million : ℤ
  pub context_window : ℤ
  pub supports_streaming : Bool
  pub enabled : Bool
  pub fallback_routes : Text
  pub weighted_routes : Text
  pub retry_attempts : ℤ
  pub request_timeout_ms : ℤ
  pub health_routing_enabled : Bool
  pub created_at : Time
  pub updated_at : Time

pub record Provider : Type 0 where
  pub id : Text
  pub name : Text
  pub type : Text
  pub base_url : Text
  pub api_key : Text
  pub api_key_env : Text
  pub azure_api_version : Text
  pub beta_header_prefixes : Text
  pub aws_region : Text
  pub aws_auth_method : Text
  pub aws_access_key_id : Text
  pub aws_secret_access_key : Text
  pub aws_session_token : Text
  pub bedrock_api_key : Text
  pub enabled : Bool
  pub health_status : Text
  pub consecutive_failures : ℤ
  pub last_health_check_at : Option Time
  pub last_error : Text
  pub circuit_open_until : Option Time
  pub created_at : Time
  pub updated_at : Time

pub record RoutedModel : Type 0 where
  pub model : Model
  pub provider : Provider

pub record User : Type 0 where
  pub id : Text
  pub username : Text
  pub email : Text
  pub display_name : Text
  pub department : Text
  pub role : Text
  pub password_hash : Text
  pub auth_provider : Text
  pub is_active : Bool
  pub must_change_password : Bool
  pub session_version : ℤ
  pub created_at : Time
  pub updated_at : Time
  pub last_login_at : Option Time

pub record ApiKey : Type 0 where
  pub id : Text
  pub user_id : Text
  pub name : Text
  pub prefix : Text
  pub key_hash : Text
  pub is_active : Bool
  pub expires_at : Option Time
  pub last_used_at : Option Time
  pub created_at : Time
  pub budget_usd : ℤ
  pub rpm_limit : ℤ
  pub tpm_limit : ℤ
  pub model_allowlist : Text

-- `warn_pct` is a number of millionths of a percent.
pub record Budget : Type 0 where
  pub id : Text
  pub scope_type : Text
  pub scope_value : Text
  pub limit_usd : ℤ
  pub warn_pct : ℤ
  pub is_active : Bool
  pub created_at : Time
  pub updated_at : Time

pub record RateLimit : Type 0 where
  pub id : Text
  pub scope_type : Text
  pub scope_value : Text
  pub rpm_limit : ℤ
  pub tpm_limit : ℤ
  pub is_active : Bool
  pub created_at : Time
  pub updated_at : Time

pub record UsageRecord : Type 0 where
  pub id : Text
  pub request_id : Text
  pub user_id : Text
  pub username : Text
  pub department : Text
  pub api_key_id : Text
  pub provider_id : Text
  pub model : Text
  pub protocol : Text
  pub input_tokens : ℤ
  pub output_tokens : ℤ
  pub total_tokens : ℤ
  pub cost_usd : ℤ
  pub latency_ms : ℤ
  pub status_code : ℤ
  pub error_text : Text
  pub created_at : Time

pub record RequestLogRecord : Type 0 where
  pub id : Text
  pub request_id : Text
  pub user_id : Text
  pub username : Text
  pub department : Text
  pub api_key_id : Text
  pub api_key_prefix : Text
  pub api_key_name : Text
  pub provider_id : Text
  pub provider_type : Text
  pub model_route : Text
  pub upstream_model_id : Text
  pub protocol : Text
  pub method : Text
  pub endpoint : Text
  pub streaming : Bool
  pub input_tokens : ℤ
  pub output_tokens : ℤ
  pub total_tokens : ℤ
  pub cost_usd : ℤ
  pub latency_ms : ℤ
  pub status_code : ℤ
  pub error_text : Text
  pub client_ip : Text
  pub user_agent : Text
  pub created_at : Time

pub record GuardrailCustomPattern : Type 0 where
  pub id : Text
  pub name : Text
  pub pattern : Text
  pub action : Text
  pub redaction_text : Text
  pub enabled : Bool

pub record GuardrailPolicy : Type 0 where
  pub id : Text
  pub enabled : Bool
  pub input_action : Text
  pub output_action : Text
  pub detect_email : Bool
  pub detect_phone : Bool
  pub detect_ssn : Bool
  pub detect_credit_card : Bool
  pub detect_api_key : Bool
  pub custom_patterns : List GuardrailCustomPattern
  pub redaction_text : Text
  pub streaming_block_mode : Text
  pub created_at : Time
  pub updated_at : Time

pub record Db : Type 0 where
  pub users : List User
  pub api_keys : List ApiKey
  pub providers : List Provider
  pub models : List Model
  pub budgets : List Budget
  pub rate_limits : List RateLimit
  pub usage_ledger : List UsageRecord
  pub request_log : List RequestLogRecord

-- The errors of the store: ErrNotFound, ErrConflict, and a failure of the database itself.
pub data StoreError : Type 0 where
  not_found conflict failed : StoreError

pub data Result {ℓ} (A : Type ℓ) : Type ℓ where
  ok : A → Result A
  err : StoreError → Result A

pub Result-cases {ℓ} :
    {A : Type ℓ} (r : Result A) → ((a : A) × (r ≡ ok a)) ⊎ ((e : StoreError) × (r ≡ err e))
Result-cases (ok a) = inl (a, refl)
Result-cases (err e) = inr (e, refl)

pub ok-injective {ℓ} : {A : Type ℓ} {a b : A} → ok a ≡ ok b → a ≡ b
ok-injective e = cc
