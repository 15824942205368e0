-- ===== src/Store/Providers.antt =====
-- providers.go of internal/store: the circuit breaker that each provider carries, and the statements
-- that create, change and delete providers.
use phlox_gw.Common.{
  ℕ, ◌+◌, ◌/◌, ◌%◌, ◌^◌, ◌*◌, Bool, ◌&&◌, ◌||◌, List, [], ◌∷◌, ◌++◌, map, select, none, some, any,
  find, if◌then◌else◌,
}
use phlox_gw.Common.Int.{ℤ, pos, ◌+ℤ◌, leb_ℤ, pos_part}
use phlox_gw.Common.Text.{Text, codes, text_eq, is_empty}
use phlox_gw.Store.Types.{
  Time, Provider, Model, RateLimit, Db, Result, ok, err, not_found, conflict,
}
use phlox_gw.Store.Lists.{limit_provider_error}
use phlox_gw.Store.Table.{update_where, delete_where, order_by, text_leb}

-- t.Add(d), for a duration of `d` nanoseconds that is not negative.
unfoldable pub add_duration : Time → ℕ → Time
add_duration t d = record { sec = t.sec + (t.nano + d) / 10 ^ 9; nano = (t.nano + d) % 10 ^ 9 }

abbrev pub has_id : Text → Provider → Bool
has_id id p = text_eq p.id id

-- The health status that the scan functions show.
abbrev pub shown_status : Text → Text
shown_status s = if is_empty s then codes "unknown" else s

unfoldable pub scan_provider : Provider → Provider
scan_provider p = record p { health_status = shown_status p.health_status }

unfoldable pub get_provider : Db → Text → Result Provider
unfolding scan_provider
get_provider db id = elim (find (has_id id) db.providers) [
  | none ↦ err not_found
  | some p ↦ ok (scan_provider p)
]

-- The row after a success.
unfoldable pub succeeded : Time → Provider → Provider
succeeded now p = record p {
  health_status = codes "healthy";
  consecutive_failures = pos 0;
  last_error = [];
  circuit_open_until = none;
  last_health_check_at = some now;
  updated_at = now;
}

-- RecordProviderSuccess
unfoldable pub record_provider_success : Db → Text → Time → Result Db
unfolding succeeded
record_provider_success db id now =
    if any (has_id id) db.providers
    then ok (record db { providers = update_where (has_id id) (succeeded now) db.providers })
    else err not_found

-- The row after a failure, at the count `failures`.
unfoldable pub failed_row : ℤ → ℕ → Time → Text → ℤ → Provider → Provider
unfolding ◌+ℤ◌ add_duration limit_provider_error
failed_row threshold cooldown now err_text failures p = record p {
  health_status = if leb_ℤ threshold failures then codes "down" else codes "degraded";
  consecutive_failures = failures;
  last_error = limit_provider_error err_text;
  circuit_open_until = if leb_ℤ threshold failures then some (add_duration now cooldown) else none;
  last_health_check_at = some now;
  updated_at = now;
}

abbrev pub or_default : ℤ → ℤ → ℤ
or_default d v = if leb_ℤ v (pos 0) then d else v

-- RecordProviderFailure; the cooldown is a number of nanoseconds.
unfoldable pub record_provider_failure : Db → Text → ℤ → ℤ → Time → Text → Result (Db × Provider)
unfolding failed_row scan_provider get_provider
record_provider_failure db id threshold cooldown now err_text =
    let limit = or_default (pos 3) threshold in
    let wait = pos_part (or_default (pos (5 * 60 * 10 ^ 9)) cooldown) in
    elim (find (has_id id) db.providers) [
      | none ↦ err not_found
      | some row ↦
          let failures = row.consecutive_failures +ℤ pos 1 in
          let db' = record db {
            providers =
                update_where (has_id id) (failed_row limit wait now err_text failures) db.providers;
          } in
          elim (get_provider db' id) [ ok p ↦ ok (db', p) | err e ↦ err e ]
    ]

unfoldable pub list_providers : Db → List Provider
unfolding order_by scan_provider
list_providers db = map scan_provider (order_by (λ a b. text_leb a.name b.name) db.providers)

-- The columns that an insert leaves out get the defaults of the table.
unfoldable pub create_provider : Db → Time → Provider → Result Db
create_provider db now p =
    if any (has_id p.id) db.providers
    then err conflict
    else ok (record db {
      providers =
          db.providers
          ++ record p {
            health_status = codes "unknown";
            consecutive_failures = pos 0;
            last_health_check_at = none;
            last_error = [];
            circuit_open_until = none;
            created_at = now;
            updated_at = now;
          }
            ∷ [];
    })

pub record ProviderSecretUpdate : Type 0 where
  pub api_key : Bool
  pub aws_credentials : Bool
  pub bedrock_api_key : Bool

-- The row of an update: the secrets that it does not mark stay.
unfoldable pub updated_row : Time → Provider → ProviderSecretUpdate → Provider → Provider
updated_row now p secrets old = record old {
  name = p.name;
  type = p.type;
  base_url = p.base_url;
  api_key_env = p.api_key_env;
  azure_api_version = p.azure_api_version;
  beta_header_prefixes = p.beta_header_prefixes;
  aws_region = p.aws_region;
  aws_auth_method = p.aws_auth_method;
  aws_access_key_id = p.aws_access_key_id;
  enabled = p.enabled;
  updated_at = now;
  api_key = if secrets.api_key then p.api_key else old.api_key;
  aws_secret_access_key =
      if secrets.aws_credentials then p.aws_secret_access_key else old.aws_secret_access_key;
  aws_session_token =
      if secrets.aws_credentials then p.aws_session_token else old.aws_session_token;
  bedrock_api_key = if secrets.bedrock_api_key then p.bedrock_api_key else old.bedrock_api_key;
}

unfoldable pub update_provider : Db → Time → Provider → ProviderSecretUpdate → Result Db
unfolding updated_row
update_provider db now p secrets =
    if any (has_id p.id) db.providers
    then ok (record db {
      providers = update_where (has_id p.id) (updated_row now p secrets) db.providers;
    })
    else err not_found

-- The models of a provider, which go with it (ON DELETE CASCADE in schema.go).
abbrev pub is_model_of : Text → Model → Bool
is_model_of id m = text_eq m.provider_id id

abbrev pub names_model : Text → Model → Bool
names_model s m = text_eq s m.route || text_eq s m.model_id || text_eq s m.id

-- The rate limits that go with a provider: its own and those of its models.
abbrev pub limits_provider : Db → Text → RateLimit → Bool
limits_provider db id l =
    text_eq l.scope_type (codes "provider") && text_eq l.scope_value id
    || text_eq l.scope_type (codes "model")
      && any (names_model l.scope_value) (select (is_model_of id) db.models)

unfoldable pub delete_provider : Db → Text → Result Db
delete_provider db id =
    if any (has_id id) db.providers
    then ok (record db {
      rate_limits = delete_where (limits_provider db id) db.rate_limits;
      models = delete_where (is_model_of id) db.models;
      providers = delete_where (has_id id) db.providers;
    })
    else err not_found
