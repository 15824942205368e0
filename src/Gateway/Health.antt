-- ===== src/Gateway/Health.antt =====
-- The circuit breaker as the gateway reads it (models.go, policy.go of internal/httpapi): which
-- statuses count as failures of a provider, which allow a retry, and when a circuit is open.
pub mod Circuit
use phlox_gw.Common.{suc, ◌∷◌, Bool, true, false, ◌||◌, Option, none, some, [], ◌++◌, if◌then◌else◌}
use phlox_gw.Common.Text.Numbers.{decimal}
use phlox_gw.Common.Int.{ℤ, pos, negsuc, leb_ℤ, eq_ℤ}
use phlox_gw.Common.Text.{Text, codes, is_empty}
use phlox_gw.Store.Types.{Time, Provider, Db, ok, err}
use phlox_gw.Store.Clock.{after}
use phlox_gw.Store.Calendar.{format_rfc3339}
use phlox_gw.Store.Providers.{record_provider_success, record_provider_failure}

unfoldable pub provider_status_is_failure : ℤ → Bool
provider_status_is_failure code =
    eq_ℤ code (pos 429) || eq_ℤ code (pos 401) || eq_ℤ code (pos 403) || leb_ℤ (pos 500) code

unfoldable pub provider_status_allows_retry : ℤ → Bool
provider_status_allows_retry code =
    eq_ℤ code (pos 408) || eq_ℤ code (pos 429) || leb_ℤ (pos 500) code

abbrev circuit_reason : Time → Text
circuit_reason t = codes "provider circuit is open until " ++ format_rfc3339 t

unfoldable pub provider_circuit_open : Provider → Time → Bool × Text
unfolding after
provider_circuit_open p now = elim p.circuit_open_until [
  | none ↦ (false, [])
  | some until ↦ if after until now then (true, circuit_reason until) else (false, [])
]

abbrev pub provider_failure_threshold : ℤ
provider_failure_threshold = pos 3

-- Five minutes, in nanoseconds.
abbrev pub provider_circuit_cooldown : ℤ
provider_circuit_cooldown = pos 300_000_000_000

-- recordProviderOutcome: an error of the store is logged and dropped.
unfoldable pub record_provider_outcome : Time → Text → ℤ → Text → Db → Db
unfolding provider_status_is_failure
record_provider_outcome now id status err_text db =
    if provider_status_is_failure status
    then elim (record_provider_failure db id provider_failure_threshold provider_circuit_cooldown
        now err_text) [ ok r ↦ r.0 | err _ ↦ db ]
    else elim (record_provider_success db id now) [ ok db' ↦ db' | err _ ↦ db ]

-- modelHealthResult, as far as its outcome is recorded.
pub record ModelHealthResult : Type 0 where
  pub succeeded : Bool
  pub status_code : ℤ
  pub error : Text
  pub snippet : Text

-- fmt's %d
abbrev int_text : ℤ → Text
int_text (pos n) = decimal n
int_text (negsuc n) = 45 ∷ decimal (suc n)

abbrev or_text : Text → Text → Text
or_text s t = if is_empty s then t else s

-- recordProviderHealthCheck
unfoldable pub record_provider_health_check : Time → Text → ModelHealthResult → Db → Db
unfolding decimal
record_provider_health_check now id r db =
    let reason =
      or_text (or_text r.error r.snippet)
        (codes "health check failed with status " ++ int_text r.status_code) in
    if r.succeeded
    then elim (record_provider_success db id now) [ ok db' ↦ db' | err _ ↦ db ]
    else elim (record_provider_failure db id provider_failure_threshold provider_circuit_cooldown
        now reason) [ ok x ↦ x.0 | err _ ↦ db ]
