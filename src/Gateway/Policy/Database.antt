-- ===== src/Gateway/Policy/Database.antt =====
-- The store behind the checks: the statements of internal/store over one state of the database.
use phlox_gw.Store.Types.{Time, Db, ok}
use phlox_gw.Store.Budgets.{budget_status, api_key_monthly_spend}
use phlox_gw.Store.RateLimits.{
  applicable_rate_limits, rate_limit_window_usage, api_key_window_usage,
}
use phlox_gw.Gateway.Policy.{PolicyStore}

abbrev pub database : Db → Time → PolicyStore
database db now = record {
  budget_status = λ user priced. ok (budget_status db now user priced);
  api_key_monthly_spend = λ id start end. ok (api_key_monthly_spend db id start end);
  api_key_window_usage = λ id since. ok (api_key_window_usage db id since);
  applicable_rate_limits = λ user route. ok (applicable_rate_limits db user route);
  rate_limit_window_usage = λ l since. ok (rate_limit_window_usage db l since);
}
