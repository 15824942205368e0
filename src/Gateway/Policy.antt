-- ===== src/Gateway/Policy.antt =====
-- policy.go of internal/httpapi, and checkRouteAdmission of routing.go: the checks that a request
-- passes before a provider is called. They read the store through an interface, every operation of
-- which may fail; the module Database fills it with the statements of the store.
pub mod Database
pub mod Admission
pub mod Admitted
pub mod Denials
use phlox_gw.Common.{
  ℕ, ◌-◌, Bool, true, false, not, ◌&&◌, ◌||◌, ◌==◌, Option, none, some, List, [], ◌∷◌, ◌++◌, any,
  if◌then◌else◌,
}
use phlox_gw.Common.Int.{ℤ, pos, ltb_ℤ, leb_ℤ}
use phlox_gw.Common.Text.{Text, codes, text_eq, is_empty}
use phlox_gw.Common.Text.Trim.{trim_space}
use phlox_gw.Common.Text.Split.{fields_func, trim_items}
use phlox_gw.Store.Types.{Time, Model, RoutedModel, User, ApiKey, RateLimit, Result, ok, err}
use phlox_gw.Store.Calendar.{month_bounds}
use phlox_gw.Store.Usage.{WindowUsage, is_priced}
use phlox_gw.Store.Budgets.{BudgetStatus}

pub record PolicyStore : Type 0 where
  pub budget_status : User → Bool → Result BudgetStatus
  pub api_key_monthly_spend : Text → Time → Time → Result ℤ
  pub api_key_window_usage : Text → Time → Result WindowUsage
  pub applicable_rate_limits : User → RoutedModel → Result (List RateLimit)
  pub rate_limit_window_usage : RateLimit → Time → Result WindowUsage

-- What a check answers when it blocks: the status, the reason and the type of the error.
pub record Denial : Type 0 where
  pub status : ℤ
  pub reason : Text
  pub type : Text

abbrev pub deny : ℤ → Text → Text → Option Denial
deny status reason type = some (record { status = status; reason = reason; type = type })

unfoldable pub policy_separator : ℕ → Bool
policy_separator b = b == 44 || b == 10 || b == 13 || b == 9 || b == 32

unfoldable pub split_policy_list : Text → List Text
unfolding policy_separator fields_func trim_items trim_space
split_policy_list v = trim_items (fields_func policy_separator v)

abbrev pub names_model : Model → Text → Bool
names_model m item = text_eq item m.route || text_eq item m.model_id || text_eq item m.id

abbrev pub allows : List Text → Model → Bool
allows [] m = true
allows (x ∷ xs) m = any (names_model m) (x ∷ xs)

unfoldable pub api_key_allows_model : ApiKey → Model → Bool
unfolding split_policy_list
api_key_allows_model key m = allows (split_policy_list key.model_allowlist) m

-- now.Add(-time.Minute)
abbrev pub minute_before : Time → Time
minute_before t = record t { sec = t.sec - 60 }

abbrev rate_limited : Text → Option Denial
rate_limited reason = deny (pos 429) reason (codes "rate_limit_exceeded")

abbrev rate_check_failed : Option Denial
rate_check_failed = deny (pos 500) (codes "rate limit check failed") (codes "server_error")

-- A limit that is not positive is no limit.
abbrev pub exceeds : ℤ → ℤ → Bool
exceeds limit used = ltb_ℤ (pos 0) limit && leb_ℤ limit used

module _ (store : PolicyStore) (now : Time) where
  unfoldable pub check_budget : User → Model → Option Text
  unfolding is_priced
  check_budget user m = elim (store.budget_status user (is_priced m)) [
    | err e ↦ some (codes "budget check failed")
    | ok status ↦
        if status.blocked
        then some (if is_empty status.reason then codes "budget exceeded" else status.reason)
        else none
  ]

  unfoldable pub check_api_key_monthly_budget : ApiKey → Option Text
  unfolding month_bounds
  check_api_key_monthly_budget key =
      let (start, end) = month_bounds now in
      elim (store.api_key_monthly_spend key.id start end) [
        | err e ↦ some (codes "API key budget check failed")
        | ok spend ↦
            if leb_ℤ key.budget_usd spend
            then some (codes "API key monthly budget exceeded")
            else none
      ]

  unfoldable pub check_api_key_limits : ApiKey → Option Denial
  check_api_key_limits key =
      if ltb_ℤ (pos 0) key.rpm_limit || ltb_ℤ (pos 0) key.tpm_limit
      then elim (store.api_key_window_usage key.id (minute_before now)) [
        | err e ↦ rate_check_failed
        | ok used ↦
            if exceeds key.rpm_limit used.requests
            then rate_limited (codes "API key requests per minute limit exceeded")
            else if exceeds key.tpm_limit used.total_tokens
            then rate_limited (codes "API key tokens per minute limit exceeded")
            else none
      ]
      else none

  unfoldable pub check_api_key_policy : ApiKey → RoutedModel → Option Denial
  unfolding api_key_allows_model check_api_key_monthly_budget check_api_key_limits is_priced
  check_api_key_policy key route =
      if not (api_key_allows_model key route.model)
      then deny (pos 403) (codes "API key is not allowed to use this model")
          (codes "permission_error")
      else if is_priced route.model && ltb_ℤ (pos 0) key.budget_usd
      then elim (check_api_key_monthly_budget key) [
        | some reason ↦ deny (pos 402) reason (codes "insufficient_quota")
        | none ↦ check_api_key_limits key
      ]
      else check_api_key_limits key

  abbrev scope_reason : RateLimit → Text → Text
  scope_reason l what = l.scope_type ++ (codes " " ++ (l.scope_value ++ what))

  unfoldable pub check_limits : List RateLimit → Option Denial
  check_limits [] = none
  check_limits (l ∷ ls) =
      let rest = check_limits ls in
      if leb_ℤ l.rpm_limit (pos 0) && leb_ℤ l.tpm_limit (pos 0)
      then rest
      else elim (store.rate_limit_window_usage l (minute_before now)) [
        | err e ↦ rate_check_failed
        | ok used ↦
            if exceeds l.rpm_limit used.requests
            then rate_limited (scope_reason l (codes " requests per minute limit exceeded"))
            else if exceeds l.tpm_limit used.total_tokens
            then rate_limited (scope_reason l (codes " tokens per minute limit exceeded"))
            else rest
      ]

  unfoldable pub check_rate_limits : User → RoutedModel → Option Denial
  unfolding check_limits
  check_rate_limits user route = elim (store.applicable_rate_limits user route) [
    | err e ↦ rate_check_failed
    | ok limits ↦ check_limits limits
  ]

  unfoldable pub check_route_admission : User → ApiKey → RoutedModel → Option Denial
  check_route_admission user key route = elim (check_api_key_policy key route) [
    | some d ↦ some d
    | none ↦ elim (check_budget user route.model) [
      | some reason ↦ deny (pos 402) reason (codes "insufficient_quota")
      | none ↦ check_rate_limits user route
    ]
  ]
