-- ===== src/Store/RateLimits.antt =====
-- ratelimits.go of internal/store, with the window of an API key (apikeys.go).
use phlox_gw.Common.{◌&&◌, ◌||◌, Bool, false, not, List, [], ◌∷◌, ◌++◌, any, select, if◌then◌else◌}
use phlox_gw.Common.Text.{Text, codes, text_eq}
use phlox_gw.Store.Types.{
  Time, User, RoutedModel, RateLimit, UsageRecord, Db, Result, ok, err, not_found, conflict,
}
use phlox_gw.Store.Clock.{recorded_since}
use phlox_gw.Store.Usage.{WindowUsage, window_usage}
use phlox_gw.Store.Table.{update_where, delete_where, order_by, columns_leb}

abbrev has_limit_id : Text → RateLimit → Bool
has_limit_id id l = text_eq l.id id

abbrev same_scope : RateLimit → RateLimit → Bool
same_scope a b = text_eq a.scope_type b.scope_type && text_eq a.scope_value b.scope_value

unfoldable pub create_rate_limit : Db → Time → RateLimit → Result Db
create_rate_limit db now l =
    if any (λ r. text_eq r.id l.id || same_scope r l) db.rate_limits
    then err conflict
    else ok (record db {
      rate_limits = db.rate_limits ++ record l { created_at = now; updated_at = now } ∷ [];
    })

unfoldable pub update_rate_limit : Db → Time → RateLimit → Result Db
update_rate_limit db now l =
    if not (any (has_limit_id l.id) db.rate_limits)
    then err not_found
    else if any (λ r. not (has_limit_id l.id r) && same_scope r l) db.rate_limits
    then err conflict
    else ok (record db {
      rate_limits =
          update_where (has_limit_id l.id)
            (λ old. record l { id = old.id; created_at = old.created_at; updated_at = now })
            db.rate_limits;
    })

unfoldable pub delete_rate_limit : Db → Text → Result Db
delete_rate_limit db id =
    if any (has_limit_id id) db.rate_limits
    then ok (record db { rate_limits = delete_where (has_limit_id id) db.rate_limits })
    else err not_found

-- WHERE is_active = 1 AND (…)
abbrev pub limit_applies : User → RoutedModel → RateLimit → Bool
limit_applies u r l =
    l.is_active
    && (text_eq l.scope_type (codes "user") && text_eq l.scope_value u.id
        || text_eq l.scope_type (codes "department") && text_eq l.scope_value u.department
        || text_eq l.scope_type (codes "provider") && text_eq l.scope_value r.provider.id
        || text_eq l.scope_type (codes "model") && text_eq l.scope_value r.model.route)

abbrev pub limit_before : RateLimit → RateLimit → Bool
limit_before a b = columns_leb a.scope_type a.scope_value b.scope_type b.scope_value

unfoldable pub applicable_rate_limits : Db → User → RoutedModel → List RateLimit
unfolding order_by
applicable_rate_limits db u r = order_by limit_before (select (limit_applies u r) db.rate_limits)

-- The rows of the ledger that a limit counts.
abbrev pub counted_by : RateLimit → UsageRecord → Bool
counted_by l r =
    if text_eq l.scope_type (codes "user")
    then text_eq r.user_id l.scope_value
    else if text_eq l.scope_type (codes "department")
    then text_eq r.department l.scope_value
    else if text_eq l.scope_type (codes "provider")
    then text_eq r.provider_id l.scope_value
    else if text_eq l.scope_type (codes "model")
    then text_eq r.model l.scope_value
    else false

unfoldable pub rate_limit_window_usage : Db → RateLimit → Time → WindowUsage
unfolding window_usage recorded_since
rate_limit_window_usage db l since =
    window_usage (select (λ r. counted_by l r && recorded_since since r.created_at) db.usage_ledger)

unfoldable pub api_key_window_usage : Db → Text → Time → WindowUsage
unfolding window_usage recorded_since
api_key_window_usage db id since =
    window_usage
      (select (λ r. text_eq r.api_key_id id && recorded_since since r.created_at) db.usage_ledger)
