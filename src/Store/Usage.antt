-- ===== src/Store/Usage.antt =====
-- usage.go of internal/store: the ledger of usage, and the cost of a request.
use phlox_gw.Common.{suc, ◌+◌, ◌/◌, Bool, ◌||◌, List, [], ◌∷◌, ◌++◌, any, length, if◌then◌else◌}
use phlox_gw.Common.Int.{ℤ, pos, negsuc, ◌+ℤ◌, ◌*ℤ◌, ltb_ℤ, sub_ℕ}
use phlox_gw.Common.Text.{text_eq}
use phlox_gw.Store.Types.{Model, UsageRecord, RequestLogRecord, Db}
use phlox_gw.Store.Lists.{limit_provider_error}

-- math.Round(v / 1_000_000): half a unit is rounded away from zero.
unfoldable pub round_million : ℤ → ℤ
round_million (pos n) = pos ((n + 500_000) / 1_000_000)
round_million (negsuc n) = sub_ℕ 0 ((suc n + 500_000) / 1_000_000)

-- Cost: the prices are in millionths of a dollar for a million tokens.
unfoldable pub cost : ℤ → ℤ → Model → ℤ
unfolding round_million ◌+ℤ◌ ◌*ℤ◌
cost input output m =
    round_million (input *ℤ m.input_cost_per_million +ℤ output *ℤ m.output_cost_per_million)

unfoldable pub is_priced : Model → Bool
is_priced m = ltb_ℤ (pos 0) m.input_cost_per_million || ltb_ℤ (pos 0) m.output_cost_per_million

-- InsertUsage: ON CONFLICT DO NOTHING, over the primary key and the unique request id.
unfoldable pub insert_usage : UsageRecord → Db → Db
insert_usage r db =
    if any (λ x. text_eq x.id r.id || text_eq x.request_id r.request_id) db.usage_ledger
    then db
    else record db { usage_ledger = db.usage_ledger ++ r ∷ [] }

-- InsertRequestLog
unfoldable pub insert_request_log : RequestLogRecord → Db → Db
unfolding limit_provider_error
insert_request_log r db =
    if any (λ x. text_eq x.id r.id || text_eq x.request_id r.request_id) db.request_log
    then db
    else record db {
      request_log =
          db.request_log ++ record r { error_text = limit_provider_error r.error_text } ∷ [];
    }

-- COALESCE(SUM(cost_usd), 0)
unfoldable pub sum_cost : List UsageRecord → ℤ
unfolding ◌+ℤ◌
sum_cost [] = pos 0
sum_cost (r ∷ rs) = r.cost_usd +ℤ sum_cost rs

-- COALESCE(SUM(total_tokens), 0)
unfoldable pub sum_tokens : List UsageRecord → ℤ
unfolding ◌+ℤ◌
sum_tokens [] = pos 0
sum_tokens (r ∷ rs) = r.total_tokens +ℤ sum_tokens rs

-- APIKeyWindowUsage, RateLimitWindowUsage
pub record WindowUsage : Type 0 where
  pub requests : ℤ
  pub total_tokens : ℤ

-- SELECT COUNT(*), COALESCE(SUM(total_tokens), 0)
unfoldable pub window_usage : List UsageRecord → WindowUsage
unfolding sum_tokens
window_usage rs = record { requests = pos (length rs); total_tokens = sum_tokens rs }
