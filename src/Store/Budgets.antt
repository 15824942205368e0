-- ===== src/Store/Budgets.antt =====
-- budgets.go of internal/store, with the spend of an API key (apikeys.go).
use phlox_gw.Common.{◌&&◌, ◌||◌, Bool, false, not, List, [], ◌∷◌, ◌++◌, any, select, if◌then◌else◌}
use phlox_gw.Common.Int.{ℤ, pos, ◌*ℤ◌, ltb_ℤ, leb_ℤ}
use phlox_gw.Common.Text.{Text, codes, text_eq}
use phlox_gw.Store.Types.{Time, User, Budget, UsageRecord, Db, Result, ok, err, not_found, conflict}
use phlox_gw.Store.Clock.{recorded_in}
use phlox_gw.Store.Calendar.{month_bounds}
use phlox_gw.Store.Usage.{sum_cost}
use phlox_gw.Store.Table.{update_where, delete_where}

abbrev has_budget_id : Text → Budget → Bool
has_budget_id id b = text_eq b.id id

abbrev same_scope : Budget → Budget → Bool
same_scope a b = text_eq a.scope_type b.scope_type && text_eq a.scope_value b.scope_value

unfoldable pub create_budget : Db → Time → Budget → Result Db
create_budget db now b =
    if any (λ r. text_eq r.id b.id || same_scope r b) db.budgets
    then err conflict
    else ok
        (record db { budgets = db.budgets ++ record b { created_at = now; updated_at = now } ∷ [] })

unfoldable pub update_budget : Db → Time → Budget → Result Db
update_budget db now b =
    if not (any (has_budget_id b.id) db.budgets)
    then err not_found
    else if any (λ r. not (has_budget_id b.id r) && same_scope r b) db.budgets
    then err conflict
    else ok (record db {
      budgets =
          update_where (has_budget_id b.id)
            (λ old. record b { id = old.id; created_at = old.created_at; updated_at = now })
            db.budgets;
    })

unfoldable pub delete_budget : Db → Text → Result Db
delete_budget db id =
    if any (has_budget_id id) db.budgets
    then ok (record db { budgets = delete_where (has_budget_id id) db.budgets })
    else err not_found

-- The rows of the ledger that a budget or an API key pays for.
abbrev pub charged_to : Budget → UsageRecord → Bool
charged_to b r =
    if text_eq b.scope_type (codes "user")
    then text_eq r.user_id b.scope_value
    else if text_eq b.scope_type (codes "department")
    then text_eq r.department b.scope_value
    else false

unfoldable pub spend_for_budget : Db → Budget → Time → Time → ℤ
unfolding sum_cost recorded_in
spend_for_budget db b start end =
    sum_cost (select (λ r. charged_to b r && recorded_in start end r.created_at) db.usage_ledger)

unfoldable pub api_key_monthly_spend : Db → Text → Time → Time → ℤ
unfolding sum_cost recorded_in
api_key_monthly_spend db id start end =
    sum_cost
      (select (λ r. text_eq r.api_key_id id && recorded_in start end r.created_at) db.usage_ledger)

-- BudgetLineItem, without the ratio, which is for display.
pub record BudgetLineItem : Type 0 where
  pub budget : Budget
  pub spend_usd : ℤ
  pub blocked : Bool
  pub warning : Bool

pub record BudgetStatus : Type 0 where
  pub blocked : Bool
  pub warning : Bool
  pub reason : Text
  pub items : List BudgetLineItem

abbrev pub no_status : BudgetStatus
no_status = record { blocked = false; warning = false; reason = []; items = [] }

-- One budget of the loop; `warn_pct` counts millionths of a percent.
unfoldable pub budget_item : Db → Time → Time → Budget → BudgetLineItem
unfolding spend_for_budget ◌*ℤ◌
budget_item db start end b =
    let spend = spend_for_budget db b start end in
    let limited = ltb_ℤ (pos 0) b.limit_usd in
    record {
      budget = b;
      spend_usd = spend;
      blocked = limited && leb_ℤ b.limit_usd spend;
      warning = limited && leb_ℤ (b.limit_usd *ℤ b.warn_pct) (spend *ℤ pos 100_000_000);
    }

abbrev pub limit_reason : Budget → Text
limit_reason b =
    b.scope_type ++ (codes " budget " ++ (b.scope_value ++ codes " is at or over limit"))

unfoldable pub add_item : BudgetStatus → BudgetLineItem → BudgetStatus
add_item status item = record {
  blocked = status.blocked || item.blocked;
  warning = status.warning || item.warning;
  reason = if item.blocked then limit_reason item.budget else status.reason;
  items = status.items ++ item ∷ [];
}

unfoldable pub add_budgets : Db → Time → Time → List Budget → BudgetStatus → BudgetStatus
unfolding budget_item add_item
add_budgets db start end [] status = status
add_budgets db start end (b ∷ bs) status =
    add_budgets db start end bs (add_item status (budget_item db start end b))

-- WHERE is_active = 1 AND (…)
abbrev pub budget_applies : User → Budget → Bool
budget_applies u b =
    b.is_active
    && (text_eq b.scope_type (codes "user") && text_eq b.scope_value u.id
        || text_eq b.scope_type (codes "department") && text_eq b.scope_value u.department)

unfoldable pub budget_status : Db → Time → User → Bool → BudgetStatus
unfolding add_budgets month_bounds
budget_status db now u priced_only =
    let (start, end) = month_bounds now in
    if priced_only
    then add_budgets db start end (select (budget_applies u) db.budgets) no_status
    else no_status
