-- ===== src/Store/Models.antt =====
-- models.go of internal/store: the catalog of models, and the resolution of a requested name.
pub mod Resolve
pub mod Routes
use phlox_gw.Common.{
  Bool, true, false, not, ◌&&◌, ◌||◌, List, [], ◌∷◌, ◌++◌, any, select, find, if◌then◌else◌, Option,
  none, some,
}
use phlox_gw.Common.Text.{Text, codes, text_eq, is_empty, contains_byte}
use phlox_gw.Common.Text.Trim.{trim_space}
use phlox_gw.Store.Types.{
  Time, Model, Provider, RoutedModel, RateLimit, Db, Result, ok, err, not_found, conflict, failed,
}
use phlox_gw.Store.Lists.{normalize_list, split_normalized_list, clamp_non_negative}
use phlox_gw.Store.Providers.{scan_provider}
use phlox_gw.Store.Table.{update_where, delete_where, first_row, order_by, columns_leb}

abbrev pub has_model_id : Text → Model → Bool
has_model_id id m = text_eq m.id id

abbrev model_before : Model → Model → Bool
model_before a b = columns_leb a.provider_id a.model_id b.provider_id b.model_id

unfoldable pub list_models : Db → Bool → List Model
unfolding order_by
list_models db include_disabled =
    order_by model_before
      (if include_disabled then db.models else select (λ m. m.enabled) db.models)

-- The columns that a statement writes.
unfoldable pub stored_model : Time → Model → Model
unfolding normalize_list clamp_non_negative
stored_model now m = record m {
  fallback_routes = normalize_list m.fallback_routes;
  weighted_routes = normalize_list m.weighted_routes;
  retry_attempts = clamp_non_negative m.retry_attempts;
  request_timeout_ms = clamp_non_negative m.request_timeout_ms;
  updated_at = now;
}

abbrev pub provider_exists : Db → Text → Bool
provider_exists db id = any (λ p. text_eq p.id id) db.providers

-- INSERT: the primary key, the unique route, and the reference to the provider.
unfoldable pub create_model : Db → Time → Model → Result Db
unfolding stored_model
create_model db now m =
    if any (λ r. text_eq r.id m.id || text_eq r.route m.route) db.models
    then err conflict
    else if not (provider_exists db m.provider_id)
    then err failed
    else ok
        (record db { models = db.models ++ record (stored_model now m) { created_at = now } ∷ [] })

-- UPDATE … WHERE id = ?
unfoldable pub update_model : Db → Time → Model → Result Db
unfolding stored_model
update_model db now m =
    if not (any (has_model_id m.id) db.models)
    then err not_found
    else if any (λ r. not (has_model_id m.id r) && text_eq r.route m.route) db.models
    then err conflict
    else if not (provider_exists db m.provider_id)
    then err failed
    else ok (record db {
      models =
          update_where (has_model_id m.id)
            (λ old. record (stored_model now m) { id = old.id; created_at = old.created_at })
            db.models;
    })

-- FROM models m JOIN providers p ON p.id = m.provider_id
unfoldable pub join_providers : Model → List Provider → List RoutedModel
unfolding scan_provider
join_providers m [] = []
join_providers m (p ∷ ps) =
    let rest = join_providers m ps in
    if text_eq p.id m.provider_id
    then record { model = m; provider = scan_provider p } ∷ rest
    else rest

unfoldable pub routed_models : List Model → List Provider → List RoutedModel
unfolding join_providers
routed_models [] ps = []
routed_models (m ∷ ms) ps = join_providers m ps ++ routed_models ms ps

abbrev pub is_enabled : RoutedModel → Bool
is_enabled r = r.model.enabled && r.provider.enabled

unfoldable pub resolve_model_by_id : Db → Text → Bool → Result RoutedModel
unfolding routed_models
resolve_model_by_id db id require_enabled = first_row (
    select (λ r. text_eq r.model.id id && (not require_enabled || is_enabled r))
      (routed_models db.models db.providers))

-- Of the rows of a query, the only one.
abbrev pub sole_row : List RoutedModel → Result RoutedModel
sole_row [] = err not_found
sole_row (r ∷ []) = ok r
sole_row (r ∷ _ ∷ _) = err not_found

abbrev pub matches : Text → RoutedModel → Bool
matches name r =
    if contains_byte name 47
    then text_eq r.model.route name && is_enabled r
    else text_eq r.model.model_id name && is_enabled r

-- ResolveModel: by route where the name has a slash, and else by upstream model id, if one model
-- has it.
unfoldable pub resolve_model : Db → Text → Result RoutedModel
unfolding routed_models
resolve_model db requested =
    let name = trim_space requested in
    let rows = select (matches name) (routed_models db.models db.providers) in
    if is_empty name
    then err not_found
    else if contains_byte name 47
    then first_row rows
    else sole_row rows

abbrev pub is_scope_of : RoutedModel → RateLimit → Bool
is_scope_of r l =
    text_eq l.scope_type (codes "model")
    && (text_eq l.scope_value r.model.route
        || text_eq l.scope_value r.model.model_id
        || text_eq l.scope_value r.model.id)

-- DeleteModel: the rate limits of the model go with it.
unfoldable pub delete_model : Db → Text → Result Db
unfolding resolve_model_by_id
delete_model db id = elim (resolve_model_by_id db id false) [
  | err e ↦ err e
  | ok r ↦
      if any (has_model_id id) db.models
      then ok (record db {
        rate_limits = delete_where (is_scope_of r) db.rate_limits;
        models = delete_where (has_model_id id) db.models;
      })
      else err not_found
]
