-- ===== src/Store/Catalog/Kept.antt =====
-- How the operations of models.go, and all of them one after another, act on the keys of their tables.
use mathlib.Core.Path.{subst}
use phlox_gw.Common.{
  ◌≡◌, refl, sym, Bool, true, false, not, ◌||◌, [], any, All, All-append, All-map, if◌then◌else◌,
  arith,
}
use phlox_gw.Common.Text.{Text, text_eq, text_eq_iff}
use phlox_gw.Store.Types.{
  Time, Provider, Model, RoutedModel, Db, Result, ok, err, not_found, conflict, failed,
}
use phlox_gw.Store.Results.{ok_same, not_ok, let_through, not_stopped}
use phlox_gw.Store.Table.{delete_where}
use phlox_gw.Store.Distinct.{
  Distinct, or_false, any-false, All-delete_where, All-update_where, append-Distinct,
  delete_where-Distinct, update_where-Distinct, set-Distinct,
}
use phlox_gw.Store.Providers.{succeeded, record_provider_success, update_provider, updated_row}
use phlox_gw.Store.Models.{
  has_model_id, provider_exists, stored_model, create_model, update_model, delete_model,
  resolve_model_by_id, is_scope_of,
}
use phlox_gw.Store.Catalog.Providers.{
  row-IsCatalog, create_provider-IsCatalog, delete_provider-IsCatalog,
  record_provider_failure-IsCatalog,
}
use phlox_gw.Store.Catalog.{Step, Reaches, IsCatalog}

negated : {b : Bool} → not b ≡ false → b ≡ true
negated h = ground arith

-- The row of a model that is written has an id and a route of its own, and a provider.
create_model-IsCatalog :
    {db db' : Db} (now : Time) (m : Model)
    → create_model db now m ≡ ok db'
    → IsCatalog db
    → IsCatalog db'
unfolding create_model stored_model
create_model-IsCatalog {db = db} now m e c =
    let (new, e') = not_stopped _ conflict e in
    let (has_provider, e'') = not_stopped _ failed e' in
    let others : All (λ (r : Model). (text_eq r.id m.id || text_eq r.route m.route) ≡ false)
        db.models =
      any-false _ db.models new in
    subst IsCatalog (ok_same e'') (record {
      provider_ids = c.provider_ids;
      model_ids =
          append-Distinct (λ (r : Model). r.id) db.models _ c.model_ids
            (All-map _ _
              (λ (r : Model) (h : (text_eq r.id m.id || text_eq r.route m.route) ≡ false).
                (or_false h).0)
              db.models others);
      routes =
          append-Distinct (λ (r : Model). r.route) db.models _ c.routes
            (All-map _ _
              (λ (r : Model) (h : (text_eq r.id m.id || text_eq r.route m.route) ≡ false).
                (or_false h).1)
              db.models others);
      provided = All-append _ db.models _ c.provided (negated has_provider, tt);
    })

update_model-IsCatalog :
    {db db' : Db} (now : Time) (m : Model)
    → update_model db now m ≡ ok db'
    → IsCatalog db
    → IsCatalog db'
unfolding update_model stored_model
update_model-IsCatalog {db = db} now m e c =
    let (_, e') = not_stopped _ not_found e in
    let (free, e'') = not_stopped _ conflict e' in
    let (has_provider, e''') = not_stopped _ failed e'' in
    subst IsCatalog (ok_same e''') (record {
      provider_ids = c.provider_ids;
      model_ids =
          update_where-Distinct (λ (r : Model). r.id) (has_model_id m.id) _ (λ r. refl) db.models
            c.model_ids;
      routes =
          set-Distinct (λ (r : Model). r.route) (λ (r : Model). r.id) (has_model_id m.id) _ m.id
            m.route (λ r t. (text_eq_iff r.id m.id).0 t) (λ r. refl) db.models c.model_ids c.routes
            free;
      provided =
          All-update_where _ _ (has_model_id m.id) _
            (λ (r : Model) (h : provider_exists db r.provider_id ≡ true) t. negated has_provider)
            (λ (r : Model) (h : provider_exists db r.provider_id ≡ true) t. h) db.models c.provided;
    })

delete_model-IsCatalog :
    {db db' : Db} (id : Text) → delete_model db id ≡ ok db' → IsCatalog db → IsCatalog db'
unfolding delete_model
delete_model-IsCatalog {db = db} {db' = db'} id e c = from_row (resolve_model_by_id db id false) e
  where
    from_row :
        (r : Result RoutedModel)
        → (let whole : Result Db = elim r [
          | err x ↦ err x
          | ok m ↦
              if any (has_model_id id) db.models
              then ok (record db {
                rate_limits = delete_where (is_scope_of m) db.rate_limits;
                models = delete_where (has_model_id id) db.models;
              })
              else err not_found
        ] in
            whole ≡ ok db')
        → IsCatalog db'
    from_row (err x) h = absurd (not_ok x h)
    from_row (ok m) h =
        subst IsCatalog (let_through (any (has_model_id id) db.models) not_found h) (record {
          provider_ids = c.provider_ids;
          model_ids =
              delete_where-Distinct (λ (r : Model). r.id) (has_model_id id) db.models c.model_ids;
          routes =
              delete_where-Distinct (λ (r : Model). r.route) (has_model_id id) db.models c.routes;
          provided =
              All-map _ _
                (λ (r : Model)
                    (k : (provider_exists db r.provider_id ≡ true) × (has_model_id id r ≡ false)).
                  k.0)
                _ (All-delete_where _ (has_model_id id) db.models c.provided);
        })

Step-IsCatalog : {db db' : Db} → Step db db' → IsCatalog db → IsCatalog db'
unfolding record_provider_success succeeded update_provider updated_row
Step-IsCatalog (Step.succeeded id now e) c = row-IsCatalog id (succeeded now) (λ r. refl) e c
Step-IsCatalog (Step.failed id threshold cooldown now err_text p e) c =
    record_provider_failure-IsCatalog id threshold cooldown now err_text p e c
Step-IsCatalog (Step.provider_created now p e) c = create_provider-IsCatalog now p e c
Step-IsCatalog (Step.provider_updated now p secrets e) c =
    row-IsCatalog p.id (updated_row now p secrets) (λ r. refl) e c
Step-IsCatalog (Step.provider_deleted id e) c = delete_provider-IsCatalog id e c
Step-IsCatalog (Step.model_created now m e) c = create_model-IsCatalog now m e c
Step-IsCatalog (Step.model_updated now m e) c = update_model-IsCatalog now m e c
Step-IsCatalog (Step.model_deleted id e) c = delete_model-IsCatalog id e c

-- From a database without providers and models, the operations of providers and models lead to databases
-- in which the ids of providers and the ids and routes of models differ, and each model has its provider.
pub Reaches-IsCatalog :
    (start db : Db) → start.providers ≡ [] → start.models ≡ [] → Reaches start db → IsCatalog db
Reaches-IsCatalog start db no_providers no_models Reaches.here = record {
  provider_ids = subst (Distinct (λ (p : Provider). p.id)) (sym no_providers) tt;
  model_ids = subst (Distinct (λ (m : Model). m.id)) (sym no_models) tt;
  routes = subst (Distinct (λ (m : Model). m.route)) (sym no_models) tt;
  provided =
      subst (All (λ (m : Model). provider_exists start m.provider_id ≡ true)) (sym no_models) tt;
}
Reaches-IsCatalog start db no_providers no_models (Reaches.step {db = before} r s) =
    Step-IsCatalog s (Reaches-IsCatalog start before no_providers no_models r)
