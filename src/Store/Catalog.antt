-- ===== src/Store/Catalog.antt =====
-- The tables providers and models over time: what the operations of providers.go and models.go lead to.
pub mod Providers
pub mod Kept
use phlox_gw.Common.{◌≡◌, ℕ, Bool, true, List, any, All}
use phlox_gw.Common.Int.{ℤ}
use phlox_gw.Common.Text.{Text}
use phlox_gw.Store.Types.{Time, Provider, Model, Db, ok}
use phlox_gw.Store.Distinct.{Distinct}
use phlox_gw.Store.Providers.{
  record_provider_success, record_provider_failure, create_provider, ProviderSecretUpdate,
  update_provider, delete_provider,
}
use phlox_gw.Store.Models.{provider_exists, create_model, update_model, delete_model}

-- A call of an operation that returns without an error.
pub data Step (db : Db) : Db → Type 0 where
  succeeded :
      {db' : Db} (id : Text) (now : Time) → record_provider_success db id now ≡ ok db' → Step db db'
  failed :
      {db' : Db} (id : Text) (threshold cooldown : ℤ) (now : Time) (err_text : Text) (p : Provider)
      → record_provider_failure db id threshold cooldown now err_text ≡ ok (db', p)
      → Step db db'
  provider_created :
      {db' : Db} (now : Time) (p : Provider) → create_provider db now p ≡ ok db' → Step db db'
  provider_updated :
      {db' : Db} (now : Time) (p : Provider) (secrets : ProviderSecretUpdate)
      → update_provider db now p secrets ≡ ok db'
      → Step db db'
  provider_deleted : {db' : Db} (id : Text) → delete_provider db id ≡ ok db' → Step db db'
  model_created : {db' : Db} (now : Time) (m : Model) → create_model db now m ≡ ok db' → Step db db'
  model_updated : {db' : Db} (now : Time) (m : Model) → update_model db now m ≡ ok db' → Step db db'
  model_deleted : {db' : Db} (id : Text) → delete_model db id ≡ ok db' → Step db db'

-- Some steps one after another.
pub data Reaches (start : Db) : Db → Type 0 where
  here : Reaches start start
  step : {db db' : Db} → Reaches start db → Step db db' → Reaches start db'

-- What the keys of the two tables ask.
pub record IsCatalog (db : Db) : Type 0 where
  pub provider_ids : Distinct (λ (p : Provider). p.id) db.providers
  pub model_ids : Distinct (λ (m : Model). m.id) db.models
  pub routes : Distinct (λ (m : Model). m.route) db.models
  pub provided : All (λ (m : Model). provider_exists db m.provider_id ≡ true) db.models
