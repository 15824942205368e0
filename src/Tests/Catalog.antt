-- ===== src/Tests/Catalog.antt =====
-- The theorem on the keys of providers and models at concrete steps.
use phlox_gw.Common.{[], ◌∷◌, refl}
use phlox_gw.Common.Text.{codes, text_eq}
use phlox_gw.Store.Types.{Model, Db}
use phlox_gw.Store.Lists.{normalize_list, clamp_non_negative}
use phlox_gw.Store.Providers.{create_provider}
use phlox_gw.Store.Models.{create_model}
use phlox_gw.Store.Catalog.{Step, Reaches, IsCatalog}
use phlox_gw.Store.Catalog.Kept.{Reaches-IsCatalog}
use phlox_gw.Tests.{noon, provider, model, db}

abbrev bare : Db
bare = record db { providers = []; models = [] }

abbrev with_provider : Db
with_provider = record bare {
  providers = record (provider (codes "p1")) { health_status = codes "unknown" } ∷ [];
}

abbrev llama : Model
llama = model (codes "m2") (codes "p1") (codes "llama") (codes "chat/slow")

abbrev with_model : Db
with_model = record with_provider { models = llama ∷ [] }

provider_reached : Reaches bare with_provider
unfolding create_provider
provider_reached =
    Reaches.step Reaches.here (Step.provider_created noon (provider (codes "p1")) refl)

model_reached : Reaches bare with_model
unfolding create_model text_eq normalize_list clamp_non_negative
model_reached = Reaches.step provider_reached (Step.model_created noon llama refl)

Reaches-IsCatalog_example : IsCatalog with_model
Reaches-IsCatalog_example = Reaches-IsCatalog bare with_model refl refl model_reached
