-- ===== src/Store/Models/Resolve.antt =====
-- What the resolution of a name returns.
use phlox_gw.Common.{
  ◌≡◌, refl, ◌⊎◌, inl, inr, true, false, ◌&&◌, List, [], ◌∷◌, arith, All, All-append, All-select,
  All-map, select, Bool-cases,
}
use phlox_gw.Common.Text.{Text, text_eq, text_eq_iff, is_empty, contains_byte}
use phlox_gw.Common.Text.Trim.{trim_space}
use phlox_gw.Store.Types.{Model, Provider, RoutedModel, Db, ok, ok-injective}
use phlox_gw.Store.Providers.{scan_provider}
use phlox_gw.Store.Table.{first_row}
use phlox_gw.Store.Models.{
  join_providers, routed_models, is_enabled, sole_row, matches, resolve_model,
}
use mathlib.Core.List.{Memᴰ}
use mathlib.Core.Path.{subst}

-- A row of the join: a model of the catalog with the provider that it names.
pub record IsRow (ms : List Model) (ps : List Provider) (r : RoutedModel) : Type 0 where
  pub model : Memᴰ r.model ms
  pub row : Provider
  pub listed : Memᴰ row ps
  pub shown : r.provider ≡ scan_provider row
  pub joined : row.id ≡ r.model.provider_id

IsRow-tail :
    {ms : List Model} {ps : List Provider} (m : Model) (r : RoutedModel)
    → IsRow ms ps r
    → IsRow (m ∷ ms) ps r
IsRow-tail m r h = record {
  model = Memᴰ.tail h.model;
  row = h.row;
  listed = h.listed;
  shown = h.shown;
  joined = h.joined;
}

IsRow-tail_provider :
    {ms : List Model} {ps : List Provider} (p : Provider) (r : RoutedModel)
    → IsRow ms ps r
    → IsRow ms (p ∷ ps) r
IsRow-tail_provider p r h = record {
  model = h.model;
  row = h.row;
  listed = Memᴰ.tail h.listed;
  shown = h.shown;
  joined = h.joined;
}

join_providers-IsRow :
    (m : Model) (ms : List Model) (ps : List Provider)
    → All (IsRow (m ∷ ms) ps) (join_providers m ps)
unfolding join_providers
join_providers-IsRow m ms [] = tt
join_providers-IsRow m ms (p ∷ ps) =
    let rest =
      All-map _ _ (IsRow-tail_provider p) (join_providers m ps) (join_providers-IsRow m ms ps) in
    elim (Bool-cases (text_eq p.id m.provider_id)) [
      | inl e ↦ rw e (
        record {
          model = Memᴰ.head refl;
          row = p;
          listed = Memᴰ.head refl;
          shown = refl;
          joined = (text_eq_iff p.id m.provider_id).0 e;
        },
        rest,
      )
      | inr e ↦ rw e rest
    ]

routed_models-IsRow :
    (ms : List Model) (ps : List Provider) → All (IsRow ms ps) (routed_models ms ps)
unfolding routed_models
routed_models-IsRow [] ps = tt
routed_models-IsRow (m ∷ ms) ps =
    All-append _ (join_providers m ps) (routed_models ms ps) (join_providers-IsRow m ms ps)
      (All-map _ _ (IsRow-tail m) (routed_models ms ps) (routed_models-IsRow ms ps))

All-first {ℓ} :
    {A : Type ℓ} (P : A → Type 0) (xs : List A) (x : A) → All P xs → first_row xs ≡ ok x → P x
All-first P [] x h e = absurd (ground arith)
All-first P (y ∷ ys) x (p, h) e = subst P (ok-injective e) p

All-sole :
    (P : RoutedModel → Type 0) (xs : List RoutedModel) (x : RoutedModel)
    → All P xs
    → sole_row xs ≡ ok x
    → P x
All-sole P [] x h e = absurd (ground arith)
All-sole P (y ∷ []) x (p, h) e = subst P (ok-injective e) p
All-sole P (y ∷ z ∷ zs) x h e = absurd (ground arith)

-- What a name resolves to: a model of the catalog, enabled at an enabled provider, that has the
-- trimmed name as its route, if the name has a slash, and else as its upstream model id.
pub record IsResolved (db : Db) (name : Text) (r : RoutedModel) : Type 0 where
  pub row : IsRow db.models db.providers r
  pub enabled : (r.model.enabled ≡ true) × (r.provider.enabled ≡ true)
  pub named :
      ((contains_byte name 47 ≡ true) × (r.model.route ≡ name))
      ⊎ ((contains_byte name 47 ≡ false) × (r.model.model_id ≡ name))

pub matches-IsResolved :
    (db : Db) (name : Text) (r : RoutedModel)
    → IsRow db.models db.providers r × (matches name r ≡ true)
    → IsResolved db name r
matches-IsResolved db name r (row, m) = elim (Bool-cases (contains_byte name 47)) [
  | inl e ↦
      let m' : (text_eq r.model.route name && is_enabled r) ≡ true = (rw e at m) in
      record {
        row = row;
        enabled = (ground arith, ground arith);
        named = inl (e, (text_eq_iff r.model.route name).0 (ground arith));
      }
  | inr e ↦
      let m' : (text_eq r.model.model_id name && is_enabled r) ≡ true = (rw e at m) in
      record {
        row = row;
        enabled = (ground arith, ground arith);
        named = inr (e, (text_eq_iff r.model.model_id name).0 (ground arith));
      }
]

-- A name resolves to a model of the catalog, enabled at an enabled provider, that has the trimmed
-- name as its route, if the name has a slash, and else as its upstream model id.
pub resolve_model-IsResolved :
    (db : Db) (requested : Text) (r : RoutedModel)
    → resolve_model db requested ≡ ok r
    → IsResolved db (trim_space requested) r
unfolding resolve_model
resolve_model-IsResolved db requested r e =
    let name = trim_space requested in
    let rows = select (matches name) (routed_models db.models db.providers) in
    let all = All-map _ _ (matches-IsResolved db name) rows (
      All-select _ (matches name) (routed_models db.models db.providers)
        (routed_models-IsRow db.models db.providers)) in
    elim (Bool-cases (is_empty name)) [
      | inl empty ↦ absurd (ground arith)
      | inr full ↦ elim (Bool-cases (contains_byte name 47)) [
        | inl slash ↦ All-first (IsResolved db name) rows r all (rw (full, slash) at e)
        | inr plain ↦ All-sole (IsResolved db name) rows r all (rw (full, plain) at e)
      ]
    ]
