-- ===== src/Store/Models/Routes.antt =====
-- The routes of the catalog: no two models share one, the statements keep that, and each enabled
-- model is found by its route.
use phlox_gw.Common.{
  ◌≡◌, refl, sym, ap, ◌∙◌, inl, inr, true, false, List, [], ◌∷◌, arith, Bool-cases, mem-select,
  mem-append_left, mem-append_right,
}
use phlox_gw.Common.Text.{Text, text_eq, text_eq_iff, text_eq_refl, is_empty, contains_byte}
use phlox_gw.Common.Text.TrimLaws.{IsTrimmed, trim_space_fixed}
use phlox_gw.Store.Types.{Model, Provider, RoutedModel, Db, ok}
use phlox_gw.Store.Providers.{scan_provider}
use phlox_gw.Store.Table.{first_row}
use phlox_gw.Store.Models.{join_providers, routed_models, matches, resolve_model}
use phlox_gw.Store.Models.Resolve.{IsResolved, resolve_model-IsResolved}
use mathlib.Core.List.{Memᴰ}
use mathlib.Core.Path.{subst}

abbrev pub HasUniqueRoutes : Db → Type 0
HasUniqueRoutes db = (a b : Model) → Memᴰ a db.models → Memᴰ b db.models → a.route ≡ b.route → a ≡ b

abbrev joined : Model → Provider → RoutedModel
joined m p = record { model = m; provider = scan_provider p }

mem-join_providers :
    (m : Model) {p : Provider} {ps : List Provider}
    → Memᴰ p ps
    → p.id ≡ m.provider_id
    → Memᴰ (joined m p) (join_providers m ps)
unfolding join_providers
mem-join_providers m (Memᴰ.head {x = q} e) h =
    let same : text_eq q.id m.provider_id ≡ true =
      (text_eq_iff q.id m.provider_id).1 (ap (λ (x : Provider). x.id) (sym e) ∙ h) in
    rw same (Memᴰ.head (ap (joined m) e))
mem-join_providers m (Memᴰ.tail {x = q} k) h = elim (Bool-cases (text_eq q.id m.provider_id)) [
  | inl e ↦ rw e (Memᴰ.tail (mem-join_providers m k h))
  | inr e ↦ rw e (mem-join_providers m k h)
]

mem-routed_models :
    {m : Model} {p : Provider} {ms : List Model} (ps : List Provider)
    → Memᴰ m ms
    → Memᴰ p ps
    → p.id ≡ m.provider_id
    → Memᴰ (joined m p) (routed_models ms ps)
unfolding routed_models
mem-routed_models {m} {p} ps (Memᴰ.head {x = n} e) k h =
    mem-append_left _
      (subst (λ n. Memᴰ (joined m p) (join_providers n ps)) e (mem-join_providers m k h))
mem-routed_models ps (Memᴰ.tail {x = n} l) k h =
    mem-append_right (join_providers n ps) (mem-routed_models ps l k h)

first_of_mem {ℓ} : {A : Type ℓ} {x : A} {xs : List A} → Memᴰ x xs → (y : A) × (first_row xs ≡ ok y)
first_of_mem (Memᴰ.head {x = y} e) = (y, refl)
first_of_mem (Memᴰ.tail {x = y} m) = (y, refl)

is_empty-contains_byte : (s : Text) (c : _) → contains_byte s c ≡ true → is_empty s ≡ false
unfolding contains_byte
is_empty-contains_byte [] c h = cc
is_empty-contains_byte (b ∷ s) c h = refl

route_of_resolved :
    (db : Db) (name : Text) (r : RoutedModel)
    → contains_byte name 47 ≡ true
    → IsResolved db name r
    → r.model.route ≡ name
route_of_resolved db name r slash h = elim h.named [ inl (_, e) ↦ e | inr (plain, _) ↦ cc ]

-- An enabled model of an enabled provider is resolved by its route, if that has a slash and no white
-- space at its ends, and routes are unique.
pub resolve_model-route :
    (db : Db) (m : Model) (p : Provider)
    → HasUniqueRoutes db
    → Memᴰ m db.models
    → Memᴰ p db.providers
    → p.id ≡ m.provider_id
    → m.enabled ≡ true
    → p.enabled ≡ true
    → IsTrimmed m.route
    → contains_byte m.route 47 ≡ true
    → (r : RoutedModel) × (resolve_model db m.route ≡ ok r) × (r.model ≡ m)
unfolding resolve_model
resolve_model-route db m p unique k l h em ep trimmed slash =
    let row = mem-routed_models db.providers k l h in
    let hit : matches m.route (joined m p) ≡ true =
      rw slash (ground (arith, text_eq_refl m.route)) in
    let (r, e) = first_of_mem (mem-select (matches m.route) row hit) in
    let found : resolve_model db m.route ≡ ok r =
      rw (trim_space_fixed m.route trimmed, is_empty-contains_byte m.route 47 slash, slash) e in
    let res = resolve_model-IsResolved db m.route r found in
    (
      r,
      found,
      unique r.model m res.row.model k
          (route_of_resolved db m.route r slash (rw (trim_space_fixed m.route trimmed) at res)),
    )
