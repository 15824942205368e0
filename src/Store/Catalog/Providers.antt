-- ===== src/Store/Catalog/Providers.antt =====
-- How the operations of providers.go act on the keys of providers and models.
use mathlib.Core.Path.{subst}
use phlox_gw.Common.{
  ◌≡◌, refl, ap, ◌∙◌, Bool, true, false, any, All-map, Option-cases, inl, inr, find, if◌then◌else◌,
  ◌*◌, ◌^◌,
}
use phlox_gw.Common.Int.{ℤ, pos, ◌+ℤ◌, pos_part}
use phlox_gw.Common.Text.{Text, text_eq, text_eq_iff}
use phlox_gw.Store.Types.{Time, Provider, Model, Db, Result, ok, err, not_found, conflict}
use phlox_gw.Store.Results.{ok_same, not_ok, let_through, not_stopped}
use phlox_gw.Store.Table.{update_where}
use phlox_gw.Store.Distinct.{
  any-false, any-append, any-update_where, any-delete_where, All-delete_where, append-Distinct,
  delete_where-Distinct, update_where-Distinct,
}
use phlox_gw.Store.Providers.{
  has_id, failed_row, or_default, get_provider, record_provider_failure, create_provider,
  delete_provider, is_model_of,
}
use phlox_gw.Store.Models.{provider_exists}
use phlox_gw.Store.Catalog.{IsCatalog}

-- An update of providers that keeps their ids.
providers-IsCatalog :
    (db : Db) (p : Provider → Bool) (f : Provider → Provider)
    → ((r : Provider) → (f r).id ≡ r.id)
    → IsCatalog db
    → IsCatalog (record db { providers = update_where p f db.providers })
providers-IsCatalog db p f ids c = record {
  provider_ids = update_where-Distinct (λ (r : Provider). r.id) p f ids db.providers c.provider_ids;
  model_ids = c.model_ids;
  routes = c.routes;
  provided =
      All-map _ _
        (λ (m : Model) (h : provider_exists db m.provider_id ≡ true).
          any-update_where (has_id m.provider_id) p f
            (λ r. ap (λ i. text_eq i m.provider_id) (ids r)) db.providers
          ∙ h)
        db.models c.provided;
}

pub row-IsCatalog :
    {db db' : Db} (id : Text) (f : Provider → Provider)
    → ((r : Provider) → (f r).id ≡ r.id)
    → (if any (has_id id) db.providers
        then ok (record db { providers = update_where (has_id id) f db.providers })
        else err not_found)
      ≡ ok db'
    → IsCatalog db
    → IsCatalog db'
row-IsCatalog {db = db} id f ids e c =
    subst IsCatalog (let_through (any (has_id id) db.providers) not_found e)
      (providers-IsCatalog db (has_id id) f ids c)

pub create_provider-IsCatalog :
    {db db' : Db} (now : Time) (p : Provider)
    → create_provider db now p ≡ ok db'
    → IsCatalog db
    → IsCatalog db'
unfolding create_provider
create_provider-IsCatalog {db = db} now p e c =
    let (new, e') = not_stopped _ conflict e in
    subst IsCatalog (ok_same e') (record {
      provider_ids =
          append-Distinct (λ (r : Provider). r.id) db.providers _ c.provider_ids
            (any-false (has_id p.id) db.providers new);
      model_ids = c.model_ids;
      routes = c.routes;
      provided =
          All-map _ _
            (λ (m : Model) (h : provider_exists db m.provider_id ≡ true).
              any-append (has_id m.provider_id) db.providers _ h)
            db.models c.provided;
    })

pub delete_provider-IsCatalog :
    {db db' : Db} (id : Text) → delete_provider db id ≡ ok db' → IsCatalog db → IsCatalog db'
unfolding delete_provider
delete_provider-IsCatalog {db = db} id e c =
    subst IsCatalog (let_through (any (has_id id) db.providers) not_found e) (record {
      provider_ids =
          delete_where-Distinct (λ (r : Provider). r.id) (has_id id) db.providers c.provider_ids;
      model_ids =
          delete_where-Distinct (λ (m : Model). m.id) (is_model_of id) db.models c.model_ids;
      routes = delete_where-Distinct (λ (m : Model). m.route) (is_model_of id) db.models c.routes;
      provided =
          All-map _ _
            (λ (m : Model)
                (h : (provider_exists db m.provider_id ≡ true)
                  × (text_eq m.provider_id id ≡ false)).
              any-delete_where (has_id m.provider_id) (has_id id)
                (λ (r : Provider) (t : text_eq r.id m.provider_id ≡ true).
                  ap (λ s. text_eq s id) ((text_eq_iff r.id m.provider_id).0 t) ∙ h.1)
                db.providers h.0)
            _ (All-delete_where _ (is_model_of id) db.models c.provided);
    })

pub kept_db :
    {d d' : Db} (r : Result Provider) {p : Provider}
    → (let whole : Result (Db × Provider) = elim r [ ok q ↦ ok (d, q) | err e ↦ err e ] in
        whole ≡ ok (d', p))
    → d ≡ d'
kept_db (ok q) h = ap (λ x. x.0) (ok_same h)
kept_db (err e) h = absurd (not_ok e h)

pub record_provider_failure-IsCatalog :
    {db db' : Db} (id : Text) (threshold cooldown : ℤ) (now : Time) (err_text : Text) (p : Provider)
    → record_provider_failure db id threshold cooldown now err_text ≡ ok (db', p)
    → IsCatalog db
    → IsCatalog db'
unfolding record_provider_failure failed_row
record_provider_failure-IsCatalog {db = db} id threshold cooldown now err_text p e c =
    elim (Option-cases (find (has_id id) db.providers)) [
      | inl f ↦ absurd (not_ok not_found (rw (record_provider_failure, f) at e))
      | inr (row, f) ↦
          let write : Provider → Provider =
            failed_row (or_default (pos 3) threshold)
              (pos_part (or_default (pos (5 * 60 * 10 ^ 9)) cooldown)) now err_text
              (row.consecutive_failures +ℤ pos 1) in
          let written : Db = record db {
            providers = update_where (has_id id) write db.providers;
          } in
          subst IsCatalog (kept_db (get_provider written id) (rw (record_provider_failure, f) at e))
            (providers-IsCatalog db (has_id id) write (λ r. refl) c)
    ]
