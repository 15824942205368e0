-- ===== src/Gateway/Routing/Plan.antt =====
-- The candidates of a plan: each can be dispatched, and none comes twice.
use phlox_gw.Common.{
  ◌≡◌, ◌≢◌, inl, inr, false, ◌||◌, List, [], ◌∷◌, arith, All, All-map, Bool-cases, Option-cases, ℕ,
  ◌-◌, ltb,
}
use phlox_gw.Common.Int.{pos, leb_ℤ, pos_part}
use phlox_gw.Common.Text.Trim.{trim_space}
use mathlib.Core.Path.{subst}
use phlox_gw.Common.Text.{Text, text_eq_iff}
use phlox_gw.Store.Types.{RoutedModel, Db, ok, Result-cases, ok-injective}
use phlox_gw.Store.Models.{resolve_model}
use phlox_gw.Store.Models.Resolve.{IsResolved, resolve_model-IsResolved}
use phlox_gw.Gateway.Routing.{
  WeightedRoute, WeightedCandidate, weighted_candidates, pick_candidate, choose,
  select_weighted_candidate, to_int64, sum_weights, random_weighted_pick, or_primary,
  parse_weighted_routes, split_route_list, RoutePlan, seen_before, add_fallbacks, plan_from,
  resolve_route_plan,
}

-- Two models that differ in id and route.
pub record Differs (a b : RoutedModel) : Type 0 where
  pub id : b.model.id ≢ a.model.id
  pub route : b.model.route ≢ a.model.route

abbrev pub NoRepeat : List RoutedModel → Type 0
NoRepeat [] = Unit
NoRepeat (r ∷ rs) = All (Differs r) rs × NoRepeat rs

-- A model that a request may be sent to: some name resolves to it.
pub record IsServed (db : Db) (r : RoutedModel) : Type 0 where
  pub name : Text
  pub resolved : IsResolved db name r

record IsNew (seen : List Text) (r : RoutedModel) : Type 0 where
  id : seen_before seen r.model.id ≡ false
  route : seen_before seen r.model.route ≡ false

not_seen :
    (x y : Text) (seen : List Text)
    → seen_before (y ∷ seen) x ≡ false
    → (x ≢ y) × (seen_before seen x ≡ false)
not_seen x y seen h = (λ e. ground (arith, text_eq_iff x y), ground arith)

IsNew-tail : (x : Text) (seen : List Text) (r : RoutedModel) → IsNew (x ∷ seen) r → IsNew seen r
IsNew-tail x seen r n = record {
  id = (not_seen r.model.id x seen n.id).1;
  route = (not_seen r.model.route x seen n.route).1;
}

IsNew-Differs :
    (a : RoutedModel) (seen : List Text) (b : RoutedModel)
    → IsNew (a.model.route ∷ a.model.id ∷ seen) b
    → Differs a b
IsNew-Differs a seen b n = record {
  id =
      (not_seen b.model.id a.model.id seen
        (not_seen b.model.id a.model.route (a.model.id ∷ seen) n.id).1).0;
  route = (not_seen b.model.route a.model.route (a.model.id ∷ seen) n.route).0;
}

IsNew-weaken :
    (a : RoutedModel) (seen : List Text) (b : RoutedModel)
    → IsNew (a.model.route ∷ a.model.id ∷ seen) b
    → IsNew seen b
IsNew-weaken a seen b n =
    IsNew-tail a.model.id seen b (IsNew-tail a.model.route (a.model.id ∷ seen) b n)

-- What the loop over the fallback routes keeps.
record IsAdded (db : Db) (seen : List Text) (rs : List RoutedModel) : Type 0 where
  fresh : All (IsNew seen) rs
  distinct : NoRepeat rs
  served : All (IsServed db) rs

module _ (db : Db) where
  IsAdded-cons :
      (seen : List Text) (f : Text) (r : RoutedModel) (rs : List RoutedModel)
      → resolve_model db f ≡ ok r
      → (seen_before seen r.model.id || seen_before seen r.model.route) ≡ false
      → IsAdded db (r.model.route ∷ r.model.id ∷ seen) rs
      → IsAdded db seen (r ∷ rs)
  IsAdded-cons seen f r rs e new k = record {
    fresh = (
      record { id = ground arith; route = ground arith },
      All-map _ _ (IsNew-weaken r seen) rs k.fresh,
    );
    distinct = (All-map _ _ (IsNew-Differs r seen) rs k.fresh, k.distinct);
    served =
        (record { name = trim_space f; resolved = resolve_model-IsResolved db f r e }, k.served);
  }

  add_fallbacks-IsAdded : (fs seen : List Text) → IsAdded db seen (add_fallbacks db fs seen)
  unfolding add_fallbacks
  add_fallbacks-IsAdded [] seen = record { fresh = tt; distinct = tt; served = tt }
  add_fallbacks-IsAdded (f ∷ fs) seen =
      let skip = add_fallbacks-IsAdded fs seen in
      elim (Bool-cases (seen_before seen f)) [
        | inl old ↦ rw old skip
        | inr new ↦ elim (Result-cases (resolve_model db f)) [
          | inr (x, e) ↦ rw (new, e) skip
          | inl (r, e) ↦
              elim (Bool-cases (seen_before seen r.model.id || seen_before seen r.model.route)) [
                | inl known ↦ rw (new, e, known) skip
                | inr unknown ↦
                    rw (new, e, unknown)
                      (IsAdded-cons seen f r
                        (add_fallbacks db fs (r.model.route ∷ r.model.id ∷ seen)) e unknown
                        (add_fallbacks-IsAdded fs (r.model.route ∷ r.model.id ∷ seen)))
              ]
        ]
      ]

  pick_candidate-All :
      (P : RoutedModel → Type 0) (pick : ℕ) (last : RoutedModel) (cs : List WeightedCandidate)
      → P last
      → All (λ c. P c.route) cs
      → P (pick_candidate pick last cs)
  unfolding pick_candidate
  pick_candidate-All P pick last [] h k = h
  pick_candidate-All P pick last (c ∷ cs) h (p, k) = elim (Bool-cases (ltb pick c.weight)) [
    | inl e ↦ rw e p
    | inr e ↦ rw e (pick_candidate-All P (pick - c.weight) c.route cs p k)
  ]

  weighted_candidates-IsServed :
      (es : List WeightedRoute) → All (λ c. IsServed db c.route) (weighted_candidates db es)
  unfolding weighted_candidates
  weighted_candidates-IsServed [] = tt
  weighted_candidates-IsServed (e ∷ es) = elim (Result-cases (resolve_model db e.route)) [
    | inl (r, p) ↦
        rw (p, All, weighted_candidates)
          (
            record {
              name = trim_space e.route;
              resolved = resolve_model-IsResolved db e.route r p;
            },
            weighted_candidates-IsServed es,
          )
    | inr (x, p) ↦ rw (p, All, weighted_candidates) (weighted_candidates-IsServed es)
  ]

  module _ (random : ℕ → ℕ) (primary : RoutedModel) (served : IsServed db primary) where
    choose-IsServed :
        (cs : List WeightedCandidate)
        → All (λ c. IsServed db c.route) cs
        → IsServed db (or_primary primary (choose random cs))
    choose-IsServed [] k = served
    choose-IsServed (c ∷ cs) (p, k) =
        elim (Bool-cases (leb_ℤ (to_int64 (sum_weights (c ∷ cs))) (pos 0))) [
          | inl e ↦ rw e served
          | inr e ↦ rw e (
              pick_candidate-All (IsServed db)
                (random_weighted_pick random (pos_part (to_int64 (sum_weights (c ∷ cs))))) c.route
                (c ∷ cs) p (p, k))
        ]

    first-IsServed : IsServed db (or_primary primary (select_weighted_candidate db random primary))
    unfolding select_weighted_candidate
    first-IsServed = elim (Option-cases (parse_weighted_routes primary.model.weighted_routes)) [
      | inl e ↦ rw (e, or_primary, select_weighted_candidate) served
      | inr (es, e) ↦
          rw (e, or_primary, select_weighted_candidate)
            (choose-IsServed (weighted_candidates db es) (weighted_candidates-IsServed es))
    ]

-- What a plan holds: a candidate, of which no other has the id or the route, and only models that a
-- request may be sent to.
pub record IsPlan (db : Db) (plan : RoutePlan) : Type 0 where
  pub requested : IsServed db plan.requested
  pub some_candidate : plan.candidates ≢ []
  pub distinct : NoRepeat plan.candidates
  pub served : All (IsServed db) plan.candidates

fresh-Differs :
    (a : RoutedModel) (rs : List RoutedModel)
    → All (IsNew (a.model.route ∷ a.model.id ∷ [])) rs
    → All (Differs a) rs
fresh-Differs a rs h = All-map _ _ (IsNew-Differs a []) rs h

plan_from-IsPlan :
    (db : Db) (random : ℕ → ℕ) (primary : RoutedModel)
    → IsServed db primary
    → IsPlan db (plan_from db random primary)
unfolding plan_from
plan_from-IsPlan db random primary h =
    let first = or_primary primary (select_weighted_candidate db random primary) in
    let k =
      add_fallbacks-IsAdded db (split_route_list primary.model.fallback_routes)
        (first.model.route ∷ first.model.id ∷ []) in
    record {
      requested = h;
      some_candidate = cc;
      distinct = (fresh-Differs first _ k.fresh, k.distinct);
      served = (first-IsServed db random primary h, k.served);
    }

-- Whatever the random number, a plan for a requested name has a candidate; its candidates differ
-- pairwise in id and in route; and each is an enabled model of an enabled provider.
pub resolve_route_plan-IsPlan :
    (db : Db) (random : ℕ → ℕ) (requested : Text) (plan : RoutePlan)
    → resolve_route_plan db random requested ≡ ok plan
    → IsPlan db plan
unfolding resolve_route_plan
resolve_route_plan-IsPlan db random requested plan e =
    elim (Result-cases (resolve_model db requested)) [
      | inr (x, n) ↦ absurd (ground arith)
      | inl (primary, p) ↦ subst (IsPlan db) (ok-injective (rw (p, resolve_route_plan) at e)) (
          plan_from-IsPlan db random primary (record {
            name = trim_space requested;
            resolved = resolve_model-IsResolved db requested primary p;
          }))
    ]
