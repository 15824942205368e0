-- ===== src/Gateway/Routing.antt =====
-- routing.go of internal/httpapi: the candidates of a request, and the policy of its retries.
pub mod Plan
pub mod Weights
pub mod Bounds
use phlox_gw.Common.{
  ℕ, zero, suc, ◌+◌, ◌-◌, ◌*◌, ◌%◌, ◌^◌, Bool, true, false, not, ◌&&◌, ◌||◌, Option, none, some,
  List, [], ◌∷◌, ◌++◌, any, ltb, leb, ◌==◌, if◌then◌else◌,
}
use phlox_gw.Common.Int.{ℤ, pos, negsuc, ltb_ℤ, leb_ℤ, pos_part}
use phlox_gw.Common.Text.{Text, codes, text_eq, is_empty}
use phlox_gw.Common.Text.Trim.{trim_space}
use phlox_gw.Common.Text.Split.{fields_func, trim_items, words, cut}
use phlox_gw.Common.Text.Numbers.{atoi, decimal}
use phlox_gw.Store.Types.{Model, RoutedModel, Db, Result, ok, err}
use phlox_gw.Store.Models.{resolve_model}

unfoldable pub route_separator : ℕ → Bool
route_separator b = b == 44 || b == 10 || b == 13 || b == 9

unfoldable pub split_route_list : Text → List Text
unfolding route_separator fields_func trim_items
split_route_list v = trim_items (fields_func route_separator v)

pub record WeightedRoute : Type 0 where
  pub route : Text
  pub weight : ℕ

-- A route and the text of its weight.
abbrev pub word_entry : List Text → Option (Text × Text)
word_entry (r ∷ []) = some (r, codes "1")
word_entry (r ∷ w ∷ []) = some (r, w)
word_entry _ = none

unfoldable pub split_weighted_route : Text → Option (Text × Text)
unfolding cut words
split_weighted_route entry = elim (cut 61 entry) [
  | some (before, after) ↦
      let route = trim_space before in
      let weight = trim_space after in
      if is_empty route || is_empty weight then none else some (route, weight)
  | none ↦ word_entry (words entry)
]

-- A weight that is a positive integer.
abbrev pub positive_weight : Text → Option ℕ → Option WeightedRoute
positive_weight route (some (suc n)) = some (record { route = route; weight = suc n })
positive_weight route _ = none

abbrev pub natural : Option ℤ → Option ℕ
natural (some (pos n)) = some n
natural _ = none

unfoldable pub weighted_entry : Text → Option WeightedRoute
unfolding split_weighted_route atoi
weighted_entry part = elim (split_weighted_route part) [
  | none ↦ none
  | some (route, text) ↦ positive_weight route (natural (atoi text))
]

unfoldable pub weighted_entries : List Text → Option (List WeightedRoute)
unfolding weighted_entry
weighted_entries [] = some []
weighted_entries (p ∷ ps) = elim (weighted_entry p) [
  | none ↦ none
  | some e ↦ elim (weighted_entries ps) [ none ↦ none | some es ↦ some (e ∷ es) ]
]

-- parseWeightedRoutes; `none` is its error.
unfoldable pub parse_weighted_routes : Text → Option (List WeightedRoute)
unfolding split_route_list weighted_entries
parse_weighted_routes raw = weighted_entries (split_route_list raw)

pub record WeightedCandidate : Type 0 where
  pub route : RoutedModel
  pub weight : ℕ

unfoldable pub weighted_candidates : Db → List WeightedRoute → List WeightedCandidate
weighted_candidates db [] = []
weighted_candidates db (e ∷ es) =
    let rest = weighted_candidates db es in
    elim (resolve_model db e.route) [
      | err _ ↦ rest
      | ok r ↦ record { route = r; weight = e.weight } ∷ rest
    ]

abbrev pub sum_weights : List WeightedCandidate → ℕ
sum_weights [] = 0
sum_weights (c ∷ cs) = c.weight + sum_weights cs

-- The value of a sum in an int of 64 bits.
abbrev pub to_int64 : ℕ → ℤ
to_int64 n = let r = n % 2 ^ 64 in if ltb r (2 ^ 63) then pos r else negsuc (2 ^ 64 - r - 1)

-- randomWeightedPick; `random` is the number that rand.Int draws below its argument.
unfoldable pub random_weighted_pick : (ℕ → ℕ) → ℕ → ℕ
random_weighted_pick random total = if leb total 1 then 0 else random total

-- The loop over the candidates; `last` is the route of the candidate before.
unfoldable pub pick_candidate : ℕ → RoutedModel → List WeightedCandidate → RoutedModel
pick_candidate pick last [] = last
pick_candidate pick last (c ∷ cs) =
    let rest = pick_candidate (pick - c.weight) c.route cs in
    if ltb pick c.weight then c.route else rest

abbrev pub choose : (ℕ → ℕ) → List WeightedCandidate → Option RoutedModel
choose random [] = none
choose random (c ∷ cs) =
    let total = to_int64 (sum_weights (c ∷ cs)) in
    if leb_ℤ total (pos 0)
    then none
    else some (pick_candidate (random_weighted_pick random (pos_part total)) c.route (c ∷ cs))

unfoldable pub select_weighted_candidate : Db → (ℕ → ℕ) → RoutedModel → Option RoutedModel
select_weighted_candidate db random primary =
    elim (parse_weighted_routes primary.model.weighted_routes) [
      | none ↦ none
      | some entries ↦ choose random (weighted_candidates db entries)
    ]

pub record RoutePlan : Type 0 where
  pub requested : RoutedModel
  pub candidates : List RoutedModel

abbrev pub seen_before : List Text → Text → Bool
seen_before seen x = any (text_eq x) seen

-- The loop over the fallback routes.
unfoldable pub add_fallbacks : Db → List Text → List Text → List RoutedModel
add_fallbacks db [] seen = []
add_fallbacks db (f ∷ fs) seen =
    let skip = add_fallbacks db fs seen in
    if seen_before seen f then skip else elim (resolve_model db f) [
      | err _ ↦ skip
      | ok r ↦
          let rest = add_fallbacks db fs (r.model.route ∷ r.model.id ∷ seen) in
          if seen_before seen r.model.id || seen_before seen r.model.route then skip else r ∷ rest
    ]

abbrev pub or_primary : RoutedModel → Option RoutedModel → RoutedModel
or_primary primary none = primary
or_primary primary (some r) = r

unfoldable pub plan_from : Db → (ℕ → ℕ) → RoutedModel → RoutePlan
plan_from db random primary =
    let first = or_primary primary (select_weighted_candidate db random primary) in
    record {
      requested = primary;
      candidates =
          first
          ∷ add_fallbacks db (split_route_list primary.model.fallback_routes)
              (first.model.route ∷ first.model.id ∷ []);
    }

unfoldable pub resolve_route_plan : Db → (ℕ → ℕ) → Text → Result RoutePlan
resolve_route_plan db random requested = elim (resolve_model db requested) [
  | err e ↦ err e
  | ok primary ↦ ok (plan_from db random primary)
]

-- The timeout is a number of nanoseconds, and there is none if it is not positive.
pub record ReliabilityPolicy : Type 0 where
  pub retry_attempts : ℕ
  pub request_timeout : ℤ
  pub health_routing_enabled : Bool

abbrev pub thirty_minutes : ℤ
thirty_minutes = pos 1_800_000_000_000

unfoldable pub reliability_policy : Model → ReliabilityPolicy
reliability_policy m =
    let retries = m.retry_attempts in
    let timeout = m.request_timeout_ms in
    let duration = to_int64 (pos_part timeout * 1_000_000) in
    record {
      retry_attempts =
          if ltb_ℤ retries (pos 0)
          then 0
          else if ltb_ℤ (pos 5) retries
          then 5
          else pos_part retries;
      request_timeout =
          if ltb_ℤ (pos 0) timeout
          then (if ltb_ℤ thirty_minutes duration then thirty_minutes else duration)
          else pos 0;
      health_routing_enabled = m.health_routing_enabled;
    }

unfoldable pub attempt_request_id : Text → ℕ → Text
attempt_request_id request_id attempt =
    if leb attempt 1 then request_id else request_id ++ (codes "-attempt-" ++ decimal attempt)
