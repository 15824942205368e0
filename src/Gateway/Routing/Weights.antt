-- ===== src/Gateway/Routing/Weights.antt =====
-- Weighted routing splits the traffic by the weights.
use phlox_gw.Common.{
  ℕ, ◌+◌, ◌-◌, ◌<◌, ◌^◌, ◌≡◌, ap, ◌∙◌, false, some, List, [], ◌∷◌, ◌++◌, arith, ltb,
}
use phlox_gw.Common.Int.{pos, leb_ℤ}
use phlox_gw.Store.Types.{RoutedModel, Db}
use phlox_gw.Gateway.Routing.{
  WeightedRoute, WeightedCandidate, weighted_candidates, sum_weights, to_int64,
  random_weighted_pick, pick_candidate, choose, parse_weighted_routes, select_weighted_candidate,
}

sum_weights-append :
    (xs ys : List WeightedCandidate) → sum_weights (xs ++ ys) ≡ sum_weights xs + sum_weights ys
sum_weights-append [] ys = omega arith
sum_weights-append (x ∷ xs) ys = omega (arith, sum_weights-append xs ys)

pick_candidate_share :
    (xs ys : List WeightedCandidate) (c : WeightedCandidate) (last : RoutedModel) (k : ℕ)
    → k < c.weight
    → pick_candidate (sum_weights xs + k) last (xs ++ c ∷ ys) ≡ c.route
unfolding pick_candidate
pick_candidate_share [] ys c last k h = ground arith
pick_candidate_share (x ∷ xs) ys c last k h =
    let skipped : ltb (x.weight + sum_weights xs + k) x.weight ≡ false = ground arith in
    let left : x.weight + sum_weights xs + k - x.weight ≡ sum_weights xs + k = omega arith in
    rw (skipped, left) (pick_candidate_share xs ys c x.route k h)

choose_share :
    (random : ℕ → ℕ) (cs : List WeightedCandidate) (p : ℕ)
    → p < sum_weights cs
    → sum_weights cs < 2 ^ 63
    → random_weighted_pick random (sum_weights cs) ≡ p
    → (last : RoutedModel) × (choose random cs ≡ some (pick_candidate p last cs))
choose_share random [] p h small e = elim h [ ]
choose_share random (c ∷ cs) p h small e =
    let total : to_int64 (sum_weights (c ∷ cs)) ≡ pos (sum_weights (c ∷ cs)) = ground arith in
    let positive : leb_ℤ (pos (sum_weights (c ∷ cs))) (pos 0) ≡ false = ground arith in
    (c.route, rw (total, positive, e))

-- Let the weights of the candidates that resolve sum up to less than 2^63. Then of the numbers below
-- the sum that may be drawn, those that select a candidate are as many as its weight: they are an
-- interval of that length, which starts at the sum of the weights before it.
pub select_weighted_candidate_share :
    (db : Db) (random : ℕ → ℕ) (primary : RoutedModel) (entries : List WeightedRoute)
    (xs ys : List WeightedCandidate) (c : WeightedCandidate) (k : ℕ)
    → parse_weighted_routes primary.model.weighted_routes ≡ some entries
    → weighted_candidates db entries ≡ xs ++ c ∷ ys
    → sum_weights (xs ++ c ∷ ys) < 2 ^ 63
    → k < c.weight
    → random_weighted_pick random (sum_weights (xs ++ c ∷ ys)) ≡ sum_weights xs + k
    → select_weighted_candidate db random primary ≡ some c.route
unfolding select_weighted_candidate
select_weighted_candidate_share db random primary entries xs ys c k parsed split small h drawn =
    let below : sum_weights xs + k < sum_weights (xs ++ c ∷ ys) =
      omega (arith, sum_weights-append xs (c ∷ ys)) in
    let (last, chosen) =
      choose_share random (xs ++ c ∷ ys) (sum_weights xs + k) below small drawn in
    rw (parsed, select_weighted_candidate, split)
      (chosen ∙ ap some (pick_candidate_share xs ys c last k h))
