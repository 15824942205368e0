-- ===== src/Tests/Gateway.antt =====
-- The theorems on the gateway at concrete inputs, and runs of its definitions.
use phlox_gw.Common.{
  ℕ, ◌+◌, ◌≡◌, ◌≢◌, refl, ◌↔◌, true, false, some, none, [], ◌∷◌, List, ◌≤◌, arith, min,
}
use phlox_gw.Common.Int.{pos, ◌≤ℤ◌}
use phlox_gw.Common.Text.{Text, codes, text_eq, contains_byte}
use phlox_gw.Common.Text.Trim.{trim_space}
use phlox_gw.Common.Text.Numbers.{decimal}
use phlox_gw.Store.Types.{Provider, RoutedModel, ok}
use phlox_gw.Store.Models.{resolve_model}
use phlox_gw.Store.Clock.{after}
use phlox_gw.Store.Providers.{add_duration}
use phlox_gw.Store.Budgets.{api_key_monthly_spend, budget_status}
use phlox_gw.Store.RateLimits.{
  api_key_window_usage, applicable_rate_limits, rate_limit_window_usage,
}
use phlox_gw.Gateway.Policy.{
  check_route_admission, check_api_key_policy, check_budget, check_rate_limits,
}
use phlox_gw.Gateway.Policy.Database.{database}
use phlox_gw.Gateway.Policy.Admission.{IsAdmitted}
use phlox_gw.Gateway.Policy.Admitted.{check_route_admission_iff}
use phlox_gw.Gateway.Health.{provider_circuit_open, provider_status_is_failure}
use phlox_gw.Gateway.Health.Circuit.{
  Outcome, replay, row, should_be_open, circuit_open-replay, replay_other,
}
use phlox_gw.Gateway.Routing.{
  RoutePlan, WeightedRoute, WeightedCandidate, parse_weighted_routes, weighted_candidates,
  select_weighted_candidate, random_weighted_pick, pick_candidate, resolve_route_plan, plan_from,
  split_route_list, add_fallbacks, reliability_policy, thirty_minutes, attempt_request_id,
}
use phlox_gw.Gateway.Routing.Plan.{IsPlan, resolve_route_plan-IsPlan}
use phlox_gw.Gateway.Routing.Weights.{select_weighted_candidate_share}
use phlox_gw.Gateway.Routing.Bounds.{
  reliability_policy_bounds, reliability_policy_timeout, attempt_request_id-ne,
}
use phlox_gw.Tests.{at, noon, chat, slow, db, provider, ann, key}

abbrev to_chat : RoutedModel
to_chat = record { model = chat; provider = provider (codes "p1") }

abbrev to_slow : RoutedModel
to_slow = record { model = slow; provider = provider (codes "p2") }

checks : Unit {0}
unfolding check_route_admission check_api_key_policy check_budget check_rate_limits text_eq
    api_key_monthly_spend api_key_window_usage budget_status applicable_rate_limits
    rate_limit_window_usage
checks = tt

-- The minute before noon is empty, and the month has one record.
admitted : check_route_admission (database db noon) noon ann key to_chat ≡ none
unfolding checks
admitted = refl

check_route_admission_iff_example :
    (check_route_admission (database db noon) noon ann key to_chat ≡ none)
    ↔ IsAdmitted (database db noon) noon ann key to_chat
check_route_admission_iff_example =
    check_route_admission_iff (database db noon) noon ann key to_chat

-- Soon after the record the limit of one request for each minute is reached.
denied :
    check_route_admission (database db (at 1_769_947_030 0)) (at 1_769_947_030 0) ann key to_chat
    ≡ some (record {
      status = pos 429;
      reason = codes "model chat/default requests per minute limit exceeded";
      type = codes "rate_limit_exceeded";
    })
unfolding checks
denied = refl

abbrev bad : ℕ → Outcome
bad s = record { at = at s 0; status = pos 503; error = codes "down" }

abbrev history : List Outcome
history = bad 130 ∷ bad 120 ∷ bad 110 ∷ record { at = at 100 0; status = pos 200; error = [] } ∷ []

p1_row : row (codes "p1") db ≡ some (provider (codes "p1"))
unfolding text_eq
p1_row = refl

circuit_open-replay_example :
    (q : Provider) × (row (codes "p1") (replay (codes "p1") history db) ≡ some q)
    × ((provider_circuit_open q (at 400 0)).0 ≡ should_be_open history (at 400 0))
circuit_open-replay_example =
    circuit_open-replay db (codes "p1") history (at 400 0) (provider (codes "p1")) p1_row
      (record { no_failures = refl; closed = refl })

open_then : (should_be_open history (at 400 0) ≡ true) × (should_be_open history (at 430 0) ≡ false)
unfolding should_be_open provider_status_is_failure after add_duration
open_then = (refl, refl)

p1_ne_p2 : codes "p1" ≢ codes "p2"
p1_ne_p2 e = ground arith

replay_other_example : row (codes "p2") (replay (codes "p1") history db) ≡ row (codes "p2") db
replay_other_example = replay_other db (codes "p1") (codes "p2") history p1_ne_p2

abbrev last_number : ℕ → ℕ
last_number n = 3

plans : Unit {0}
unfolding resolve_route_plan plan_from select_weighted_candidate parse_weighted_routes
    weighted_candidates random_weighted_pick pick_candidate add_fallbacks split_route_list
    resolve_model trim_space contains_byte text_eq
plans = tt

-- The number 3 of 0 to 3 falls to the route of weight 1, which is then no fallback again.
abbrev plan : RoutePlan
plan = record { requested = to_chat; candidates = to_slow ∷ [] }

planned : resolve_route_plan db last_number (codes "chat/default") ≡ ok plan
unfolding plans
planned = refl

resolve_route_plan-IsPlan_example : IsPlan db plan
resolve_route_plan-IsPlan_example =
    resolve_route_plan-IsPlan db last_number (codes "chat/default") plan planned

abbrev entry : Text → ℕ → WeightedRoute
entry r n = record { route = r; weight = n }

abbrev weighted : RoutedModel → ℕ → WeightedCandidate
weighted r n = record { route = r; weight = n }

parsed :
    parse_weighted_routes chat.weighted_routes
    ≡ some (entry (codes "chat/default") 3 ∷ entry (codes "chat/slow") 1 ∷ [])
unfolding plans
parsed = refl

split_up :
    weighted_candidates db (entry (codes "chat/default") 3 ∷ entry (codes "chat/slow") 1 ∷ [])
    ≡ weighted to_chat 3 ∷ weighted to_slow 1 ∷ []
unfolding plans
split_up = refl

drawn : random_weighted_pick last_number 4 ≡ 3 + 0
unfolding random_weighted_pick
drawn = refl

select_weighted_candidate_share_example :
    select_weighted_candidate db last_number to_chat ≡ some to_slow
select_weighted_candidate_share_example =
    select_weighted_candidate_share db last_number to_chat
      (entry (codes "chat/default") 3 ∷ entry (codes "chat/slow") 1 ∷ []) (weighted to_chat 3 ∷ [])
      [] (weighted to_slow 1) 0 parsed split_up (omega arith) (omega arith) drawn

reliability_policy_bounds_example :
    ((reliability_policy chat).retry_attempts ≤ 5)
    × ((reliability_policy chat).request_timeout ≤ℤ thirty_minutes)
reliability_policy_bounds_example = reliability_policy_bounds chat

reliability_policy_timeout_example :
    (reliability_policy chat).request_timeout ≡ pos (min 2_500_000_000 1_800_000_000_000)
reliability_policy_timeout_example = reliability_policy_timeout chat 2499 refl (omega arith)

attempt_request_id-ne_example :
    attempt_request_id (codes "req_1") 1 ≢ attempt_request_id (codes "req_1") 2
attempt_request_id-ne_example =
    attempt_request_id-ne (codes "req_1") 1 2 (omega arith) (omega arith) (omega arith)

third_attempt : attempt_request_id (codes "req_1") 13 ≡ codes "req_1-attempt-13"
unfolding attempt_request_id decimal
third_attempt = refl
