-- ===== src/Gateway/Execution.antt =====
-- executeOpenAIPlan, executeAnthropicPlan and the choice of a candidate for a stream (routing.go of
-- internal/httpapi): the candidates are called in order, each with its retries, until one answers
-- with a status that is no failure.
pub mod Trace
pub mod Loops
pub mod Answers
pub mod Calls
pub mod Failover
pub mod Frame
pub mod Ledger
use phlox_gw.Common.{
  ℕ, zero, suc, ◌+◌, Bool, true, false, not, ◌&&◌, ◌||◌, Option, none, some, List, [], ◌∷◌, length,
  ◌==◌, if◌then◌else◌,
}
use phlox_gw.Common.Int.{ℤ, pos, eq_ℤ}
use phlox_gw.Common.Text.{Text, codes, text_eq}
use phlox_gw.Store.Types.{Time, RoutedModel, Provider, User, ApiKey, Db}
use phlox_gw.Gateway.Health.{
  provider_status_is_failure, provider_status_allows_retry, provider_circuit_open,
  record_provider_outcome,
}
use phlox_gw.Gateway.Policy.{PolicyStore, check_route_admission}
use phlox_gw.Gateway.Routing.{ReliabilityPolicy, attempt_request_id}
use phlox_gw.Gateway.Usage.{
  UpstreamResult, EventMeta, TokenUsage, Call, provider_protocol, open_ai_usage_with_fallback,
  record_usage,
}
use phlox_gw.Gateway.Json.{Members}
use phlox_gw.Gateway.Outside.{
  guarded, Outside, Request, Dialect, open_ai_dialect, anthropic_dialect,
}

-- A call that was made: its number in the request, the moment and the candidate.
pub record Attempt : Type 0 where
  pub number : ℕ
  pub moment : ℕ
  pub route : RoutedModel

-- The variables of the loops, the database, and the calls that were made, the latest first.
pub record Run : Type 0 where
  pub db : Db
  pub moment : ℕ
  pub attempt_seq : ℕ
  pub last : UpstreamResult
  pub calls : List Attempt

-- The zero upstreamResult.
abbrev pub no_result : UpstreamResult
no_result = record {
  route = none;
  protocol = [];
  status = pos 0;
  headers = none;
  body = none;
  error_text = [];
  latency_ms = pos 0;
}

-- openAIPlanError
unfoldable pub plan_error : Dialect → RoutedModel → ℤ → Text → UpstreamResult
plan_error d r status reason = record no_result {
  route = some r;
  protocol = d.error_protocol r;
  status = status;
  error_text = reason;
}

unfoldable pub supported : RoutedModel → Bool
unfolding provider_protocol
supported r =
    let protocol = provider_protocol r.provider in
    text_eq protocol (codes "openai")
    || text_eq protocol (codes "bedrock")
    || text_eq protocol (codes "anthropic")

-- What the head of a loop does with a candidate: it leaves it, leaves it with a status, a reason and
-- a type of error, or goes on.
pub data Gate : Type 0 where
  unsupported : Gate
  refused : ℤ → Text → Text → Gate
  passed : Gate

module _ (out : Outside) (req : Request) where
  -- `later` tells whether a candidate comes before this one.
  unfoldable pub gate : Bool → RoutedModel → Db → ℕ → Gate
  gate later r db moment =
      let (is_open, reason) = provider_circuit_open r.provider (out.clock moment) in
      if not (supported r)
      then unsupported
      else if req.policy.health_routing_enabled && is_open
      then refused (pos 503) reason (codes "provider_unavailable")
      else if later
      then elim (check_route_admission (out.reads db (out.clock moment)) (out.clock moment) req.user
          req.key r) [ none ↦ passed | some d ↦ refused d.status d.reason d.type ]
      else passed

  module _ (d : Dialect) where
    abbrev pub answer_to : Attempt → UpstreamResult
    answer_to a = d.call a.moment a.route

    -- What is recorded of the usage of a call.
    abbrev pub usage_of : Attempt → Call
    usage_of a =
        let answer = answer_to a in
        let result = guarded out req answer in
        record {
          request_id = attempt_request_id req.request_id a.number;
          user = req.user;
          key = req.key;
          route = a.route;
          protocol = d.recorded_protocol result;
          usage = d.usage answer;
          latency_ms = result.latency_ms;
          status = result.status;
          error_text = result.error_text;
          meta = req.meta;
        }

    -- What a call leaves in the database: the outcome of its provider and its usage.
    unfoldable pub record_call : Attempt → Db → Db
    unfolding record_usage
    record_call a db =
        let answer = answer_to a in
        let now = out.clock a.moment in
        record_usage (out.usage_id a.moment) (out.log_id a.moment) now (usage_of a)
          (record_provider_outcome now a.route.provider.id answer.status answer.error_text db)

    unfoldable pub attempt : RoutedModel → Run → Run
    attempt r run =
        let a : Attempt = record { number = suc run.attempt_seq; moment = run.moment; route = r } in
        record {
          db = record_call a run.db;
          moment = suc run.moment;
          attempt_seq = suc run.attempt_seq;
          last = guarded out req (answer_to a);
          calls = a ∷ run.calls;
        }

    -- The loop over the attempts, of which `left` may follow this one; true if it returns.
    unfoldable pub attempts : ℕ → RoutedModel → Run → Bool × Run
    attempts zero r run =
        let run' = attempt r run in (not (provider_status_is_failure run'.last.status), run')
    attempts (suc left) r run =
        let run' = attempt r run in
        let more = attempts left r run' in
        if not (provider_status_is_failure run'.last.status)
        then (true, run')
        else if provider_status_allows_retry run'.last.status
        then more
        else (false, run')

    -- The next moment, with the error of a candidate that was left, if it has one.
    abbrev pub passed_over : UpstreamResult → Run → Run
    passed_over last run = record run { moment = suc run.moment; last = last }

    unfoldable pub candidates_loop : Bool → List RoutedModel → Run → Bool × Run
    candidates_loop later [] run = (false, run)
    candidates_loop later (r ∷ rs) run = elim (gate later r run.db run.moment) [
      | unsupported ↦ candidates_loop true rs (passed_over run.last run)
      | refused status reason type ↦
          candidates_loop true rs (passed_over (plan_error d r status reason) run)
      | passed ↦
          let here = attempts req.policy.retry_attempts r run in
          let rest = candidates_loop true rs here.1 in if here.0 then here else rest
    ]

    abbrev pub start : Db → Run
    start db = record { db = db; moment = 0; attempt_seq = 0; last = no_result; calls = [] }

    abbrev pub outcome : Bool × Run → UpstreamResult
    outcome (returned, run) =
        if not returned && eq_ℤ run.last.status (pos 0)
        then record no_result { status = pos 503; error_text = d.nobody }
        else run.last

    unfoldable pub execute_plan : List RoutedModel → Db → UpstreamResult × Run
    execute_plan candidates db =
        let end = candidates_loop false candidates (start db) in (outcome end, end.1)

  unfoldable pub execute_open_ai_plan : Members → List RoutedModel → Db → UpstreamResult × Run
  unfolding open_ai_dialect
  execute_open_ai_plan raw = execute_plan (open_ai_dialect out raw)

  unfoldable pub execute_anthropic_plan : Members → List RoutedModel → Db → UpstreamResult × Run
  unfolding anthropic_dialect
  execute_anthropic_plan raw = execute_plan (anthropic_dialect out raw)
