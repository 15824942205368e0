-- ===== src/Tests/Execution.antt =====
-- The theorems on the execution of plans at a concrete input, and a run: the first provider is down,
-- the second answers.
use mathlib.Core.List.{Memᴰ}
use phlox_gw.Common.{
  ℕ, Bool, ◌+◌, ◌*◌, ◌≤◌, ◌≡◌, ◌⊎◌, refl, true, false, some, none, List, [], ◌∷◌, ◌++◌, length, inl,
  inr, Bool-cases, leb, ap, select, if◌then◌else◌,
}
use phlox_gw.Common.Int.{ℤ, pos}
use phlox_gw.Common.Text.{Text, codes, text_eq}
use phlox_gw.Common.Text.Numbers.{decimal}
use phlox_gw.Common.Text.NumberLaws.{decimal-injective}
use phlox_gw.Store.Types.{Time, RoutedModel, Db, ok}
use phlox_gw.Store.Calendar.{month_bounds}
use phlox_gw.Store.Table.{order_by}
use phlox_gw.Store.Budgets.{budget_status, budget_applies, add_budgets, no_status}
use phlox_gw.Store.RateLimits.{applicable_rate_limits, limit_applies, limit_before}
use phlox_gw.Gateway.Policy.{PolicyStore, check_rate_limits}
use phlox_gw.Gateway.Policy.Database.{database}
use phlox_gw.Gateway.Json.{Codec, Members, member, end, string}
use phlox_gw.Gateway.Rules.{Regexp}
use phlox_gw.Gateway.Routing.{attempt_request_id}
use phlox_gw.Gateway.Usage.{UpstreamResult, TokenUsage}
use phlox_gw.Gateway.Outside.{Outside, Request, Dialect, open_ai_dialect}
use phlox_gw.Gateway.Execution.{
  Attempt, gate, passed, no_result, execute_plan, execute_open_ai_plan,
}
use phlox_gw.Gateway.Execution.Trace.{IsPlanned, replay}
use phlox_gw.Gateway.Execution.Answers.{Succeeds, IsLost, execute_plan-answer}
use phlox_gw.Gateway.Execution.Calls.{execute_plan-IsTrace, execute_plan-length}
use phlox_gw.Gateway.Execution.Failover.{IsUp, execute_plan_failover}
use phlox_gw.Gateway.Execution.Frame.{replay-SameRules}
use phlox_gw.Gateway.Execution.Ledger.{AreFresh, bills, execute_plan-ledger}
use phlox_gw.Tests.{noon, chat, slow, provider, guardrails, ann, key, db}

abbrev to_chat : RoutedModel
to_chat = record { model = chat; provider = provider (codes "p1") }

abbrev to_slow : RoutedModel
to_slow = record { model = slow; provider = provider (codes "p2") }

abbrev candidates : List RoutedModel
candidates = to_chat ∷ to_slow ∷ []

abbrev free_store : PolicyStore
free_store = record {
  budget_status =
      λ user priced. ok (record { blocked = false; warning = false; reason = []; items = [] });
  api_key_monthly_spend = λ id start end. ok (pos 0);
  api_key_window_usage = λ id since. ok (record { requests = pos 0; total_tokens = pos 0 });
  applicable_rate_limits = λ user route. ok [];
  rate_limit_window_usage = λ l since. ok (record { requests = pos 0; total_tokens = pos 0 });
}

abbrev answer : ℤ → UpstreamResult
answer status = record no_result {
  protocol = codes "openai";
  status = status;
  body = some (codes "{}");
}

abbrev one_up : RoutedModel → UpstreamResult
one_up r = if text_eq r.provider.id (codes "p2") then answer (pos 200) else answer (pos 503)

abbrev no_usage : TokenUsage
no_usage = record { input = pos 7; output = pos 3; total = pos 10 }

abbrev usage_name : ℕ → Text
usage_name t = 117 ∷ decimal t

abbrev no_patterns : Regexp
no_patterns = record { compile = λ s. none }

abbrev no_codec : Codec
no_codec = record { unmarshal = λ s. none; marshal = λ v. none }

abbrev pub outside : Outside
outside = record {
  clock = λ t. record noon { sec = noon.sec + t };
  usage_id = λ t. some (usage_name t);
  log_id = λ t. none;
  reads = λ db now. free_store;
  open_ai_via_anthropic = λ t r raw. one_up r;
  open_ai = λ t r raw. one_up r;
  anthropic = λ t r raw. one_up r;
  anthropic_via_open_ai = λ t r raw. one_up r;
  parse_open_ai_usage = λ body. no_usage;
  parse_anthropic_usage = λ body. no_usage;
  estimated_input = λ raw. pos 1;
  estimated_response = λ body. pos 1;
  regexp = no_patterns;
  codec = no_codec;
}

abbrev pub request : Request
request = record {
  user = ann;
  key = key;
  request_id = codes "q";
  policy = record { retry_attempts = 2; request_timeout = pos 0; health_routing_enabled = true };
  meta = record {
    method = codes "POST";
    endpoint = codes "/v1/chat/completions";
    streaming = false;
    client_ip = [];
    user_agent = [];
  };
  guardrails = guardrails;
}

abbrev raw : Members
raw = member (codes "model") (string (codes "chat/default")) end

abbrev dialect : Dialect
dialect = open_ai_dialect outside raw

runs : Unit {0}
unfolding execute_open_ai_plan execute_plan phlox_gw.Gateway.Execution.candidates_loop gate
    phlox_gw.Gateway.Execution.supported text_eq phlox_gw.Gateway.Health.provider_circuit_open
    phlox_gw.Gateway.Execution.attempts phlox_gw.Gateway.Health.provider_status_is_failure
    phlox_gw.Gateway.Execution.attempt phlox_gw.Gateway.Health.provider_status_allows_retry
    phlox_gw.Gateway.Policy.check_route_admission phlox_gw.Gateway.Policy.check_api_key_policy
    phlox_gw.Gateway.Policy.check_budget phlox_gw.Gateway.Policy.check_rate_limits open_ai_dialect
    phlox_gw.Gateway.Guardrails.Bodies.apply_output_guardrails_to_result
    phlox_gw.Gateway.Guardrails.Bodies.apply_guardrail_to_body
    phlox_gw.Gateway.Guardrails.Bodies.guardrail_action
runs = tt

abbrev numbers : List Attempt → List ℕ
numbers [] = []
numbers (a ∷ xs) = a.number ∷ numbers xs

-- Two retries of the first provider fail, then the second is called.
four_calls :
    numbers (execute_open_ai_plan outside request raw candidates db).1.calls ≡ 4 ∷ 3 ∷ 2 ∷ 1 ∷ []
unfolding runs
four_calls = refl

three_failures_then_success :
    (execute_open_ai_plan outside request raw candidates db).0.status ≡ pos 200
unfolding runs
three_failures_then_success = refl

execute_plan-IsTrace_example :
    IsPlanned outside request dialect candidates db
      (execute_plan outside request dialect candidates db).1.calls
    × ((execute_plan outside request dialect candidates db).1.db
        ≡ replay outside request dialect db
            (execute_plan outside request dialect candidates db).1.calls)
execute_plan-IsTrace_example = execute_plan-IsTrace outside request dialect candidates db

execute_plan-length_example :
    length (execute_plan outside request dialect candidates db).1.calls ≤ 2 * 3
execute_plan-length_example = execute_plan-length outside request dialect candidates db

execute_plan-answer_example :
    Succeeds outside request dialect
      (execute_plan outside request dialect candidates db).0
      (execute_plan outside request dialect candidates db).1.calls
    ⊎ IsLost outside request dialect
        (execute_plan outside request dialect candidates db).0
        (execute_plan outside request dialect candidates db).1.calls
execute_plan-answer_example = execute_plan-answer outside request dialect candidates db

-- The checks read the tables; the caller has no limits of its own, and no budget or rate limit is set.
abbrev with_tables : Outside
with_tables = record outside { reads = database }

abbrev unlimited : Request
unlimited = record request {
  key = record key { budget_usd = pos 0; rpm_limit = pos 0; tpm_limit = pos 0 };
}

abbrev free_db : Db
free_db = record db { budgets = []; rate_limits = [] }

abbrev with_dialect : Dialect
with_dialect = open_ai_dialect with_tables raw

no_budget : (d : Db) (now : Time) → d.budgets ≡ [] → budget_status d now ann true ≡ no_status
unfolding budget_status add_budgets
no_budget d now e =
    let (from, to) = month_bounds now in
    ap (λ bs. add_budgets d from to (select (budget_applies ann) bs) no_status) e

no_limit : (d : Db) → d.rate_limits ≡ [] → applicable_rate_limits d ann to_slow ≡ []
unfolding applicable_rate_limits order_by
no_limit d e = ap (λ ls. order_by limit_before (select (limit_applies ann to_slow) ls)) e

no_rules_pass :
    (d : Db) (t : ℕ) (later : Bool)
    → d.budgets ≡ []
    → d.rate_limits ≡ []
    → gate with_tables unlimited later to_slow d t ≡ passed
unfolding runs
no_rules_pass d t false no_budgets no_limits = refl
no_rules_pass d t true no_budgets no_limits =
    rw (no_budget d (with_tables.clock t) no_budgets, no_limit d no_limits, check_rate_limits) refl

to_slow-IsUp : IsUp with_tables unlimited with_dialect candidates free_db to_slow
unfolding runs
to_slow-IsUp = record {
  passes = λ later left xs t trace failed before.
      let rules = replay-SameRules with_tables unlimited with_dialect free_db xs in
      no_rules_pass (replay with_tables unlimited with_dialect free_db xs) t later rules.budgets
        rules.rate_limits;
  answers = λ t. refl;
}

execute_plan_failover_example :
    Succeeds with_tables unlimited with_dialect
      (execute_plan with_tables unlimited with_dialect candidates free_db).0
      (execute_plan with_tables unlimited with_dialect candidates free_db).1.calls
execute_plan_failover_example =
    execute_plan_failover with_tables unlimited with_dialect candidates free_db to_slow
      (Memᴰ.tail (Memᴰ.head refl)) to_slow-IsUp

tails : (s t : Text) → (117 ∷ s) ≡ (117 ∷ t) → s ≡ t
tails s t e = cc

fresh : AreFresh outside request dialect usage_name db
unfolding attempt_request_id text_eq
fresh = record {
  drawn = λ t. refl;
  distinct = λ t t' n e. n (decimal-injective t t' (tails _ _ e));
  unused = λ t n. elim (Bool-cases (leb n 1)) [
    | inl e ↦ rw (e, attempt_request_id) refl
    | inr e ↦ rw (e, attempt_request_id) refl
  ];
}

execute_plan-ledger_example :
    (execute_plan outside request dialect candidates db).1.db.usage_ledger
    ≡ db.usage_ledger
      ++ bills outside request dialect usage_name
          (execute_plan outside request dialect candidates db).1.calls
execute_plan-ledger_example =
    execute_plan-ledger outside request dialect usage_name candidates db fresh
