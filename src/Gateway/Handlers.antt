-- ===== src/Gateway/Handlers.antt =====
-- openAIChatCompletions and anthropicMessages (gateway.go of internal/httpapi), after the body was
-- read: guardrails, the plan, the checks of its first candidate, and then a stream or the execution of
-- the plan. The choice of a candidate for a stream is of routing.go.
pub mod Candidates
pub mod Permitted
pub mod Blocked
use phlox_gw.Common.{
  ℕ, zero, suc, Bool, true, false, not, ◌&&◌, Option, none, some, List, [], ◌∷◌, length, ◌==◌,
  if◌then◌else◌,
}
use phlox_gw.Common.Int.{ℤ, pos}
use phlox_gw.Common.Text.{Text, codes, text_eq}
use phlox_gw.Store.Types.{
  Time, RoutedModel, Provider, User, ApiKey, Db, GuardrailPolicy, Result, ok, err,
}
use phlox_gw.Gateway.Health.{record_provider_outcome}
use phlox_gw.Gateway.Policy.{check_api_key_policy, check_budget, check_rate_limits}
use phlox_gw.Gateway.Routing.{RoutePlan, resolve_route_plan, reliability_policy}
use phlox_gw.Gateway.Json.{Json, boolean, string, Members, end, member}
use phlox_gw.Gateway.Guardrails.Bodies.{
  input, apply_guardrail_to_map, guardrail_reason, guardrail_rejects_streaming_output,
}
use phlox_gw.Gateway.Usage.{
  UpstreamResult, EventMeta, TokenUsage, Call, provider_protocol, record_usage,
}
use phlox_gw.Gateway.Outside.{Outside, Request, Dialect, open_ai_dialect, anthropic_dialect}
use phlox_gw.Gateway.Execution.{
  Attempt, Gate, unsupported, refused, passed, gate, supported, execute_plan,
}

-- raw["stream"].(bool), raw["model"].(string)
unfoldable pub value_of : Text → Members → Option Json
value_of key end = none
value_of key (member k v ms) = if text_eq key k then some v else value_of key ms

abbrev flag : Option Json → Bool
flag (some (boolean b)) = b
flag _ = false

abbrev word : Option Json → Text
word (some (string s)) = s
word _ = []

unfoldable pub wants_stream : Members → Bool
unfolding value_of
wants_stream raw = flag (value_of (codes "stream") raw)

unfoldable pub model_name : Members → Text
unfolding value_of
model_name raw = word (value_of (codes "model") raw)

-- What a client gets: an error, the result of a plan, or a stream from a candidate.
pub data Reply : Type 0 where
  error : ℤ → Text → Text → Reply
  result : UpstreamResult → Reply
  stream : RoutedModel → ℤ → Reply

-- A reply, the database afterwards, and the calls of providers.
pub record Handled : Type 0 where
  pub reply : Reply
  pub db : Db
  pub calls : List Attempt

abbrev pub only_error : Db → ℤ → Text → Text → Handled
only_error db status reason type = record { reply = error status reason type; db = db; calls = [] }

-- What a stream gives when it ends (the proxies): its status, its error, its usage and its time.
pub record StreamEnd : Type 0 where
  pub status : ℤ
  pub error_text : Text
  pub usage : TokenUsage
  pub latency_ms : ℤ

-- The rest of a dialect: the streams and the errors of its handler.
pub record Surface : Type 0 where
  pub dialect : Members → Dialect
  pub proxy : ℕ → RoutedModel → Members → StreamEnd
  pub stream_protocol : RoutedModel → Text
  pub no_stream : Text
  -- openAIError writes the type that it is given, anthropicError one type for all errors.
  pub error_type : Text → Text

unfoldable pub open_ai_surface : Outside → (ℕ → RoutedModel → Members → StreamEnd) → Surface
unfolding open_ai_dialect provider_protocol
open_ai_surface out proxy = record {
  dialect = open_ai_dialect out;
  proxy = proxy;
  stream_protocol = λ r. provider_protocol r.provider;
  no_stream = codes "no available streaming provider candidate for OpenAI-compatible request";
  error_type = λ type. type;
}

unfoldable pub anthropic_surface : Outside → (ℕ → RoutedModel → Members → StreamEnd) → Surface
unfolding anthropic_dialect
anthropic_surface out proxy = record {
  dialect = anthropic_dialect out;
  proxy = proxy;
  stream_protocol = λ r. codes "anthropic";
  no_stream = codes "no available streaming Anthropic-compatible provider candidate";
  error_type = λ type. codes "api_error";
}

-- Whom a request is from.
pub record Caller : Type 0 where
  pub user : User
  pub key : ApiKey
  pub request_id : Text
  pub meta : EventMeta
  pub guardrails : GuardrailPolicy

module _ (out : Outside) where
  abbrev pub request_of : Caller → RoutePlan → Request
  request_of c plan = record {
    user = c.user;
    key = c.key;
    request_id = c.request_id;
    policy = reliability_policy plan.requested.model;
    meta = record c.meta { streaming = false };
    guardrails = c.guardrails;
  }

  -- selectOpenAIStreamCandidate, selectAnthropicStreamCandidate; `alone` tells whether there is one
  -- candidate only.
  unfoldable pub select_stream :
      Request → Text → Bool → Bool → Db → ℕ → List RoutedModel → Gate × Option (ℕ × RoutedModel)
  select_stream req nobody alone later db moment [] =
      (refused (pos 503) nobody (codes "provider_unavailable"), none)
  select_stream req nobody alone later db moment (r ∷ rs) =
      let rest = select_stream req nobody alone true db (suc moment) rs in
      elim (gate out req later r db moment) [
        | unsupported ↦ rest
        | refused status reason type ↦
            if not later && alone then (refused status reason type, none) else rest
        | passed ↦ (passed, some (moment, r))
      ]

  module _ (s : Surface) (c : Caller) where
    -- The error of the handler, with the type that its surface writes.
    abbrev pub refuse : Db → ℤ → Text → Text → Handled
    refuse db status reason type = only_error db status reason (s.error_type type)

    -- The end of a stream is recorded as the first attempt.
    unfoldable pub record_stream : ℕ → RoutedModel → StreamEnd → Db → Db
    unfolding record_usage
    record_stream moment r e db =
        let now = out.clock moment in
        let call : Call = record {
          request_id = c.request_id;
          user = c.user;
          key = c.key;
          route = r;
          protocol = s.stream_protocol r;
          usage = e.usage;
          latency_ms = e.latency_ms;
          status = e.status;
          error_text = e.error_text;
          meta = record c.meta { streaming = true };
        } in
        record_usage (out.usage_id moment) (out.log_id moment) now call
          (record_provider_outcome now r.provider.id e.status e.error_text db)

    -- The reply for the choice of a candidate.
    unfoldable pub stream_reply : Gate → Option (ℕ × RoutedModel) → Members → Db → Handled
    unfolding record_stream
    stream_reply (refused status reason type) none raw db = refuse db status reason type
    stream_reply unsupported none raw db =
        refuse db (pos 503) s.no_stream (codes "provider_unavailable")
    stream_reply passed none raw db = refuse db (pos 503) s.no_stream (codes "provider_unavailable")
    stream_reply chosen (some (moment, r)) raw db =
        let e = s.proxy moment r raw in
        record {
          reply = stream r e.status;
          db = record_stream moment r e db;
          calls = record { number = 1; moment = moment; route = r } ∷ [];
        }

    unfoldable pub handle_stream : Request → Members → List RoutedModel → Db → Handled
    handle_stream req raw candidates db =
        let (chosen, at) =
          select_stream req s.no_stream (length candidates == 1) false db 0 candidates in
        stream_reply chosen at raw db

    -- The plan is resolved and its first candidate has passed the checks.
    unfoldable pub dispatch : RoutePlan → Members → Db → Handled
    unfolding wants_stream
    dispatch plan raw db =
        let req = request_of c plan in
        if wants_stream raw
        then handle_stream req raw plan.candidates db
        else let end = execute_plan out req (s.dialect raw) plan.candidates db in
          record { reply = result end.0; db = end.1.db; calls = end.1.calls }

    unfoldable pub check_first : RoutedModel → RoutePlan → Members → Db → Handled
    check_first first plan raw db =
        let now = out.clock 0 in
        let store = out.reads db now in
        if not (supported first)
        then refuse db (pos 501) (codes "model is not on a supported provider")
            (codes "unsupported_provider")
        else elim (check_api_key_policy store now c.key first) [
          | some d ↦ refuse db d.status d.reason d.type
          | none ↦ elim (check_budget store now c.user first.model) [
            | some reason ↦ refuse db (pos 402) reason (codes "insufficient_quota")
            | none ↦ elim (check_rate_limits store now c.user first) [
              | some d ↦ refuse db d.status d.reason d.type
              | none ↦ dispatch plan raw db
            ]
          ]
        ]

    abbrev pub with_plan : Result RoutePlan → Members → Db → Handled
    with_plan (err e) raw db =
        refuse db (pos 400) (codes "unknown or disabled model") (codes "invalid_request_error")
    with_plan (ok plan) raw db = elim plan.candidates [
      | [] ↦ refuse db (pos 500) [] []
      | first ∷ _ ↦ check_first first plan raw db
    ]

    -- The handler; `random` draws the number for the weighted routes.
    unfoldable pub handle : (ℕ → ℕ) → Members → Db → Handled
    unfolding wants_stream model_name guardrail_reason
    handle random body db =
        let (raw, evaluation) = apply_guardrail_to_map out.regexp c.guardrails input body in
        if evaluation.blocked
        then refuse db (pos 400) (guardrail_reason input evaluation.findings)
            (codes "content_policy_violation")
        else if wants_stream raw && guardrail_rejects_streaming_output c.guardrails
        then refuse db (pos 400)
            (codes "streaming requests are blocked while output guardrail action is block")
            (codes "content_policy_violation")
        else with_plan (resolve_route_plan db random (model_name raw)) raw db

unfoldable pub open_ai_chat_completions :
    Outside → (ℕ → RoutedModel → Members → StreamEnd) → Caller → (ℕ → ℕ) → Members → Db → Handled
unfolding open_ai_surface
open_ai_chat_completions out proxy = handle out (open_ai_surface out proxy)

unfoldable pub anthropic_messages :
    Outside → (ℕ → RoutedModel → Members → StreamEnd) → Caller → (ℕ → ℕ) → Members → Db → Handled
unfolding anthropic_surface
anthropic_messages out proxy = handle out (anthropic_surface out proxy)
