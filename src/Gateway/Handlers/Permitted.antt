-- ===== src/Gateway/Handlers/Permitted.antt =====
-- What the handlers of gateway.go (internal/httpapi) have checked of the routes that they call.
use mathlib.Core.Path.{subst}
use phlox_gw.Common.{
  sym, ℕ, ◌≡◌, refl, ap, ◌∙◌, ◌⊎◌, inl, inr, Bool, true, false, ◌&&◌, Option, none, some, List, [],
  ◌∷◌, length, ◌==◌, if◌then◌else◌, arith, Bool-cases, Option-cases,
}
use phlox_gw.Common.Int.{ℤ}
use phlox_gw.Common.Text.{Text}
use phlox_gw.Store.Types.{RoutedModel, Db, Result, ok, err}
use phlox_gw.Gateway.Policy.{check_api_key_policy, check_budget, check_rate_limits}
use phlox_gw.Gateway.Routing.{RoutePlan, resolve_route_plan}
use phlox_gw.Gateway.Json.{Members}
use phlox_gw.Gateway.Guardrails.Bodies.{
  input, apply_guardrail_to_map, guardrail_rejects_streaming_output,
}
use phlox_gw.Gateway.Outside.{Outside}
use phlox_gw.Gateway.Execution.{Gate, unsupported, refused, passed, supported, execute_plan}
use phlox_gw.Gateway.Execution.Trace.{replay}
use phlox_gw.Gateway.Execution.Calls.{execute_plan-IsTrace}
use phlox_gw.Gateway.Handlers.{
  Handled, Surface, Caller, result, request_of, stream_reply, handle_stream, dispatch, check_first,
  with_plan, handle, wants_stream, model_name, only_error,
}
use phlox_gw.Gateway.Handlers.Candidates.{
  IsPermitted, ArePermitted, all_checks, trace-ArePermitted, select_first-IsPermitted,
}

-- For a plan: every call goes to a route that was permitted when its turn opened, and without a call the
-- database is as it was.
pub record IsSafeFor (out : Outside) (s : Surface) (c : Caller) (plan : RoutePlan) (raw : Members)
    (db : Db) (h : Handled) : Type 0 where
  pub permitted : ArePermitted out (request_of out c plan) (s.dialect raw) db h.calls
  pub untouched : h.calls ≡ [] → h.db ≡ db

-- A request is refused before it has a plan, or it is safe for the plan that its model resolves to.
pub data IsSafe (out : Outside) (s : Surface) (c : Caller) (random : ℕ → ℕ) (raw : Members)
    (db : Db) : Handled → Type 0 where
  turned_away :
      {status : ℤ} {reason type : Text}
      → IsSafe out s c random raw db (only_error db status reason type)
  planned :
      {h : Handled} (plan : RoutePlan)
      → resolve_route_plan db random (model_name raw) ≡ ok plan
      → IsSafeFor out s c plan raw db h
      → IsSafe out s c random raw db h

module _ (out : Outside) (s : Surface) (c : Caller) (plan : RoutePlan) (raw : Members)
    (db : Db) where
  error-IsSafeFor :
      (status : ℤ) (reason type : Text)
      → IsSafeFor out s c plan raw db (only_error db status reason type)
  error-IsSafeFor status reason type = record { permitted = tt; untouched = λ _. refl }

  stream_call-IsSafeFor :
      (m : ℕ) (r : RoutedModel)
      → IsPermitted out c.user c.key db m r
      → IsSafeFor out s c plan raw db (stream_reply out s c passed (some (m, r)) raw db)
  unfolding stream_reply
  stream_call-IsSafeFor m r p = record {
    permitted = (
      record {
        turn = [];
        earlier = [];
        split = refl;
        same_route = tt;
        checked = m;
        in_time = omega arith;
        permitted = p;
      },
      tt,
    );
    untouched = λ e. absurd (ground arith);
  }

  stream_reply-IsSafeFor :
      (chosen : Gate) (at : Option (ℕ × RoutedModel))
      → ((m : ℕ) (r : RoutedModel)
          → ◌≡◌ {A = Option (ℕ × RoutedModel)} at (some (m, r))
          → IsPermitted out c.user c.key db m r)
      → IsSafeFor out s c plan raw db (stream_reply out s c chosen at raw db)
  unfolding stream_reply
  stream_reply-IsSafeFor unsupported none h = error-IsSafeFor _ _ _
  stream_reply-IsSafeFor passed none h = error-IsSafeFor _ _ _
  stream_reply-IsSafeFor (refused x y z) none h = error-IsSafeFor x y (s.error_type z)
  stream_reply-IsSafeFor unsupported (some (m, r)) h = stream_call-IsSafeFor m r (h m r refl)
  stream_reply-IsSafeFor passed (some (m, r)) h = stream_call-IsSafeFor m r (h m r refl)
  stream_reply-IsSafeFor (refused x y z) (some (m, r)) h = stream_call-IsSafeFor m r (h m r refl)

  handle_stream-IsSafeFor :
      (first : RoutedModel) (rest : List RoutedModel)
      → IsPermitted out c.user c.key db 0 first
      → IsSafeFor out s c plan raw db
          (handle_stream out s c (request_of out c plan) raw (first ∷ rest) db)
  unfolding handle_stream
  handle_stream-IsSafeFor first rest p = stream_reply-IsSafeFor _ _ (λ m r e.
      select_first-IsPermitted out (request_of out c plan) s.no_stream (length (first ∷ rest) == 1)
        db first rest m r p e)

  -- The execution of the plan.
  executed : List RoutedModel → Handled
  executed cs =
      let end = execute_plan out (request_of out c plan) (s.dialect raw) cs db in
      record { reply = result end.0; db = end.1.db; calls = end.1.calls }

  executed-IsSafeFor :
      (first : RoutedModel) (rest : List RoutedModel)
      → IsPermitted out c.user c.key db 0 first
      → IsSafeFor out s c plan raw db (executed (first ∷ rest))
  unfolding executed
  executed-IsSafeFor first rest p =
      let req = request_of out c plan in
      let (t, r) = execute_plan-IsTrace out req (s.dialect raw) (first ∷ rest) db in
      record {
        permitted = trace-ArePermitted out req (s.dialect raw) first rest db p t.trace;
        untouched = λ none_made. r ∙ ap (replay out req (s.dialect raw) db) none_made;
      }

  dispatch-IsSafeFor :
      (first : RoutedModel) (rest : List RoutedModel)
      → plan.candidates ≡ first ∷ rest
      → IsPermitted out c.user c.key db 0 first
      → IsSafeFor out s c plan raw db (dispatch out s c plan raw db)
  unfolding dispatch executed
  dispatch-IsSafeFor first rest e p =
      let req = request_of out c plan in
      elim (Bool-cases (wants_stream raw)) [
        | inl w ↦ rw w (
            subst (λ cs. IsSafeFor out s c plan raw db (handle_stream out s c req raw cs db))
              (sym e) (handle_stream-IsSafeFor first rest p))
        | inr w ↦ rw w (
            subst (λ cs. IsSafeFor out s c plan raw db (executed cs)) (sym e)
              (executed-IsSafeFor first rest p))
      ]

  check_first-IsSafeFor :
      (first : RoutedModel) (rest : List RoutedModel)
      → plan.candidates ≡ first ∷ rest
      → IsSafeFor out s c plan raw db (check_first out s c first plan raw db)
  unfolding check_first
  check_first-IsSafeFor first rest e =
      let now = out.clock 0 in
      let store = out.reads db now in
      elim (Bool-cases (supported first)) [
        | inr u ↦ rw (u, check_first) (error-IsSafeFor _ _ _)
        | inl u ↦ elim (Option-cases (check_api_key_policy store now c.key first)) [
          | inr (x, f) ↦ rw (u, check_first, f) (error-IsSafeFor _ _ _)
          | inl f ↦ elim (Option-cases (check_budget store now c.user first.model)) [
            | inr (x, g) ↦ rw (u, check_first, f, g) (error-IsSafeFor _ _ _)
            | inl g ↦ elim (Option-cases (check_rate_limits store now c.user first)) [
              | inr (x, h) ↦ rw (u, check_first, f, g, h) (error-IsSafeFor _ _ _)
              | inl h ↦
                  rw (u, check_first, f, g, h)
                    (dispatch-IsSafeFor first rest e (record {
                      is_supported = u;
                      admitted = all_checks store now c.user c.key first f g h;
                    }))
            ]
          ]
        ]
      ]

List-cases :
    (xs : List RoutedModel)
    → (xs ≡ []) ⊎ ((x : RoutedModel) × (ys : List RoutedModel) × (xs ≡ x ∷ ys))
List-cases [] = inl refl
List-cases (x ∷ xs) = inr (x, xs, refl)

module _ (out : Outside) (s : Surface) (c : Caller) (random : ℕ → ℕ) (db : Db) where
  with_plan-IsSafe :
      (p : Result RoutePlan) (raw : Members)
      → resolve_route_plan db random (model_name raw) ≡ p
      → IsSafe out s c random raw db (with_plan out s c p raw db)
  with_plan-IsSafe (err e) raw q = turned_away
  with_plan-IsSafe (ok plan) raw q = elim (List-cases plan.candidates) [
    | inl e ↦ rw (e, with_plan) turned_away
    | inr (first, rest, e) ↦
        rw (e, with_plan) (planned plan q (check_first-IsSafeFor out s c plan raw db first rest e))
  ]

  -- A handler refuses a request before it has a plan, without a call and with the database as it was,
  -- or the name of its model, after the input guardrails, resolves to a plan, and every route that the
  -- handler calls has a supported protocol and was admitted for the caller by the allowlist, the
  -- budgets and the rate limits, no later than the call, in the database that the calls before the
  -- turn of that candidate left (the first candidate in the database at the start): in between, only
  -- that route was called. If it calls none, the database stays as it was.
  pub handle-IsSafe :
      (body : Members)
      → IsSafe out s c random
          (apply_guardrail_to_map out.regexp c.guardrails input body).0
          db
          (handle out s c random body db)
  unfolding handle
  handle-IsSafe body =
      let (raw, evaluation) = apply_guardrail_to_map out.regexp c.guardrails input body in
      safe_if raw evaluation.blocked _ _ turned_away (
        safe_if raw (wants_stream raw && guardrail_rejects_streaming_output c.guardrails) _ _
          turned_away (with_plan-IsSafe (resolve_route_plan db random (model_name raw)) raw refl))
    where
      safe_if :
          (raw : Members) (b : Bool) (x y : Handled)
          → IsSafe out s c random raw db x
          → IsSafe out s c random raw db y
          → IsSafe out s c random raw db (if b then x else y)
      safe_if raw true x y p q = p
      safe_if raw false x y p q = q
