-- ===== src/Gateway/Execution/Answers.antt =====
-- What executeOpenAIPlan and executeAnthropicPlan (routing.go of internal/httpapi) answer: the result
-- of the call that did not fail, and an error if there is none.
use phlox_gw.Common.{
  ℕ, zero, suc, ◌≡◌, refl, ◌⊎◌, inl, inr, Bool, true, false, List, [], ◌∷◌, All, if◌then◌else◌,
  arith, Bool-cases, Option-cases,
}
use phlox_gw.Common.Int.{ℤ, pos}
use phlox_gw.Common.Text.{Text}
use phlox_gw.Store.Types.{RoutedModel, Db}
use phlox_gw.Gateway.Health.{provider_status_is_failure, provider_status_allows_retry}
use phlox_gw.Gateway.Policy.{check_route_admission}
use phlox_gw.Gateway.Policy.Denials.{IsError, check_route_admission-IsError}
use phlox_gw.Gateway.Usage.{UpstreamResult}
use phlox_gw.Gateway.Outside.{guarded, Outside, Request, Dialect}
use phlox_gw.Gateway.Execution.{
  Attempt, Run, refused, gate, answer_to, attempt, attempts, candidates_loop, start, plan_error,
  execute_plan, outcome,
}
use phlox_gw.Gateway.Execution.Trace.{Gate-cases, Fails, status_of, Ends}
use phlox_gw.Gateway.Execution.Loops.{whole_loop-Ends}

failure-IsError : (s : ℤ) → provider_status_is_failure s ≡ true → IsError s
unfolding provider_status_is_failure
failure-IsError s e = ground arith

-- The status of the last error, if there was one.
abbrev pub IsQuiet : UpstreamResult → Type 0
IsQuiet last = (last.status ≡ pos 0) ⊎ IsError last.status

module _ (out : Outside) (req : Request) where
  pub gate-IsError :
      (later : Bool) (r : RoutedModel) (db : Db) (t : ℕ) (s : ℤ) (x y : Text)
      → gate out req later r db t ≡ refused s x y
      → IsError s
  unfolding gate
  gate-IsError later r db t s x y h =
      let now = out.clock t in
      elim (Option-cases (check_route_admission (out.reads db now) now req.user req.key r)) [
        | inl e ↦ let h' = rw e at h in ground arith
        | inr (d, e) ↦
            let h' = rw e at h in
            let k = check_route_admission-IsError (out.reads db now) now req.user req.key r d e in
            ground arith
      ]

  module _ (d : Dialect) where
    attempts-IsError :
        (left : ℕ) (r : RoutedModel) (run : Run)
        → (attempts out req d left r run).0 ≡ false
        → IsError (attempts out req d left r run).1.last.status
    unfolding attempts
    attempts-IsError zero r run e = failure-IsError _ (ground arith)
    attempts-IsError (suc left) r run e =
        let run' = attempt out req d r run in
        elim (Bool-cases (provider_status_is_failure run'.last.status)) [
          | inr s ↦ let e' = rw s at e in absurd (ground arith)
          | inl f ↦ elim (Bool-cases (provider_status_allows_retry run'.last.status)) [
            | inl a ↦ rw (f, a) (attempts-IsError left r run' (rw (f, a) at e))
            | inr a ↦ rw (f, a) (failure-IsError _ f)
          ]
        ]

    -- A run that has not returned: the status of its last error.
    pub candidates_loop-IsQuiet :
        (later : Bool) (rs : List RoutedModel) (run : Run)
        → IsQuiet run.last
        → (candidates_loop out req d later rs run).0 ≡ false
        → IsQuiet (candidates_loop out req d later rs run).1.last
    unfolding candidates_loop plan_error
    candidates_loop-IsQuiet later [] run q e = q
    candidates_loop-IsQuiet later (r ∷ rs) run q e =
        elim (Gate-cases (gate out req later r run.db run.moment)) [
          | inl g ↦
              rw (g, candidates_loop)
                (candidates_loop-IsQuiet true rs _ q (rw (g, candidates_loop) at e))
          | inr (inl (s, x, y, g)) ↦
              rw (g, candidates_loop)
                (candidates_loop-IsQuiet true rs _
                  (inr (gate-IsError later r run.db run.moment s x y g))
                  (rw (g, candidates_loop) at e))
          | inr (inr g) ↦
              let here = attempts out req d req.policy.retry_attempts r run in
              rw (g, candidates_loop)
                (quiet_if here _
                  (λ h k.
                    candidates_loop-IsQuiet true rs here.1
                      (inr (attempts-IsError req.policy.retry_attempts r run h)) k)
                  (rw (g, candidates_loop) at e))
        ]
      where
        quiet_if :
            (x rest : Bool × Run)
            → (x.0 ≡ false → rest.0 ≡ false → IsQuiet rest.1.last)
            → (if x.0 then x else rest).0 ≡ false
            → IsQuiet (if x.0 then x else rest).1.last
        quiet_if (true, run) rest more h = absurd (ground arith)
        quiet_if (false, run) rest more h = more refl h

    -- The answer is that of a call that did not fail, all calls before it having failed.
    pub record Succeeds (answer : UpstreamResult) (calls : List Attempt) : Type 0 where
      pub call : Attempt
      pub before : List Attempt
      pub latest : calls ≡ call ∷ before
      pub failed : All (Fails out req d) before
      pub success : provider_status_is_failure (status_of out req d call) ≡ false
      pub answered : answer ≡ guarded out req (answer_to out req d call)

    -- Every call failed, and the answer is an error.
    pub record IsLost (answer : UpstreamResult) (calls : List Attempt) : Type 0 where
      pub failed : All (Fails out req d) calls
      pub error : IsError answer.status

    pub success_lem :
        (end : Bool × Run)
        → Ends out req d end
        → end.0 ≡ true
        → Succeeds (outcome out req d end) end.1.calls
    success_lem (false, run) ends h = absurd (ground arith)
    success_lem (true, run) (a, xs, e, f, s, l) h = record {
      call = a;
      before = xs;
      latest = e;
      failed = f;
      success = s;
      answered = l;
    }

    outcome_lem :
        (end : Bool × Run)
        → Ends out req d end
        → (end.0 ≡ false → IsQuiet end.1.last)
        → Succeeds (outcome out req d end) end.1.calls ⊎ IsLost (outcome out req d end) end.1.calls
    outcome_lem (true, run) ends q = inl (success_lem (true, run) ends refl)
    outcome_lem (false, run) ends q = inr (record {
      failed = ends;
      error = elim (q refl) [ inl z ↦ ground arith | inr z ↦ ground arith ];
    })

    -- If a call of a plan does not fail, it is the latest one and its result, after the guardrails,
    -- is the answer; else the answer is an error of status 400 or more.
    pub execute_plan-answer :
        (cs : List RoutedModel) (db : Db)
        → Succeeds (execute_plan out req d cs db).0 (execute_plan out req d cs db).1.calls
          ⊎ IsLost (execute_plan out req d cs db).0 (execute_plan out req d cs db).1.calls
    unfolding execute_plan
    execute_plan-answer cs db =
        outcome_lem _ (whole_loop-Ends out req d cs db).1
          (candidates_loop-IsQuiet false cs (start out req d db) (inl refl))
