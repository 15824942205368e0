-- ===== src/Gateway/Execution/Calls.antt =====
-- Which calls executeOpenAIPlan and executeAnthropicPlan (routing.go of internal/httpapi) make, and
-- how many.
use mathlib.Core.Path.{subst}
use phlox_gw.Common.{
  refl, All, ℕ, zero, suc, ◌+◌, ◌*◌, ◌≤◌, ◌≡◌, inl, inr, Bool, true, false, List, [], ◌∷◌, length,
  if◌then◌else◌, arith, Bool-cases,
}
use phlox_gw.Store.Types.{RoutedModel, Db}
use phlox_gw.Gateway.Health.{provider_status_is_failure, provider_status_allows_retry}
use phlox_gw.Gateway.Outside.{Outside, Request, Dialect}
use phlox_gw.Gateway.Execution.{
  Attempt, Run, gate, attempt, attempts, candidates_loop, start, execute_plan,
}
use phlox_gw.Gateway.Execution.Trace.{Gate-cases, Fails, status_of, IsPlanned, Ends, replay}
use phlox_gw.Gateway.Execution.Loops.{LoopEnds, whole_loop-Ends}

module _ (out : Outside) (req : Request) (d : Dialect) where
  not_failed :
      (a : Attempt) (xs calls : List Attempt)
      → calls ≡ a ∷ xs
      → provider_status_is_failure (status_of out req d a) ≡ false
      → All (Fails out req d) calls
      → ⊥
  not_failed a xs calls e s f =
      let f' : All (Fails out req d) (a ∷ xs) = subst (All (Fails out req d)) e f in
      let failure = f'.0 in ground (arith, s, failure)

  end-IsPlanned :
      (cs : List RoutedModel) (db : Db) (end : Bool × Run)
      → LoopEnds out req d cs db end
      → Ends out req d end
      → IsPlanned out req d cs db end.1.calls × (end.1.db ≡ replay out req d db end.1.calls)
  end-IsPlanned cs db (true, run) (left, k, ok) (a, xs, e, f, s, l) = (
    record {
      later = true;
      left = left;
      tries = k;
      trace = ok.trace;
      exhausted = λ g. absurd (not_failed a xs run.calls e s g);
    },
    ok.replayed,
  )
  end-IsPlanned cs db (false, run) (later, ok) f = (
    record { later = later; left = []; tries = 0; trace = ok.trace; exhausted = λ g. (refl, refl) },
    ok.replayed,
  )

  -- The calls of a plan form a trace: they are numbered from one without gaps; each opens the turn of
  -- a candidate that comes after those that were tried or left before it and that passes the gate (a
  -- protocol that is supported, a closed circuit if health routing is on, and admission, unless it is
  -- the first candidate) in the database that the calls before leave, or is a retry, of which the
  -- policy allows a number for each candidate, of the call before, which failed with a status that
  -- allows it; a candidate that is left out did not pass the gate; and all calls before another failed.
  -- If all calls failed, no candidate and no retry is left. The database is the one that the records of
  -- the calls make.
  pub execute_plan-IsTrace :
      (cs : List RoutedModel) (db : Db)
      → IsPlanned out req d cs db (execute_plan out req d cs db).1.calls
        × ((execute_plan out req d cs db).1.db
            ≡ replay out req d db (execute_plan out req d cs db).1.calls)
  unfolding execute_plan
  execute_plan-IsTrace cs db =
      let (ok, ends) = whole_loop-Ends out req d cs db in
      end-IsPlanned cs db (candidates_loop out req d false cs (start out req d db)) ok ends

  attempts-length :
      (left : ℕ) (r : RoutedModel) (run : Run)
      → length (attempts out req d left r run).1.calls ≤ suc left + length run.calls
  unfolding attempts attempt
  attempts-length zero r run = omega arith
  attempts-length (suc left) r run =
      let run' = attempt out req d r run in
      let more = attempts-length left r run' in
      elim (Bool-cases (provider_status_is_failure run'.last.status)) [
        | inr s ↦ rw s (omega arith)
        | inl f ↦ elim (Bool-cases (provider_status_allows_retry run'.last.status)) [
          | inl a ↦ rw (f, a) (omega (arith, more))
          | inr a ↦ rw (f, a) (omega arith)
        ]
      ]

  calls_if :
      (x rest : Bool × Run) (n : ℕ)
      → length x.1.calls ≤ n
      → length rest.1.calls ≤ n
      → length (if x.0 then x else rest).1.calls ≤ n
  calls_if (true, run) rest n h k = h
  calls_if (false, run) rest n h k = k

  candidates_loop-length :
      (later : Bool) (rs : List RoutedModel) (run : Run)
      → length (candidates_loop out req d later rs run).1.calls
        ≤ length rs * suc req.policy.retry_attempts + length run.calls
  unfolding candidates_loop
  candidates_loop-length later [] run = omega arith
  candidates_loop-length later (r ∷ rs) run =
      elim (Gate-cases (gate out req later r run.db run.moment)) [
        | inl g ↦ rw (g, candidates_loop) (omega (arith, candidates_loop-length true rs _))
        | inr (inl (s, x, y, g)) ↦
            rw (g, candidates_loop) (omega (arith, candidates_loop-length true rs _))
        | inr (inr g) ↦
            let k = req.policy.retry_attempts in
            let here = attempts out req d k r run in
            let few = attempts-length k r run in
            let more = candidates_loop-length true rs here.1 in
            rw (g, candidates_loop)
              (calls_if here _ _ (omega (arith, few)) (omega (arith, few, more)))
      ]

  -- A plan makes at most one call and its retries for each candidate.
  pub execute_plan-length :
      (cs : List RoutedModel) (db : Db)
      → length (execute_plan out req d cs db).1.calls ≤ length cs * suc req.policy.retry_attempts
  unfolding execute_plan
  execute_plan-length cs db = omega (arith, candidates_loop-length false cs (start out req d db))
