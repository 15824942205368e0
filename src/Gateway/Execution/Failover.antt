-- ===== src/Gateway/Execution/Failover.antt =====
-- A candidate that answers is reached: the failover of executeOpenAIPlan and executeAnthropicPlan
-- (routing.go of internal/httpapi).
use mathlib.Core.List.{Memᴰ}
use mathlib.Core.Path.{subst}
use phlox_gw.Common.{
  ℕ, zero, suc, ◌≡◌, refl, inl, inr, Bool, true, false, List, [], ◌∷◌, All, sym, if◌then◌else◌,
  arith,
}
use phlox_gw.Store.Types.{RoutedModel, Db}
use phlox_gw.Gateway.Health.{provider_status_is_failure}
use phlox_gw.Gateway.Outside.{guarded, Outside, Request, Dialect}
use phlox_gw.Gateway.Execution.{
  Attempt, Run, gate, passed, attempt, attempts, candidates_loop, start, execute_plan,
}
use phlox_gw.Gateway.Execution.Trace.{Gate-cases, Before, Fails, IsTrace, replay, IsRun, Ends}
use phlox_gw.Gateway.Execution.Loops.{
  TurnEnds, attempts-Ends, opened, moved, unsupported_not, refused_not, start-IsRun,
  whole_loop-Ends,
}
use phlox_gw.Gateway.Execution.Answers.{Succeeds, success_lem}

module _ (out : Outside) (req : Request) (d : Dialect) (cs : List RoutedModel) (db : Db) where
  -- A candidate that passes the gate whenever its turn comes: after each trace of calls that leads to
  -- it, in the database that these calls leave. Its own calls do not fail.
  pub record IsUp (r : RoutedModel) : Type 0 where
    pub passes :
        (later : Bool) (left : List RoutedModel) (xs : List Attempt) (t : ℕ)
        → IsTrace out req d cs db later (r ∷ left) 0 xs
        → All (Fails out req d) xs
        → All (Before t) xs
        → gate out req later r (replay out req d db xs) t ≡ passed
    pub answers : (t : ℕ) → provider_status_is_failure (guarded out req (d.call t r)).status ≡ false

  attempts_return :
      (left : ℕ) (r : RoutedModel) (run : Run) → IsUp r → (attempts out req d left r run).0 ≡ true
  unfolding attempts attempt
  attempts_return zero r run up = rw (up.answers run.moment) refl
  attempts_return (suc left) r run up = rw (up.answers run.moment) refl

  if_returns : (x rest : Bool × Run) → x.0 ≡ true → (if x.0 then x else rest).0 ≡ true
  if_returns (true, run) rest h = refl
  if_returns (false, run) rest h = absurd (ground arith)

  if_more :
      (left : List RoutedModel) (x rest : Bool × Run)
      → TurnEnds out req d cs db left x × Ends out req d x
      → (IsRun out req d cs db true left 0 x.1 → All (Fails out req d) x.1.calls → rest.0 ≡ true)
      → (if x.0 then x else rest).0 ≡ true
  if_more left (true, run) rest here more = refl
  if_more left (false, run) rest here more = more here.0 here.1

  -- The gate in the run's own database.
  run_passes :
      {later : Bool} {left : List RoutedModel} (r : RoutedModel) (run : Run)
      → IsUp r
      → IsRun out req d cs db later (r ∷ left) 0 run
      → All (Fails out req d) run.calls
      → gate out req later r run.db run.moment ≡ passed
  run_passes {later = later} {left = left} r run up ok failed =
      subst (λ x. gate out req later r x run.moment ≡ passed) (sym ok.replayed)
        (up.passes later left run.calls run.moment ok.trace failed ok.past)

  candidates_loop_returns :
      (later : Bool) (rs : List RoutedModel) (run : Run) (r : RoutedModel)
      → Memᴰ r rs
      → IsUp r
      → IsRun out req d cs db later rs 0 run
      → All (Fails out req d) run.calls
      → (candidates_loop out req d later rs run).0 ≡ true
  unfolding candidates_loop
  candidates_loop_returns later [] run r m up ok failed = elim m [ ]
  candidates_loop_returns later (c ∷ rest) run r (Memᴰ.head e) up ok failed =
      let up' : IsUp c = rw⁻¹ e up in
      let k = req.policy.retry_attempts in
      rw (run_passes c run up' ok failed, candidates_loop)
        (if_returns (attempts out req d k c run) _ (attempts_return k c run up'))
  candidates_loop_returns later (c ∷ rest) run r (Memᴰ.tail m) up ok failed =
      elim (Gate-cases (gate out req later c run.db run.moment)) [
        | inl g ↦
            rw (g, candidates_loop)
              (candidates_loop_returns true rest _ r m up
                (moved out req d cs db c _ run ok failed (unsupported_not g)) failed)
        | inr (inl (s, x, y, g)) ↦
            rw (g, candidates_loop)
              (candidates_loop_returns true rest _ r m up
                (moved out req d cs db c _ run ok failed (refused_not s x y g)) failed)
        | inr (inr g) ↦
            let k = req.policy.retry_attempts in
            let here = attempts out req d k c run in
            rw (g, candidates_loop)
              (if_more rest here _
                (attempts-Ends out req d cs db k c run ok failed
                  (opened out req d cs db c run ok failed g))
                (λ ok' f. candidates_loop_returns true rest here.1 r m up ok' f))
      ]

  -- If some candidate of a plan passes the gate whenever its turn comes, in the database that the
  -- calls before have left, and its calls do not fail, then the plan answers with the result of a call
  -- that did not fail, whatever the other candidates do.
  pub execute_plan_failover :
      (r : RoutedModel)
      → Memᴰ r cs
      → IsUp r
      → Succeeds out req d (execute_plan out req d cs db).0 (execute_plan out req d cs db).1.calls
  unfolding execute_plan
  execute_plan_failover r m up = success_lem out req d _ (whole_loop-Ends out req d cs db).1 (
      candidates_loop_returns false cs (start out req d db) r m up (start-IsRun out req d cs db) tt)
