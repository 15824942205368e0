-- ===== src/Gateway/Execution/Loops.antt =====
-- The loops of executeOpenAIPlan and executeAnthropicPlan (routing.go of internal/httpapi) make
-- traces.
use mathlib.Core.Path.{subst}
use phlox_gw.Common.{
  ℕ, zero, suc, ◌≡◌, ◌≢◌, refl, inl, inr, Bool, true, false, List, [], ◌∷◌, All, if◌then◌else◌,
  arith, Bool-cases,
}
use phlox_gw.Common.Int.{ℤ}
use phlox_gw.Common.Text.{Text}
use phlox_gw.Store.Types.{RoutedModel, Db}
use phlox_gw.Gateway.Health.{provider_status_is_failure, provider_status_allows_retry}
use phlox_gw.Gateway.Usage.{UpstreamResult}
use phlox_gw.Gateway.Outside.{Outside, Request, Dialect}
use phlox_gw.Gateway.Execution.{
  Run, Gate, unsupported, refused, passed, gate, attempt, attempts, candidates_loop, passed_over,
  start,
}
use phlox_gw.Gateway.Execution.Trace.{
  Gate-cases, All-Before, Fails, IsTrace, no_calls, opens, retries, stops, leaves, IsRun, Ends,
}

pub unsupported_not : {g : Gate} → g ≡ unsupported → g ≢ passed
unsupported_not e h = ground arith

pub refused_not : {g : Gate} (s : ℤ) (x y : Text) → g ≡ refused s x y → g ≢ passed
refused_not s x y e h = ground arith

module _ (out : Outside) (req : Request) (d : Dialect) (cs : List RoutedModel) (db : Db) where
  -- A call keeps what holds of a run, if the calls with it are a trace.
  attempt-IsRun :
      {later later' : Bool} {left left' : List RoutedModel} {k k' : ℕ} (r : RoutedModel) (run : Run)
      → IsRun out req d cs db later left k run
      → IsTrace out req d cs db later' left' k' (attempt out req d r run).calls
      → IsRun out req d cs db later' left' k' (attempt out req d r run)
  unfolding attempt
  attempt-IsRun r run ok t = record {
    trace = t;
    replayed = rw ok.replayed refl;
    numbered = omega (arith, ok.numbered);
    past = (omega arith, All-Before run.moment run.calls ok.past);
  }

  -- The runs after the turn of a candidate: if the loop goes on, no try is left.
  abbrev pub TurnEnds : List RoutedModel → Bool × Run → Type 0
  TurnEnds left (true, run) = (k : ℕ) × IsRun out req d cs db true left k run
  TurnEnds left (false, run) = IsRun out req d cs db true left 0 run

  -- The runs after the loop over candidates: if it has not returned, nothing is left.
  abbrev pub LoopEnds : Bool × Run → Type 0
  LoopEnds (true, run) = (left : List RoutedModel) × (k : ℕ) × IsRun out req d cs db true left k run
  LoopEnds (false, run) = (later : Bool) × IsRun out req d cs db later [] 0 run

  -- A loop that returns, or goes on with the rest.
  Ends-if :
      (left : List RoutedModel) (x rest : Bool × Run)
      → TurnEnds left x × Ends out req d x
      → (IsRun out req d cs db true left 0 x.1
          → All (Fails out req d) x.1.calls
          → LoopEnds rest × Ends out req d rest)
      → LoopEnds (if x.0 then x else rest) × Ends out req d (if x.0 then x else rest)
  Ends-if left (true, run) rest here more = ((left, here.0.0, here.0.1), here.1)
  Ends-if left (false, run) rest here more = more here.0 here.1

  pub opened :
      {later : Bool} {left : List RoutedModel} (r : RoutedModel) (run : Run)
      → IsRun out req d cs db later (r ∷ left) 0 run
      → All (Fails out req d) run.calls
      → gate out req later r run.db run.moment ≡ passed
      → IsTrace out req d cs db true left req.policy.retry_attempts (attempt out req d r run).calls
  unfolding attempt
  opened {later = later} r run ok failed e =
      opens _ ok.trace failed ok.past (omega (arith, ok.numbered))
        (subst (λ x. gate out req later r x run.moment ≡ passed) ok.replayed e)

  pub attempts-Ends :
      {later : Bool} {from left : List RoutedModel} {j : ℕ} (k : ℕ) (r : RoutedModel) (run : Run)
      → IsRun out req d cs db later from j run
      → All (Fails out req d) run.calls
      → IsTrace out req d cs db true left k (attempt out req d r run).calls
      → TurnEnds left (attempts out req d k r run) × Ends out req d (attempts out req d k r run)
  unfolding attempts attempt
  attempts-Ends zero r run ok failed t =
      let run' = attempt out req d r run in
      let ok' = attempt-IsRun r run ok t in
      elim (Bool-cases (provider_status_is_failure run'.last.status)) [
        | inl f ↦ rw f (ok', (f, failed))
        | inr s ↦ rw s ((0, ok'), (_, run.calls, refl, failed, s, refl))
      ]
  attempts-Ends (suc k) r run ok failed t =
      let run' = attempt out req d r run in
      let ok' = attempt-IsRun r run ok t in
      elim (Bool-cases (provider_status_is_failure run'.last.status)) [
        | inr s ↦ rw s ((suc k, ok'), (_, run.calls, refl, failed, s, refl))
        | inl f ↦ elim (Bool-cases (provider_status_allows_retry run'.last.status)) [
          | inl a ↦
              rw (f, a)
                (attempts-Ends k r run' ok' (f, failed)
                  (retries _ t (f, failed) a ok'.past (omega (arith, ok'.numbered)) refl))
          | inr e ↦ rw (f, e) (attempt-IsRun r run ok (stops t f e), (f, failed))
        ]
      ]

  -- A run that goes on with another moment and another error.
  pub moved :
      {later : Bool} {left : List RoutedModel} (r : RoutedModel) (last : UpstreamResult) (run : Run)
      → IsRun out req d cs db later (r ∷ left) 0 run
      → All (Fails out req d) run.calls
      → gate out req later r run.db run.moment ≢ passed
      → IsRun out req d cs db true left 0 (passed_over out req d last run)
  moved {later = later} r last run ok failed e = record {
    trace =
        leaves run.moment ok.trace failed ok.past
          (subst (λ x. gate out req later r x run.moment ≢ passed) ok.replayed e);
    replayed = ok.replayed;
    numbered = ok.numbered;
    past = All-Before run.moment run.calls ok.past;
  }

  pub candidates_loop-Ends :
      (later : Bool) (rs : List RoutedModel) (run : Run)
      → IsRun out req d cs db later rs 0 run
      → All (Fails out req d) run.calls
      → LoopEnds (candidates_loop out req d later rs run)
        × Ends out req d (candidates_loop out req d later rs run)
  unfolding candidates_loop
  candidates_loop-Ends later [] run ok failed = ((later, ok), failed)
  candidates_loop-Ends later (r ∷ rs) run ok failed =
      elim (Gate-cases (gate out req later r run.db run.moment)) [
        | inl e ↦
            rw (e, candidates_loop)
              (candidates_loop-Ends true rs _ (moved r _ run ok failed (unsupported_not e)) failed)
        | inr (inl (s, x, y, e)) ↦
            rw (e, candidates_loop)
              (candidates_loop-Ends true rs _ (moved r _ run ok failed (refused_not s x y e))
                failed)
        | inr (inr e) ↦
            let here = attempts out req d req.policy.retry_attempts r run in
            rw (e, candidates_loop)
              (Ends-if rs here _
                (attempts-Ends req.policy.retry_attempts r run ok failed (opened r run ok failed e))
                (λ ok' f. candidates_loop-Ends true rs here.1 ok' f))
      ]

  pub start-IsRun : IsRun out req d cs db false cs 0 (start out req d db)
  start-IsRun = record { trace = no_calls; replayed = refl; numbered = refl; past = tt }

  pub whole_loop-Ends :
      LoopEnds (candidates_loop out req d false cs (start out req d db))
      × Ends out req d (candidates_loop out req d false cs (start out req d db))
  whole_loop-Ends = candidates_loop-Ends false cs (start out req d db) start-IsRun tt
