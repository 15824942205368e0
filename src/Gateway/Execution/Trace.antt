-- ===== src/Gateway/Execution/Trace.antt =====
-- The calls that a plan makes (executeOpenAIPlan, executeAnthropicPlan of routing.go), stated on
-- the list of them alone: which calls may follow which, and what they leave in the database.
use phlox_gw.Common.{
  ℕ, suc, ◌<◌, ◌≡◌, ◌≢◌, refl, ◌⊎◌, inl, inr, Bool, true, false, List, [], ◌∷◌, length, All, arith,
}
use phlox_gw.Common.Int.{ℤ}
use phlox_gw.Common.Text.{Text}
use phlox_gw.Store.Types.{RoutedModel, Db}
use phlox_gw.Gateway.Health.{provider_status_is_failure, provider_status_allows_retry}
use phlox_gw.Gateway.Outside.{guarded, Outside, Request, Dialect}
use phlox_gw.Gateway.Execution.{
  Attempt, Run, Gate, unsupported, refused, passed, gate, answer_to, record_call,
}

pub Gate-cases :
    (g : Gate)
    → (g ≡ unsupported) ⊎ (((s : ℤ) × (x : Text) × (y : Text) × (g ≡ refused s x y)) ⊎ (g ≡ passed))
Gate-cases unsupported = inl refl
Gate-cases (refused s x y) = inr (inl (s, x, y, refl))
Gate-cases passed = inr (inr refl)

-- A call that was made before a moment.
abbrev pub Before : ℕ → Attempt → Type 0
Before t a = a.moment < t

pub All-Before : (t : ℕ) (xs : List Attempt) → All (Before t) xs → All (Before (suc t)) xs
All-Before t [] h = tt
All-Before t (x ∷ xs) (p, h) = (omega arith, All-Before t xs h)

module _ (out : Outside) (req : Request) (d : Dialect) where
  -- The status that is seen of a call, after the guardrails.
  abbrev pub status_of : Attempt → ℤ
  status_of a = (guarded out req (answer_to out req d a)).status

  abbrev pub Fails : Attempt → Type 0
  Fails a = provider_status_is_failure (status_of a) ≡ true

  -- The database after calls, the latest of which is the first of the list.
  abbrev pub replay : Db → List Attempt → Db
  replay db [] = db
  replay db (a ∷ xs) = record_call out req d a (replay db xs)

  -- The calls of a plan, the latest first, with what is left: whether a candidate was tried or left
  -- before, the candidates that were not reached, and how often the latest may still be tried again.
  -- Each call is numbered by its place, and all calls before it failed and were made before it. A call
  -- opens the turn of the next candidate, which passes the gate in the database that the calls before
  -- leave, or tries the candidate of the call before again, whose status allows that. The turn of a
  -- candidate ends when no try is left, or at a status that allows none; a candidate is left out if the
  -- gate does not pass it.
  pub data IsTrace (cs : List RoutedModel) (db : Db)
      : Bool → List RoutedModel → ℕ → List Attempt → Type 0 where
    no_calls : IsTrace cs db false cs 0 []
    opens :
        {later : Bool} {rs : List RoutedModel} {xs : List Attempt} (a : Attempt)
        → IsTrace cs db later (a.route ∷ rs) 0 xs
        → All Fails xs
        → All (Before a.moment) xs
        → a.number ≡ suc (length xs)
        → gate out req later a.route (replay db xs) a.moment ≡ passed
        → IsTrace cs db true rs req.policy.retry_attempts (a ∷ xs)
    retries :
        {later : Bool} {rs : List RoutedModel} {k : ℕ} {b : Attempt} {xs : List Attempt}
        (a : Attempt)
        → IsTrace cs db later rs (suc k) (b ∷ xs)
        → All Fails (b ∷ xs)
        → provider_status_allows_retry (status_of b) ≡ true
        → All (Before a.moment) (b ∷ xs)
        → a.number ≡ suc (suc (length xs))
        → a.route ≡ b.route
        → IsTrace cs db later rs k (a ∷ b ∷ xs)
    stops :
        {later : Bool} {rs : List RoutedModel} {k : ℕ} {b : Attempt} {xs : List Attempt}
        → IsTrace cs db later rs (suc k) (b ∷ xs)
        → Fails b
        → provider_status_allows_retry (status_of b) ≡ false
        → IsTrace cs db later rs 0 (b ∷ xs)
    leaves :
        {later : Bool} {r : RoutedModel} {rs : List RoutedModel} {xs : List Attempt} (t : ℕ)
        → IsTrace cs db later (r ∷ rs) 0 xs
        → All Fails xs
        → All (Before t) xs
        → gate out req later r (replay db xs) t ≢ passed
        → IsTrace cs db true rs 0 xs

  -- What holds of a run between two steps of the loops.
  pub record IsRun (cs : List RoutedModel) (db : Db) (later : Bool) (left : List RoutedModel)
      (tries : ℕ) (run : Run) : Type 0 where
    pub trace : IsTrace cs db later left tries run.calls
    pub replayed : run.db ≡ replay db run.calls
    pub numbered : run.attempt_seq ≡ length run.calls
    pub past : All (Before run.moment) run.calls

  -- A trace that ends where the latest call did not fail, or where nothing is left to call.
  pub record IsPlanned (cs : List RoutedModel) (db : Db) (calls : List Attempt) : Type 0 where
    pub later : Bool
    pub left : List RoutedModel
    pub tries : ℕ
    pub trace : IsTrace cs db later left tries calls
    pub exhausted : All Fails calls → (left ≡ []) × (tries ≡ 0)

  -- The runs that follow the call of an attempt: all calls failed, or the loop has returned and the
  -- latest alone did not.
  abbrev pub Ends : Bool × Run → Type 0
  Ends (true, run) =
      (a : Attempt) × (xs : List Attempt) × (run.calls ≡ a ∷ xs)
      × All Fails xs
      × (provider_status_is_failure (status_of a) ≡ false)
      × (run.last ≡ guarded out req (answer_to out req d a))
  Ends (false, run) = All Fails run.calls
