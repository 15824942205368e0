-- ===== src/Gateway/Execution/Ledger.antt =====
-- The ledger after a plan (executeOpenAIPlan, executeAnthropicPlan of routing.go, recordUsage of
-- usage.go, InsertUsage of internal/store/usage.go): every call is in it, once.
use phlox_gw.Common.{
  ℕ, suc, ◌<◌, ◌≡◌, ◌≢◌, refl, sym, ap, ◌∙◌, append-nil, inl, inr, Bool, false, ◌||◌, Option, none,
  some, List, [], ◌∷◌, ◌++◌, append_assoc, find, any, length, All, arith, Bool-cases, Option-cases,
}
use phlox_gw.Common.Int.{ℤ}
use phlox_gw.Common.Text.{Text, text_eq, text_eq_iff}
use phlox_gw.Store.Types.{
  Time, RoutedModel, UsageRecord, RequestLogRecord, Provider, Db, Result, ok, err,
}
use phlox_gw.Store.Providers.{has_id, record_provider_failure, record_provider_success}
use phlox_gw.Store.Usage.{insert_usage, insert_request_log}
use phlox_gw.Gateway.Health.{provider_status_is_failure, record_provider_outcome}
use phlox_gw.Gateway.Routing.{attempt_request_id}
use phlox_gw.Gateway.Routing.Bounds.{attempt_request_id-ne}
use phlox_gw.Gateway.Usage.{usage_row, record_usage, Call}
use phlox_gw.Gateway.Outside.{Outside, Request, Dialect}
use phlox_gw.Gateway.Execution.{Attempt, answer_to, record_call, usage_of, execute_plan}
use phlox_gw.Gateway.Execution.Trace.{
  Before, IsTrace, no_calls, opens, retries, stops, leaves, replay,
}
use phlox_gw.Gateway.Execution.Calls.{execute_plan-IsTrace}

-- The providers after a failure are read back, and nothing else is looked at.
read_back_ledger :
    (r : Result Provider) (db : Db) (ps : List Provider)
    → (elim (elim r as (λ _. Result (Db × Provider)) [
      | ok p ↦ ok (record db { providers = ps }, p)
      | err e ↦ err e
    ])
        as (λ _. Db) [ ok x ↦ x.0 | err _ ↦ db ]).usage_ledger
      ≡ db.usage_ledger
read_back_ledger (ok p) db ps = refl
read_back_ledger (err e) db ps = refl

outcome_ledger :
    (now : Time) (id : Text) (status : ℤ) (x : Text) (db : Db)
    → (record_provider_outcome now id status x db).usage_ledger ≡ db.usage_ledger
unfolding record_provider_outcome record_provider_failure record_provider_success
outcome_ledger now id status x db = elim (Bool-cases (provider_status_is_failure status)) [
  | inl f ↦ elim (Option-cases (find (has_id id) db.providers)) [
    | inl e ↦ rw (f, e) refl
    | inr (row, e) ↦ rw (f, e) (read_back_ledger _ db _)
  ]
  | inr f ↦ elim (Bool-cases (any (has_id id) db.providers)) [
    | inl e ↦ rw (f, e) refl
    | inr e ↦ rw (f, e) refl
  ]
]

log_ledger :
    (r : RequestLogRecord) (db : Db) → (insert_request_log r db).usage_ledger ≡ db.usage_ledger
unfolding insert_request_log
log_ledger r db = ground arith

abbrev clashes : UsageRecord → UsageRecord → Bool
clashes r x = text_eq x.id r.id || text_eq x.request_id r.request_id

usage_ledger_lem :
    (id : Text) (log_id : Option Text) (now : Time) (c : Call) (db : Db)
    → any (clashes (usage_row id now c)) db.usage_ledger ≡ false
    → (record_usage (some id) log_id now c db).usage_ledger
      ≡ db.usage_ledger ++ usage_row id now c ∷ []
unfolding record_usage insert_usage
usage_ledger_lem id none now c db e = rw e refl
usage_ledger_lem id (some l) now c db e = rw (log_ledger, e) refl

text_ne : (s t : Text) → s ≢ t → text_eq s t ≡ false
text_ne s t n = elim (Bool-cases (text_eq s t)) [
  | inl e ↦ absurd (n ((text_eq_iff s t).0 e))
  | inr e ↦ e
]

any_append :
    (p : UsageRecord → Bool) (xs ys : List UsageRecord)
    → any p xs ≡ false
    → any p ys ≡ false
    → any p (xs ++ ys) ≡ false
any_append p [] ys e f = f
any_append p (x ∷ xs) ys e f = ground (arith, any_append p xs ys)

module _ (out : Outside) (req : Request) (d : Dialect) (ids : ℕ → Text) where
  -- The usage record of a call.
  abbrev pub bill : Attempt → UsageRecord
  bill a = usage_row (ids a.moment) (out.clock a.moment) (usage_of out req d a)

  -- The usage records of calls, in the order in which they were made.
  abbrev pub bills : List Attempt → List UsageRecord
  bills [] = []
  bills (a ∷ xs) = bills xs ++ bill a ∷ []

  -- The random ids are there, differ, and neither they nor the ids of the attempts are in the ledger.
  pub record AreFresh (db : Db) : Type 0 where
    pub drawn : (t : ℕ) → out.usage_id t ≡ some (ids t)
    pub distinct : (t t' : ℕ) → t ≢ t' → ids t ≢ ids t'
    pub unused :
        (t n : ℕ)
        → any
            (λ x.
              text_eq x.id (ids t) || text_eq x.request_id (attempt_request_id req.request_id n))
            db.usage_ledger
          ≡ false

  -- The calls are numbered by their places, and each was made after those before it.
  abbrev InOrder : List Attempt → Type 0
  InOrder [] = Unit
  InOrder (a ∷ xs) = (a.number ≡ suc (length xs)) × All (Before a.moment) xs × InOrder xs

  IsTrace-InOrder :
      {cs : List RoutedModel} {db : Db} {later : Bool} {left : List RoutedModel} {k : ℕ}
      {xs : List Attempt}
      → IsTrace out req d cs db later left k xs
      → InOrder xs
  IsTrace-InOrder no_calls = tt
  IsTrace-InOrder (opens a t f b n g) = (n, b, IsTrace-InOrder t)
  IsTrace-InOrder (retries a t f r b n s) = (n, b, IsTrace-InOrder t)
  IsTrace-InOrder (stops t f r) = IsTrace-InOrder t
  IsTrace-InOrder (leaves m t f b g) = IsTrace-InOrder t

  bills_differ :
      (db : Db)
      → AreFresh db
      → (a : Attempt) (xs : List Attempt) → length xs < a.number
      → All (Before a.moment) xs
      → InOrder xs
      → any (clashes (bill a)) (bills xs) ≡ false
  unfolding usage_row
  bills_differ db fresh a [] l b o = refl
  bills_differ db fresh a (x ∷ xs) l (p, b) (n, q, o) =
      let moments =
        text_ne (ids x.moment) (ids a.moment)
          (fresh.distinct x.moment a.moment (λ e. omega (arith, e, p))) in
      let numbers : text_eq (attempt_request_id req.request_id x.number)
            (attempt_request_id req.request_id a.number)
          ≡ false =
        text_ne _ _ (
          attempt_request_id-ne req.request_id x.number a.number (omega (arith, n))
            (omega (arith, l)) (λ e. omega (arith, e, n, l))) in
      any_append _ (bills xs) (bill x ∷ []) (bills_differ db fresh a xs (omega arith) b o)
        (rw (moments, numbers) refl)

  replay_ledger :
      (db : Db)
      → AreFresh db
      → (xs : List Attempt) → InOrder xs
      → (replay out req d db xs).usage_ledger ≡ db.usage_ledger ++ bills xs
  unfolding record_call
  replay_ledger db fresh [] o = sym (append-nil db.usage_ledger)
  replay_ledger db fresh (a ∷ xs) (n, b, o) =
      let answer = answer_to out req d a in
      let now = out.clock a.moment in
      let before = replay out req d db xs in
      let db' =
        record_provider_outcome now a.route.provider.id answer.status answer.error_text before in
      let same : db'.usage_ledger ≡ db.usage_ledger ++ bills xs =
        outcome_ledger now a.route.provider.id answer.status answer.error_text before
        ∙ replay_ledger db fresh xs o in
      let free : any (clashes (bill a)) db'.usage_ledger ≡ false = rw same (
        any_append (clashes (bill a)) db.usage_ledger (bills xs) (fresh.unused a.moment a.number)
          (bills_differ db fresh a xs (omega (arith, n)) b o)) in
      rw (fresh.drawn a.moment) (
        usage_ledger_lem (ids a.moment) (out.log_id a.moment) now (usage_of out req d a) db' free
        ∙ (ap (λ l. l ++ bill a ∷ []) same ∙ append_assoc db.usage_ledger (bills xs) (bill a ∷ [])))

  -- If the random ids are drawn, differ, and are not in the ledger, nor are the request ids of the
  -- attempts, then a plan adds to the ledger one usage record for each call it made, in the order of
  -- the calls, and no other.
  pub execute_plan-ledger :
      (cs : List RoutedModel) (db : Db)
      → AreFresh db
      → (execute_plan out req d cs db).1.db.usage_ledger
        ≡ db.usage_ledger ++ bills (execute_plan out req d cs db).1.calls
  execute_plan-ledger cs db fresh =
      let (t, e) = execute_plan-IsTrace out req d cs db in
      ap (λ x. x.usage_ledger) e ∙ replay_ledger db fresh _ (IsTrace-InOrder t.trace)
