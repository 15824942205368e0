-- ===== src/Gateway/Execution/Frame.antt =====
-- What the records of calls (recordProviderOutcome, recordUsage of internal/httpapi) leave alone: the
-- tables of budgets and rate limits, which the checks of the policy read.
use phlox_gw.Common.{
  ◌≡◌, refl, sym, ap, ◌∙◌, inl, inr, ◌||◌, Option, none, some, List, [], ◌∷◌, find, any, Bool-cases,
  Option-cases, ◌*◌, ◌^◌,
}
use phlox_gw.Common.Int.{ℤ, pos, ◌+ℤ◌, pos_part}
use phlox_gw.Common.Text.{Text, text_eq}
use phlox_gw.Store.Types.{
  Time, Provider, UsageRecord, RequestLogRecord, Db, ok, not_found, Result-cases,
}
use phlox_gw.Store.Results.{not_ok, let_through}
use phlox_gw.Store.Table.{update_where}
use phlox_gw.Store.Providers.{
  has_id, failed_row, or_default, get_provider, record_provider_failure, record_provider_success,
}
use phlox_gw.Store.Catalog.Providers.{kept_db}
use phlox_gw.Store.Usage.{insert_usage, insert_request_log}
use phlox_gw.Gateway.Health.{
  provider_status_is_failure, record_provider_outcome, provider_failure_threshold,
  provider_circuit_cooldown,
}
use phlox_gw.Gateway.Usage.{Call, record_usage, usage_row, log_row}
use phlox_gw.Gateway.Outside.{Outside, Request, Dialect}
use phlox_gw.Gateway.Execution.{Attempt, record_call, usage_of, answer_to}
use phlox_gw.Gateway.Execution.Trace.{replay}

-- Two databases with the same rules.
pub record SameRules (db db' : Db) : Type 0 where
  pub budgets : db'.budgets ≡ db.budgets
  pub rate_limits : db'.rate_limits ≡ db.rate_limits

of_same : (db db' written : Db) → SameRules db written → written ≡ db' → SameRules db db'
of_same db db' written r e = record {
  budgets = ap (λ (x : Db). x.budgets) (sym e) ∙ r.budgets;
  rate_limits = ap (λ (x : Db). x.rate_limits) (sym e) ∙ r.rate_limits;
}

same : (db : Db) → SameRules db db
same db = record { budgets = refl; rate_limits = refl }

after : (a b c : Db) → SameRules a b → SameRules b c → SameRules a c
after a b c r s = record {
  budgets = s.budgets ∙ r.budgets;
  rate_limits = s.rate_limits ∙ r.rate_limits;
}

failure-SameRules :
    (db db' : Db) (id : Text) (threshold cooldown : ℤ) (now : Time) (err_text : Text) (p : Provider)
    → record_provider_failure db id threshold cooldown now err_text ≡ ok (db', p)
    → SameRules db db'
unfolding record_provider_failure failed_row
failure-SameRules db db' id threshold cooldown now err_text p e =
    elim (Option-cases (find (has_id id) db.providers)) [
      | inl f ↦ absurd (not_ok not_found (rw (record_provider_failure, f) at e))
      | inr (row, f) ↦
          let write : Provider → Provider =
            failed_row (or_default (pos 3) threshold)
              (pos_part (or_default (pos (5 * 60 * 10 ^ 9)) cooldown)) now err_text
              (row.consecutive_failures +ℤ pos 1) in
          let written : Db = record db {
            providers = update_where (has_id id) write db.providers;
          } in
          of_same db db' written (record { budgets = refl; rate_limits = refl })
            (kept_db (get_provider written id) (rw (record_provider_failure, f) at e))
    ]

success-SameRules :
    (db db' : Db) (id : Text) (now : Time)
    → record_provider_success db id now ≡ ok db'
    → SameRules db db'
unfolding record_provider_success
success-SameRules db db' id now e =
    of_same db db' _ (record { budgets = refl; rate_limits = refl })
      (let_through (any (has_id id) db.providers) not_found e)

outcome-SameRules :
    (now : Time) (id : Text) (status : ℤ) (err_text : Text) (db : Db)
    → SameRules db (record_provider_outcome now id status err_text db)
unfolding record_provider_outcome
outcome-SameRules now id status err_text db =
    elim (Bool-cases (provider_status_is_failure status)) [
      | inl f ↦
          elim (Result-cases (
            record_provider_failure db id provider_failure_threshold provider_circuit_cooldown now
              err_text)) [
                | inl (r, e) ↦
                    rw (f, e, record_provider_outcome)
                      (failure-SameRules db r.0 id _ _ now err_text r.1 e)
                | inr (x, e) ↦ rw (f, e, record_provider_outcome) (same db)
              ]
      | inr f ↦ elim (Result-cases (record_provider_success db id now)) [
        | inl (d, e) ↦ rw (f, e, record_provider_outcome) (success-SameRules db d id now e)
        | inr (x, e) ↦ rw (f, e, record_provider_outcome) (same db)
      ]
    ]

insert_usage-SameRules : (r : UsageRecord) (db : Db) → SameRules db (insert_usage r db)
unfolding insert_usage
insert_usage-SameRules r db =
    elim (Bool-cases
      (any (λ x. text_eq x.id r.id || text_eq x.request_id r.request_id) db.usage_ledger)) [
        | inl e ↦ rw (e, insert_usage) (same db)
        | inr e ↦ rw (e, insert_usage) (record { budgets = refl; rate_limits = refl })
      ]

insert_request_log-SameRules :
    (r : RequestLogRecord) (db : Db) → SameRules db (insert_request_log r db)
unfolding insert_request_log
insert_request_log-SameRules r db =
    elim (Bool-cases
      (any (λ x. text_eq x.id r.id || text_eq x.request_id r.request_id) db.request_log)) [
        | inl e ↦ rw (e, insert_request_log) (same db)
        | inr e ↦ rw (e, insert_request_log) (record { budgets = refl; rate_limits = refl })
      ]

usage-SameRules :
    (usage_id log_id : Option Text) (now : Time) (c : Call) (db : Db)
    → SameRules db (record_usage usage_id log_id now c db)
unfolding record_usage
usage-SameRules none log_id now c db = same db
usage-SameRules (some id) none now c db = insert_usage-SameRules (usage_row id now c) db
usage-SameRules (some id) (some id') now c db =
    let written : Db = insert_usage (usage_row id now c) db in
    after db written _ (insert_usage-SameRules (usage_row id now c) db)
      (insert_request_log-SameRules (log_row id' now c) written)

-- Calls leave the rules as they were.
pub replay-SameRules :
    (out : Outside) (req : Request) (d : Dialect) (db : Db) (calls : List Attempt)
    → SameRules db (replay out req d db calls)
unfolding record_call
replay-SameRules out req d db [] = same db
replay-SameRules out req d db (a ∷ xs) =
    let answer = answer_to out req d a in
    let now = out.clock a.moment in
    let before : Db = replay out req d db xs in
    let noted : Db =
      record_provider_outcome now a.route.provider.id answer.status answer.error_text before in
    after db before _ (replay-SameRules out req d db xs) (
      after before noted _
        (outcome-SameRules now a.route.provider.id answer.status answer.error_text before)
        (usage-SameRules (out.usage_id a.moment) (out.log_id a.moment) now (usage_of out req d a)
          noted))
