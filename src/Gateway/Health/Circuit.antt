-- ===== src/Gateway/Health/Circuit.antt =====
-- The life of a circuit, over every history of outcomes of one provider.
use phlox_gw.Common.{
  ℕ, suc, ◌≡◌, refl, sym, ◌∙◌, Bool, true, false, ◌&&◌, Option, none, some, List, [], ◌∷◌, arith,
  leb, find, Bool-cases, Option-cases, inl, inr, if◌then◌else◌, any, ◌≢◌,
}
use phlox_gw.Common.Int.{ℤ, pos, ◌+ℤ◌}
use phlox_gw.Common.Text.{Text, text_eq, text_eq_iff}
use phlox_gw.Store.Types.{Time, Provider, Db, ok, err, not_found}
use phlox_gw.Store.Clock.{after}
use phlox_gw.Store.Table.{update_where, find-update_where_self, find-update_where_other}
use phlox_gw.Store.Providers.{
  has_id, succeeded, failed_row, record_provider_success, record_provider_failure, add_duration,
  get_provider, scan_provider,
}
use phlox_gw.Gateway.Health.{
  provider_status_is_failure, provider_circuit_open, record_provider_outcome,
}

pub record Outcome : Type 0 where
  pub at : Time
  pub status : ℤ
  pub error : Text

-- The database after the outcomes of one provider, the newest first.
unfoldable pub replay : Text → List Outcome → Db → Db
unfolding record_provider_outcome
replay id [] db = db
replay id (o ∷ h) db = record_provider_outcome o.at id o.status o.error (replay id h db)

abbrev pub row : Text → Db → Option Provider
row id db = find (has_id id) db.providers

abbrev fails : Outcome → Bool
fails o = provider_status_is_failure o.status

abbrev pub five_minutes : ℕ
five_minutes = 300_000_000_000

-- The circuit as it should be: open for five minutes after a failure, if that failure and the two
-- outcomes before it all failed.
unfoldable pub should_be_open : List Outcome → Time → Bool
should_be_open (a ∷ b ∷ c ∷ h) now =
    fails a && fails b && fails c && after (add_duration a.at five_minutes) now
should_be_open _ now = false

-- A row with no failures counted and no circuit open, as providers are created.
pub record IsFresh (p : Provider) : Type 0 where
  pub no_failures : p.consecutive_failures ≡ pos 0
  pub closed : p.circuit_open_until ≡ none

any_of_find :
    (p : Provider → Bool) (xs : List Provider) {x : Provider} → find p xs ≡ some x → any p xs ≡ true
any_of_find p [] e = cc
any_of_find p (x ∷ xs) {x = y} e = ground (arith, any_of_find p xs {x = y})

abbrev stepped : Outcome → Provider → Provider
stepped o p =
    if fails o
    then failed_row (pos 3) five_minutes o.at o.error (p.consecutive_failures +ℤ pos 1) p
    else succeeded o.at p

same_id :
    (id other : Text) → id ≢ other → (x : Provider) → has_id id x ≡ true → has_id other x ≡ false
same_id id other n x e = elim (Bool-cases (text_eq x.id other)) [
  | inl t ↦ absurd (n (sym ((text_eq_iff x.id id).0 e) ∙ (text_eq_iff x.id other).0 t))
  | inr t ↦ t
]

other_updated :
    (db : Db) (id other : Text) (f : Provider → Provider)
    → id ≢ other
    → ((x : Provider) → (f x).id ≡ x.id)
    → find (has_id other) (update_where (has_id id) f db.providers) ≡ row other db
other_updated db id other f n keep =
    find-update_where_other (has_id other) (has_id id) f
      (λ x e. (same_id id other n x e, rw (keep x) (same_id id other n x e))) db.providers

row_succeeded :
    (db : Db) (id : Text) (now : Time) {p : Provider}
    → row id db ≡ some p
    → (db' : Db) × (record_provider_success db id now ≡ ok db')
      × (row id db' ≡ some (succeeded now p))
      × ((other : Text) → id ≢ other → row other db' ≡ row other db)
unfolding record_provider_success succeeded
row_succeeded db id now e = (
  record db { providers = update_where (has_id id) (succeeded now) db.providers },
  rw (any_of_find (has_id id) db.providers e),
  find-update_where_self (has_id id) (succeeded now) (λ x h. h) db.providers e,
  λ other n. other_updated db id other (succeeded now) n (λ x. refl),
)

row_failed :
    (db : Db) (id : Text) (now : Time) (t : Text) {p : Provider}
    → row id db ≡ some p
    → (r : Db × Provider) × (record_provider_failure db id (pos 3) (pos five_minutes) now t ≡ ok r)
      × (row id r.0
          ≡ some (failed_row (pos 3) five_minutes now t (p.consecutive_failures +ℤ pos 1) p))
      × ((other : Text) → id ≢ other → row other r.0 ≡ row other db)
unfolding failed_row record_provider_failure get_provider
row_failed db id now t {p} e =
    let f = failed_row (pos 3) five_minutes now t (p.consecutive_failures +ℤ pos 1) in
    let found = find-update_where_self (has_id id) f (λ x h. h) db.providers e in
    (
      (record db { providers = update_where (has_id id) f db.providers }, scan_provider (f p)),
      rw (e, record_provider_failure, found, get_provider),
      found,
      λ other n. other_updated db id other f n (λ x. refl),
    )

-- One outcome takes the provider's row one step, and no other row.
row_outcome :
    (db : Db) (id : Text) (o : Outcome) {p : Provider}
    → row id db ≡ some p
    → row id (record_provider_outcome o.at id o.status o.error db) ≡ some (stepped o p)
unfolding record_provider_outcome
row_outcome db id o {p} e = elim (Bool-cases (fails o)) [
  | inl f ↦ let (r, done, found, _) = row_failed db id o.at o.error e in rw (f, done) found
  | inr f ↦ let (db', done, found, _) = row_succeeded db id o.at e in rw (f, done) found
]

-- The failures with which a history ends, of which the newest comes first.
abbrev failure_run : List Outcome → ℕ
failure_run [] = 0
failure_run (o ∷ h) = let n = failure_run h in if fails o then suc n else 0

abbrev opened_until : List Outcome → Option Time
opened_until [] = none
opened_until (o ∷ h) =
    if leb 3 (failure_run (o ∷ h)) then some (add_duration o.at five_minutes) else none

record IsCounted (h : List Outcome) (p : Provider) : Type 0 where
  counted : p.consecutive_failures ≡ pos (failure_run h)
  until : p.circuit_open_until ≡ opened_until h

stepped-IsCounted :
    (o : Outcome) (h : List Outcome) (p : Provider)
    → IsCounted h p
    → IsCounted (o ∷ h) (stepped o p)
unfolding failed_row succeeded ◌+ℤ◌
stepped-IsCounted o h p k = elim (Bool-cases (fails o)) [
  | inl f ↦ record {
    counted = rw (f, k.counted) (ground arith);
    until = rw (f, k.counted) (ground arith);
  }
  | inr f ↦ record { counted = rw f refl; until = rw f refl }
]

replay-IsCounted :
    (db : Db) (id : Text) (h : List Outcome) {p : Provider}
    → row id db ≡ some p
    → IsFresh p
    → (q : Provider) × (row id (replay id h db) ≡ some q) × IsCounted h q
unfolding replay
replay-IsCounted db id [] {p} e f = (p, e, record { counted = f.no_failures; until = f.closed })
replay-IsCounted db id (o ∷ h) e f =
    let (q, found, k) = replay-IsCounted db id h e f in
    (stepped o q, row_outcome (replay id h db) id o found, stepped-IsCounted o h q k)

opened_until_lem :
    (h : List Outcome) (p : Provider) (now : Time)
    → p.circuit_open_until ≡ opened_until h
    → (provider_circuit_open p now).0 ≡ should_be_open h now
unfolding provider_circuit_open should_be_open
opened_until_lem [] p now e = rw (e, provider_circuit_open)
opened_until_lem (a ∷ []) p now e = rw (e, provider_circuit_open) (ground arith)
opened_until_lem (a ∷ b ∷ []) p now e = rw (e, provider_circuit_open) (ground arith)
opened_until_lem (a ∷ b ∷ c ∷ h) p now e = rw (e, provider_circuit_open) (ground arith)

-- After any history of outcomes of a provider that starts with no failures counted, the provider is
-- there, and its circuit is open exactly if the last three outcomes failed and five minutes have
-- not passed since the last of them.
pub circuit_open-replay :
    (db : Db) (id : Text) (h : List Outcome) (now : Time) (p : Provider)
    → row id db ≡ some p
    → IsFresh p
    → (q : Provider) × (row id (replay id h db) ≡ some q)
      × ((provider_circuit_open q now).0 ≡ should_be_open h now)
circuit_open-replay db id h now p e f =
    let (q, found, k) = replay-IsCounted db id h e f in (q, found, opened_until_lem h q now k.until)

any_of_none : (p : Provider → Bool) (xs : List Provider) → find p xs ≡ none → any p xs ≡ false
any_of_none p [] e = refl
any_of_none p (x ∷ xs) e = ground (arith, any_of_none p xs)

missed_failure :
    (db : Db) (id : Text) (o : Outcome)
    → row id db ≡ none
    → record_provider_failure db id (pos 3) (pos five_minutes) o.at o.error ≡ err not_found
unfolding record_provider_failure
missed_failure db id o e = rw (e, record_provider_failure)

missed_success :
    (db : Db) (id : Text) (o : Outcome)
    → row id db ≡ none
    → record_provider_success db id o.at ≡ err not_found
unfolding record_provider_success
missed_success db id o e = rw (any_of_none (has_id id) db.providers e)

outcome_other :
    (db : Db) (id other : Text) (o : Outcome)
    → id ≢ other
    → row other (record_provider_outcome o.at id o.status o.error db) ≡ row other db
unfolding record_provider_outcome
outcome_other db id other o n = elim (Option-cases (row id db)) [
  | inl e ↦ rw (missed_failure db id o e, missed_success db id o e) (ground arith)
  | inr (p, e) ↦ elim (Bool-cases (fails o)) [
    | inl f ↦
        let (r, done, _, rest) = row_failed db id o.at o.error e in rw (f, done) (rest other n)
    | inr f ↦ let (db', done, _, rest) = row_succeeded db id o.at e in rw (f, done) (rest other n)
  ]
]

-- Outcomes of one provider change the row of no other provider.
pub replay_other :
    (db : Db) (id other : Text) (h : List Outcome)
    → id ≢ other
    → row other (replay id h db) ≡ row other db
unfolding replay
replay_other db id other [] n = refl
replay_other db id other (o ∷ h) n =
    outcome_other (replay id h db) id other o n ∙ replay_other db id other h n
