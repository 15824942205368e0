-- ===== src/Store/Accounts/Kept.antt =====
-- How the operations of users.go and apikeys.go act on the keys of their tables.
use mathlib.Core.Path.{subst}
use phlox_gw.Common.{
  ◌≡◌, refl, sym, ap, ◌∙◌, Bool, true, false, not, ◌&&◌, ◌||◌, List, [], ◌∷◌, any, All, All-append,
  All-map, if◌then◌else◌, arith,
}
use phlox_gw.Common.Text.{Text, text_eq, text_eq_iff}
use phlox_gw.Store.Types.{Time, User, ApiKey, Db, ok, err, not_found, conflict, failed}
use phlox_gw.Store.Results.{ok_same, not_ok, let_through, was_through, not_stopped}
use phlox_gw.Store.Distinct.{
  Distinct, or_false, any-false, any-append, any-delete_where, All-delete_where, append-Distinct,
  delete_where-Distinct, update_where-Distinct, set-Distinct,
}
use phlox_gw.Store.Users.{
  has_user_id, touch_login, create_user, update_user, update_federated_user, set_user_password,
  complete_required_password_change, delete_user, with_password, touched, must_change_at,
}
use phlox_gw.Store.ApiKeys.{
  create_api_key, update_api_key_self, rotate_api_key, rotate_api_key_admin, revoke_api_key,
  revoke_api_key_admin, update_api_key_controls, resolve_api_key, update_key_rows, has_key_id,
  is_active_of, is_active_key, is_taken, rotated, usable_row, used_row, revoked,
}
use phlox_gw.Store.Accounts.Updates.{
  users-IsConsistent, keys-IsConsistent, row-IsConsistent, rows-IsConsistent,
}
use phlox_gw.Store.Accounts.{Step, Reaches, IsConsistent}

-- A rotation of the key with an id.
rotated-IsConsistent :
    {db db' : Db} (p : ApiKey → Bool) (id prefix hash : Text)
    → ((k : ApiKey) → p k ≡ true → k.id ≡ id)
    → (if any p db.api_keys && is_taken db p hash
        then err failed
        else update_key_rows db p (rotated prefix hash))
      ≡ ok db'
    → IsConsistent db
    → IsConsistent db'
rotated-IsConsistent {db = db} p id prefix hash picks e c =
    let (free, e') = not_stopped (any p db.api_keys && is_taken db p hash) failed e in
    let found : any p db.api_keys ≡ true = was_through (any p db.api_keys) not_found _ e' in
    let free' : is_taken db p hash ≡ false = second found free in
    subst IsConsistent (let_through (any p db.api_keys) not_found e') (
      keys-IsConsistent db p (rotated prefix hash) (λ k. refl) (λ k. refl)
        (set-Distinct (λ (k : ApiKey). k.key_hash) (λ (k : ApiKey). k.id) p (rotated prefix hash) id
          hash picks (λ k. refl) db.api_keys c.key_ids c.hashes free')
        c)
  where
    second : {a b : Bool} → a ≡ true → (a && b) ≡ false → b ≡ false
    second h e = ground arith

create_user-IsConsistent :
    {db db' : Db} (now : Time) (u : User)
    → create_user db now u ≡ ok db'
    → IsConsistent db
    → IsConsistent db'
unfolding create_user
create_user-IsConsistent {db = db} now u e c =
    let (new, e') = not_stopped _ conflict e in
    let others : All (λ (r : User). (text_eq r.id u.id || text_eq r.username u.username) ≡ false)
        db.users =
      any-false _ db.users new in
    subst IsConsistent (ok_same e') (record {
      user_ids =
          append-Distinct (λ (u : User). u.id) db.users _ c.user_ids
            (All-map _ _
              (λ (r : User) (h : (text_eq r.id u.id || text_eq r.username u.username) ≡ false).
                (or_false h).0)
              db.users others);
      usernames =
          append-Distinct (λ (u : User). u.username) db.users _ c.usernames
            (All-map _ _
              (λ (r : User) (h : (text_eq r.id u.id || text_eq r.username u.username) ≡ false).
                (or_false h).1)
              db.users others);
      key_ids = c.key_ids;
      hashes = c.hashes;
      owned =
          All-map _ _
            (λ (k : ApiKey) (h : any (has_user_id k.user_id) db.users ≡ true).
              any-append (has_user_id k.user_id) db.users _ h)
            db.api_keys c.owned;
    })

delete_user-IsConsistent :
    {db db' : Db} (id : Text) → delete_user db id ≡ ok db' → IsConsistent db → IsConsistent db'
unfolding delete_user
delete_user-IsConsistent {db = db} id e c =
    subst IsConsistent (let_through (any (has_user_id id) db.users) not_found e) (record {
      user_ids = delete_where-Distinct (λ (u : User). u.id) (has_user_id id) db.users c.user_ids;
      usernames =
          delete_where-Distinct (λ (u : User). u.username) (has_user_id id) db.users c.usernames;
      key_ids = delete_where-Distinct (λ (k : ApiKey). k.id) _ db.api_keys c.key_ids;
      hashes = delete_where-Distinct (λ (k : ApiKey). k.key_hash) _ db.api_keys c.hashes;
      owned =
          All-map _ _
            (λ (k : ApiKey)
                (h : (any (has_user_id k.user_id) db.users ≡ true)
                  × (text_eq k.user_id id ≡ false)).
              any-delete_where (has_user_id k.user_id) (has_user_id id)
                (λ (u : User) (t : text_eq u.id k.user_id ≡ true).
                  other_user u.id k.user_id id t h.1)
                db.users h.0)
            _ (All-delete_where _ (λ (k : ApiKey). text_eq k.user_id id) db.api_keys c.owned);
    })
  where
    other_user : (u k id : Text) → text_eq u k ≡ true → text_eq k id ≡ false → text_eq u id ≡ false
    other_user u k id t e = ap (λ s. text_eq s id) ((text_eq_iff u k).0 t) ∙ e

create_api_key-IsConsistent :
    {db db' : Db} (now : Time) (k : ApiKey)
    → create_api_key db now k ≡ ok db'
    → IsConsistent db
    → IsConsistent db'
unfolding create_api_key
create_api_key-IsConsistent {db = db} now k e c =
    let (new, e') = not_stopped _ conflict e in
    let (has_owner, e'') = not_stopped _ failed e' in
    let others : All (λ (r : ApiKey). (text_eq r.id k.id || text_eq r.key_hash k.key_hash) ≡ false)
        db.api_keys =
      any-false _ db.api_keys new in
    subst IsConsistent (ok_same e'') (record {
      user_ids = c.user_ids;
      usernames = c.usernames;
      key_ids =
          append-Distinct (λ (k : ApiKey). k.id) db.api_keys _ c.key_ids
            (All-map _ _
              (λ (r : ApiKey) (h : (text_eq r.id k.id || text_eq r.key_hash k.key_hash) ≡ false).
                (or_false h).0)
              db.api_keys others);
      hashes =
          append-Distinct (λ (k : ApiKey). k.key_hash) db.api_keys _ c.hashes
            (All-map _ _
              (λ (r : ApiKey) (h : (text_eq r.id k.id || text_eq r.key_hash k.key_hash) ≡ false).
                (or_false h).1)
              db.api_keys others);
      owned = All-append _ db.api_keys _ c.owned (negated has_owner, tt);
    })
  where
    negated : {b : Bool} → not b ≡ false → b ≡ true
    negated h = ground arith

usable_row-IsConsistent :
    {db db' : Db} (now : Time) (rows : List (User × ApiKey)) {owner : User × ApiKey}
    → usable_row db now rows ≡ ok (db', owner)
    → IsConsistent db
    → IsConsistent db'
unfolding used_row
usable_row-IsConsistent now [] e c = absurd (not_ok not_found e)
usable_row-IsConsistent {db = db} now ((u, k) ∷ rows) e c =
    let (_, e') = not_stopped _ not_found e in
    let (_, e'') = not_stopped _ not_found e' in
    subst IsConsistent (ap (λ r. r.0) (ok_same e'')) (
      keys-IsConsistent db (has_key_id k.id) (used_row now) (λ k. refl) (λ k. refl)
        (update_where-Distinct (λ (k : ApiKey). k.key_hash) (has_key_id k.id) (used_row now)
          (λ k. refl) db.api_keys c.hashes)
        c)

first : (a b : Bool) → (a && b) ≡ true → a ≡ true
first a b h = ground arith

Step-IsConsistent : {db db' : Db} → Step db db' → IsConsistent db → IsConsistent db'
unfolding touch_login update_user update_federated_user set_user_password
    complete_required_password_change with_password update_api_key_self rotate_api_key
    rotate_api_key_admin revoke_api_key revoke_api_key_admin update_api_key_controls resolve_api_key
Step-IsConsistent {db = db} (Step.signed_in id t) c =
    users-IsConsistent db (has_user_id id) (touched t) (λ u. refl) (λ u. refl) c
Step-IsConsistent (Step.user_created now u e) c = create_user-IsConsistent now u e c
Step-IsConsistent (Step.user_updated now u e) c =
    row-IsConsistent u.id _ (λ u. refl) (λ u. refl) e c
Step-IsConsistent (Step.federated now u e) c = row-IsConsistent u.id _ (λ u. refl) (λ u. refl) e c
Step-IsConsistent (Step.password_set now id hash must_change e) c =
    row-IsConsistent id (with_password now hash must_change) (λ u. refl) (λ u. refl) e c
Step-IsConsistent {db = db} (Step.password_changed now id hash version e) c =
    subst IsConsistent (let_through _ conflict e) (
      users-IsConsistent db (must_change_at id version) (with_password now hash false) (λ u. refl)
        (λ u. refl) c)
Step-IsConsistent (Step.user_deleted id e) c = delete_user-IsConsistent id e c
Step-IsConsistent (Step.key_created now k e) c = create_api_key-IsConsistent now k e c
Step-IsConsistent (Step.key_updated k e) c =
    rows-IsConsistent (is_active_of k.id k.user_id) _ (λ k. refl) (λ k. refl) (λ k. refl) e c
Step-IsConsistent (Step.key_rotated user_id id prefix hash e) c =
    rotated-IsConsistent (is_active_of id user_id) id prefix hash
      (λ k t. (text_eq_iff k.id id).0 (first _ _ t)) e c
Step-IsConsistent (Step.key_rotated_admin id prefix hash e) c =
    rotated-IsConsistent (is_active_key id) id prefix hash
      (λ k t. (text_eq_iff k.id id).0 (first _ _ t)) e c
Step-IsConsistent (Step.key_revoked user_id id e) c =
    rows-IsConsistent _ revoked (λ k. refl) (λ k. refl) (λ k. refl) e c
Step-IsConsistent (Step.key_revoked_admin id e) c =
    rows-IsConsistent (has_key_id id) revoked (λ k. refl) (λ k. refl) (λ k. refl) e c
Step-IsConsistent (Step.controls_updated k e) c =
    rows-IsConsistent (has_key_id k.id) _ (λ k. refl) (λ k. refl) (λ k. refl) e c
Step-IsConsistent (Step.key_resolved hash now owner e) c = usable_row-IsConsistent now _ e c

-- From a database without users and keys, the operations of users and keys lead to databases in which the
-- ids and usernames of users and the ids and hashes of keys differ, and each key has an owner.
pub Reaches-IsConsistent :
    (start db : Db) → start.users ≡ [] → start.api_keys ≡ [] → Reaches start db → IsConsistent db
Reaches-IsConsistent start db no_users no_keys Reaches.here = record {
  user_ids = subst (Distinct (λ (u : User). u.id)) (sym no_users) tt;
  usernames = subst (Distinct (λ (u : User). u.username)) (sym no_users) tt;
  key_ids = subst (Distinct (λ (k : ApiKey). k.id)) (sym no_keys) tt;
  hashes = subst (Distinct (λ (k : ApiKey). k.key_hash)) (sym no_keys) tt;
  owned =
      subst (All (λ (k : ApiKey). any (has_user_id k.user_id) start.users ≡ true)) (sym no_keys) tt;
}
Reaches-IsConsistent start db no_users no_keys (Reaches.step {db = before} r s) =
    Step-IsConsistent s (Reaches-IsConsistent start before no_users no_keys r)
