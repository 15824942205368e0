-- ===== src/Gateway/Sessions/Keys.antt =====
-- Which API keys a request is let through with (requireAPIKey of middleware.go, ResolveAPIKey of
-- apikeys.go).
use mathlib.Core.List.{Memᴰ}
use mathlib.Core.Path.{subst}
use phlox_gw.Common.{
  Bool, true, false, not, ◌||◌, some, List, [], ◌∷◌, ◌≡◌, refl, ap, inl, inr, All, All-map,
  All-select, sym, select, find, Bool-cases, Option-cases, arith, if◌then◌else◌,
}
use phlox_gw.Common.Int.{ℤ}
use phlox_gw.Common.Text.{Text, text_eq, is_empty}
use phlox_gw.Store.Types.{Time, User, ApiKey, Db, Result, StoreError, ok, err, not_found}
use phlox_gw.Store.Results.{ok_same, not_ok}
use phlox_gw.Store.Users.{has_user_id}
use phlox_gw.Store.ApiKeys.{is_expired, join_users, usable_row, resolve_api_key}
use phlox_gw.Gateway.Sessions.{Access, granted, refused, key_access, require_api_key}

-- A row of the join of two tables: the key has the hash, and the user is its owner.
record IsJoined (hash : Text) (ks : List ApiKey) (us : List User) (r : User × ApiKey) : Type 0 where
  key_row : Memᴰ r.1 ks
  user_row : Memᴰ r.0 us
  hashed : text_eq r.1.key_hash hash ≡ true
  owner : text_eq r.0.id r.1.user_id ≡ true

some_same : {A : Type 0} {a b : A} → some a ≡ some b → a ≡ b
some_same h = cc

find_holds : {A : Type 0} (p : A → Bool) (xs : List A) (x : A) → find p xs ≡ some x → p x ≡ true
find_holds p [] x e = absurd (ground arith)
find_holds p (y ∷ ys) x e = elim (Bool-cases (p y)) [
  | inl t ↦ let same : some y ≡ some x = rw t at e in subst (λ z. p z ≡ true) (some_same same) t
  | inr t ↦ find_holds p ys x (rw t at e)
]

find_mem : {A : Type 0} (p : A → Bool) (xs : List A) (x : A) → find p xs ≡ some x → Memᴰ x xs
find_mem p [] x e = absurd (ground arith)
find_mem p (y ∷ ys) x e = elim (Bool-cases (p y)) [
  | inl t ↦ let same : some y ≡ some x = rw t at e in Memᴰ.head (sym (some_same same))
  | inr t ↦ Memᴰ.tail (find_mem p ys x (rw t at e))
]

join_users-All :
    (hash : Text) (all_keys : List ApiKey) (us : List User) (ks : List ApiKey)
    → All (λ (k : ApiKey). Memᴰ k all_keys × (text_eq k.key_hash hash ≡ true)) ks
    → All (IsJoined hash all_keys us) (join_users ks us)
unfolding join_users
join_users-All hash all_keys us [] h = tt
join_users-All hash all_keys us (k ∷ ks) ((m, t), h) =
    elim (Option-cases (find (has_user_id k.user_id) us)) [
      | inl e ↦ rw (join_users, e) (join_users-All hash all_keys us ks h)
      | inr (u, e) ↦
          rw (join_users, e)
            (
              record {
                key_row = m;
                user_row = find_mem (has_user_id k.user_id) us u e;
                hashed = t;
                owner = find_holds (has_user_id k.user_id) us u e;
              },
              join_users-All hash all_keys us ks h,
            )
    ]

-- What a request that is let through with a key has: a row of each table.
pub record IsUsable (hash : Text) (now : Time) (db : Db) (owner : User × ApiKey) : Type 0 where
  pub key_row : Memᴰ owner.1 db.api_keys
  pub user_row : Memᴰ owner.0 db.users
  pub hashed : text_eq owner.1.key_hash hash ≡ true
  pub owned : text_eq owner.0.id owner.1.user_id ≡ true
  pub key_active : owner.1.is_active ≡ true
  pub user_active : owner.0.is_active ≡ true
  pub unexpired : is_expired owner.1.expires_at now ≡ false

refused_granted :
    {A : Type 0} {status : ℤ} {message : Text} {a : A}
    → (let r : Access A = refused status message in r ≡ granted a)
    → ⊥
refused_granted h = ground arith

granted_same : {A : Type 0} {a b : A} → (let r : Access A = granted a in r ≡ granted b) → a ≡ b
granted_same h = cc

refused_not :
    {A : Type 0} {status : ℤ} {message : Text} {d d' : Db} {a : A}
    → (let r : Access A × Db = (refused status message, d) in r ≡ (granted a, d'))
    → ⊥
refused_not h = refused_granted (ap (λ x. x.0) h)

access_same :
    {A : Type 0} {d d' : Db} {a b : A}
    → (let r : Access A × Db = (granted a, d) in r ≡ (granted b, d'))
    → a ≡ b
access_same h = granted_same (ap (λ x. x.0) h)

-- Three tests passed.
passed :
    {A : Type 0} {x : Result A} (e e' : StoreError) {y : A} (a b c : Bool)
    → (if not a || not b then err e else if c then err e' else x) ≡ ok y
    → (a ≡ true) × ((b ≡ true) × ((c ≡ false) × (x ≡ ok y)))
passed _ _ true true true h = absurd (not_ok _ h)
passed _ _ true true false h = (refl, (refl, (refl, h)))
passed _ _ true false c h = absurd (not_ok _ h)
passed _ _ false b c h = absurd (not_ok _ h)

usable_row-IsUsable :
    (hash : Text) (db : Db) (now : Time) (rows : List (User × ApiKey))
    → All (IsJoined hash db.api_keys db.users) rows
    → (db' : Db) (owner : User × ApiKey) → usable_row db now rows ≡ ok (db', owner)
    → IsUsable hash now db owner
usable_row-IsUsable hash db now [] h db' owner e = absurd (not_ok not_found e)
usable_row-IsUsable hash db now ((u, k) ∷ rows) (j, h) db' owner e =
    let (a, (b, (c, t))) = passed _ _ k.is_active u.is_active (is_expired k.expires_at now) e in
    subst (IsUsable hash now db) (ap (λ r. r.1) (ok_same t)) (record {
      key_row = j.key_row;
      user_row = j.user_row;
      hashed = j.hashed;
      owned = j.owner;
      key_active = a;
      user_active = b;
      unexpired = c;
    })

rows-All : (ks : List ApiKey) → All (λ (k : ApiKey). Memᴰ k ks) ks
rows-All [] = tt
rows-All (k ∷ ks) =
    (Memᴰ.head refl, All-map _ _ (λ (x : ApiKey) (m : Memᴰ x ks). Memᴰ.tail m) ks (rows-All ks))

resolved-IsUsable :
    (hash : Text) (now : Time) (db db' : Db) (owner : User × ApiKey)
    → (r : Result (Db × (User × ApiKey)))
    → ((d : Db) → r ≡ ok (d, owner) → IsUsable hash now db owner)
    → key_access db r ≡ (granted owner, db')
    → IsUsable hash now db owner
resolved-IsUsable hash now db db' owner (err e) h t = absurd (refused_not t)
resolved-IsUsable hash now db db' owner (ok (d, o)) h t = h d (ap (λ x. ok (d, x)) (access_same t))

-- A request that require_api_key lets through comes with a row of the table of keys that has the hash of
-- the token, is active and not expired, and with the row of its owner, who is active, both as they
-- stood in the database before the request.
pub require_api_key-IsUsable :
    (hash_api_key : Text → Text) (now : Time) (db db' : Db) (token : Text) (owner : User × ApiKey)
    → require_api_key hash_api_key now db token ≡ (granted owner, db')
    → IsUsable (hash_api_key token) now db owner
unfolding require_api_key resolve_api_key
require_api_key-IsUsable hash_api_key now db db' token owner e =
    elim (Bool-cases (is_empty token)) [
      | inl t ↦ absurd (refused_not (rw t at e))
      | inr t ↦
          resolved-IsUsable (hash_api_key token) now db db' owner
            (resolve_api_key db (hash_api_key token) now)
            (λ (d : Db).
              usable_row-IsUsable (hash_api_key token) db now
                (join_users (select (λ k. text_eq k.key_hash (hash_api_key token)) db.api_keys)
                  db.users)
                (join_users-All (hash_api_key token) db.api_keys db.users
                  (select (λ k. text_eq k.key_hash (hash_api_key token)) db.api_keys)
                  (All-select _ _ db.api_keys (rows-All db.api_keys)))
                d owner)
            (rw t at e)
    ]
