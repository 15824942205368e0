-- ===== src/Store/Results.antt =====
-- What the result of an operation of the store says of the tests that it passed.
use phlox_gw.Common.{◌≡◌, refl, Bool, true, false, if◌then◌else◌, arith}
use phlox_gw.Store.Types.{Result, StoreError, ok, err}

pub ok_same : {A : Type 0} {a b : A} → (let r : Result A = ok a in r ≡ ok b) → a ≡ b
ok_same h = cc

pub not_ok : {A : Type 0} (e : StoreError) {a : A} → (let r : Result A = err e in r ≡ ok a) → ⊥
not_ok e h = ground arith

-- The results of a test that lets an operation through, or stops it.
pub let_through :
    {A : Type 0} (b : Bool) (e : StoreError) {x y : A} → (if b then ok x else err e) ≡ ok y → x ≡ y
let_through true e h = ok_same h
let_through false e h = absurd (not_ok e h)

pub was_through :
    {A : Type 0} (b : Bool) (e : StoreError) (x : A) {y : A}
    → (if b then ok x else err e) ≡ ok y
    → b ≡ true
was_through true e x h = refl
was_through false e x h = absurd (not_ok e h)

pub not_stopped :
    {A : Type 0} (b : Bool) (e : StoreError) {r : Result A} {y : A}
    → (if b then err e else r) ≡ ok y
    → (b ≡ false) × (r ≡ ok y)
not_stopped true e h = absurd (not_ok e h)
not_stopped false e h = (refl, h)
