-- ===== src/Gateway/Routing/Bounds.antt =====
-- Bounds of the policy of a route, and the ids of the attempts of a request.
use phlox_gw.Common.{
  ℕ, suc, ◌*◌, ◌≤◌, ◌<◌, ◌^◌, ◌≡◌, ◌≢◌, sym, ap, inl, inr, [], ◌∷◌, ◌++◌, arith, leb, length,
  length-append, Bool-cases, min,
}
use phlox_gw.Common.Int.{pos, ◌≤ℤ◌}
use phlox_gw.Common.Text.{Text, codes}
use phlox_gw.Common.Text.Numbers.{decimal}
use phlox_gw.Common.Text.NumberLaws.{decimal-injective}
use phlox_gw.Store.Types.{Model}
use phlox_gw.Gateway.Routing.{reliability_policy, thirty_minutes, attempt_request_id}

-- Whatever a model stores, there are five retries at most and no timeout is longer than thirty minutes.
pub reliability_policy_bounds :
    (m : Model)
    → ((reliability_policy m).retry_attempts ≤ 5)
      × ((reliability_policy m).request_timeout ≤ℤ thirty_minutes)
unfolding reliability_policy
reliability_policy_bounds m = ground arith

-- A positive timeout of `n` milliseconds that an int64 holds in nanoseconds is kept, up to thirty minutes.
pub reliability_policy_timeout :
    (m : Model) (n : ℕ)
    → m.request_timeout_ms ≡ pos (suc n)
    → suc n * 1_000_000 < 2 ^ 63
    → (reliability_policy m).request_timeout ≡ pos (min (suc n * 1_000_000) 1_800_000_000_000)
unfolding reliability_policy
reliability_policy_timeout m n e small = rw (e, reliability_policy) (ground arith)

append_cancel : (s t u : Text) → s ++ t ≡ s ++ u → t ≡ u
append_cancel [] t u e = e
append_cancel (b ∷ s) t u e = append_cancel s t u (cc)

append-ne_self : (s t : Text) (b : ℕ) → s ++ b ∷ t ≢ s
append-ne_self s t b e = omega (arith, ap length e, length-append s (b ∷ t))

attempt_request_id-injective :
    (id : Text) (a b : ℕ)
    → 1 ≤ a
    → 1 ≤ b
    → attempt_request_id id a ≡ attempt_request_id id b
    → a ≡ b
unfolding attempt_request_id
attempt_request_id-injective id a b la lb e = elim (Bool-cases (leb a 1)) [
  | inl first ↦ elim (Bool-cases (leb b 1)) [
    | inl first' ↦ ground arith
    | inr later' ↦
        absurd (append-ne_self id _ 45 (sym (rw (first, later', attempt_request_id) at e)))
  ]
  | inr later ↦ elim (Bool-cases (leb b 1)) [
    | inl first' ↦ absurd (append-ne_self id _ 45 (rw (later, first', attempt_request_id) at e))
    | inr later' ↦ decimal-injective a b (
        append_cancel (codes "-attempt-") (decimal a) (decimal b)
          (append_cancel id _ _ (rw (later, later', attempt_request_id) at e)))
  ]
]

-- Two attempts of one request, which are numbered from one, have different request ids.
pub attempt_request_id-ne :
    (id : Text) (a b : ℕ)
    → 1 ≤ a
    → 1 ≤ b
    → a ≢ b
    → attempt_request_id id a ≢ attempt_request_id id b
attempt_request_id-ne id a b la lb n e = n (attempt_request_id-injective id a b la lb e)
