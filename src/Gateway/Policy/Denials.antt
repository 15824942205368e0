-- ===== src/Gateway/Policy/Denials.antt =====
-- The statuses with which checkRouteAdmission (routing.go of internal/httpapi) denies a request.
use phlox_gw.Common.{arith, ◌∙◌, ◌≡◌, inl, inr, true, some, List, [], ◌∷◌, Option-cases}
use phlox_gw.Common.Int.{ℤ, pos, leb_ℤ}
use phlox_gw.Store.Types.{Time, User, ApiKey, RateLimit, RoutedModel, Result-cases}
use phlox_gw.Gateway.Policy.{
  PolicyStore, Denial, minute_before, check_budget, check_api_key_monthly_budget,
  check_api_key_limits, check_api_key_policy, check_limits, check_rate_limits,
  check_route_admission,
}

-- The status of an HTTP error.
abbrev pub IsError : ℤ → Type 0
IsError status = leb_ℤ (pos 400) status ≡ true

module _ (store : PolicyStore) (now : Time) where
  key_limits-IsError :
      (key : ApiKey) (d : Denial) → check_api_key_limits store now key ≡ some d → IsError d.status
  unfolding check_api_key_limits
  key_limits-IsError key d h =
      elim (Result-cases (store.api_key_window_usage key.id (minute_before now))) [
        | inl (u, e) ↦ let h' = rw e at h in ground arith
        | inr (x, e) ↦ let h' = rw e at h in ground arith
      ]

  key_policy-IsError :
      (key : ApiKey) (r : RoutedModel) (d : Denial)
      → check_api_key_policy store now key r ≡ some d
      → IsError d.status
  unfolding check_api_key_policy
  key_policy-IsError key r d h =
      let limits = key_limits-IsError key d in
      elim (Option-cases (check_api_key_monthly_budget store now key)) [
        | inl e ↦ let h' = rw e at h in ground arith
        | inr (x, e) ↦ let h' = rw e at h in ground arith
      ]

  limits-IsError :
      (ls : List RateLimit) (d : Denial) → check_limits store now ls ≡ some d → IsError d.status
  unfolding check_limits
  limits-IsError [] d h = ground arith
  limits-IsError (l ∷ ls) d h =
      let rest = limits-IsError ls d in
      elim (Result-cases (store.rate_limit_window_usage l (minute_before now))) [
        | inl (u, e) ↦ let h' = rw e at h in ground arith
        | inr (x, e) ↦ let h' = rw e at h in ground arith
      ]

  rate_limits-IsError :
      (user : User) (r : RoutedModel) (d : Denial)
      → check_rate_limits store now user r ≡ some d
      → IsError d.status
  unfolding check_rate_limits
  rate_limits-IsError user r d h = elim (Result-cases (store.applicable_rate_limits user r)) [
    | inl (ls, e) ↦ limits-IsError ls d (rw (e, check_rate_limits) at h)
    | inr (x, e) ↦ let h' = rw (e, check_rate_limits) at h in ground arith
  ]

  pub check_route_admission-IsError :
      (user : User) (key : ApiKey) (r : RoutedModel) (d : Denial)
      → check_route_admission store now user key r ≡ some d
      → IsError d.status
  unfolding check_route_admission
  check_route_admission-IsError user key r d h =
      elim (Option-cases (check_api_key_policy store now key r)) [
        | inr (x, e) ↦ key_policy-IsError key r d (e ∙ (rw (e, check_route_admission) at h))
        | inl e ↦ elim (Option-cases (check_budget store now user r.model)) [
          | inr (y, f) ↦ let h' = rw (e, check_route_admission, f) at h in ground arith
          | inl f ↦ rate_limits-IsError user r d (rw (e, check_route_admission, f) at h)
        ]
      ]
