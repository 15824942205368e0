-- ===== src/Gateway/Policy/Admitted.antt =====
-- The checks before a call let a request pass exactly if it is admitted.
use phlox_gw.Common.{
  ◌≡◌, refl, ◌↔◌, inl, inr, true, false, none, List, [], ◌∷◌, arith, All, Bool-cases, ◌&&◌,
}
use phlox_gw.Common.Int.{pos, ◌<ℤ◌, ltb_ℤ, leb_ℤ}
use phlox_gw.Store.Types.{Time, Model, RoutedModel, User, ApiKey, RateLimit, Result-cases}
use phlox_gw.Store.Calendar.{month_bounds}
use phlox_gw.Store.Usage.{is_priced}
use phlox_gw.Gateway.Policy.{
  PolicyStore, api_key_allows_model, minute_before, check_budget, check_api_key_monthly_budget,
  check_api_key_limits, check_api_key_policy, check_limits, check_rate_limits,
  check_route_admission,
}
use phlox_gw.Gateway.Policy.Admission.{
  Returns, IsLimitMet, IsAdmitted, api_key_allows_model_iff, not_exceeds,
  check_api_key_limits_sound, check_api_key_limits_complete,
}

module _ (store : PolicyStore) (now : Time) where
  limit_met :
      (l : RateLimit) (ls : List RateLimit)
      → check_limits store now (l ∷ ls) ≡ none
      → IsLimitMet store now l
  unfolding check_limits
  limit_met l ls h limited =
      elim (Result-cases (store.rate_limit_window_usage l (minute_before now))) [
        | inl (used, e) ↦ (used, e, (λ p. ground arith, λ p. ground arith))
        | inr (x, e) ↦ absurd (ground arith)
      ]

  check_limits_sound :
      (ls : List RateLimit) → check_limits store now ls ≡ none → All (IsLimitMet store now) ls
  unfolding check_limits
  check_limits_sound [] h = tt
  check_limits_sound (l ∷ ls) h = (limit_met l ls h, check_limits_sound ls (ground arith))

  check_limits_complete :
      (ls : List RateLimit) → All (IsLimitMet store now) ls → check_limits store now ls ≡ none
  unfolding check_limits
  check_limits_complete [] h = refl
  check_limits_complete (l ∷ ls) (p, h) =
      elim (Bool-cases (leb_ℤ l.rpm_limit (pos 0) && leb_ℤ l.tpm_limit (pos 0))) [
        | inl free ↦ rw free (check_limits_complete ls h)
        | inr limited ↦
            let (used, e, (r, t)) = p (ground arith) in
            rw (limited, e)
              (ground (
                arith,
                not_exceeds l.rpm_limit used.requests r,
                not_exceeds l.tpm_limit used.total_tokens t,
                check_limits_complete ls h,
              ))
      ]

  check_rate_limits_sound :
      (user : User) (route : RoutedModel)
      → check_rate_limits store now user route ≡ none
      → Returns (store.applicable_rate_limits user route) (All (IsLimitMet store now))
  unfolding check_rate_limits
  check_rate_limits_sound user route h =
      elim (Result-cases (store.applicable_rate_limits user route)) [
        | inl (ls, e) ↦ (ls, e, check_limits_sound ls (rw (e, check_rate_limits) at h))
        | inr (x, e) ↦ absurd (ground arith)
      ]

  check_rate_limits_complete :
      (user : User) (route : RoutedModel)
      → Returns (store.applicable_rate_limits user route) (All (IsLimitMet store now))
      → check_rate_limits store now user route ≡ none
  unfolding check_rate_limits
  check_rate_limits_complete user route (ls, e, h) =
      rw (e, check_rate_limits) (check_limits_complete ls h)

  check_budget_sound :
      (user : User) (m : Model)
      → check_budget store now user m ≡ none
      → Returns (store.budget_status user (is_priced m)) (λ status. status.blocked ≡ false)
  unfolding check_budget
  check_budget_sound user m h = elim (Result-cases (store.budget_status user (is_priced m))) [
    | inl (status, e) ↦ (status, e, ground arith)
    | inr (x, e) ↦ absurd (ground arith)
  ]

  check_budget_complete :
      (user : User) (m : Model)
      → Returns (store.budget_status user (is_priced m)) (λ status. status.blocked ≡ false)
      → check_budget store now user m ≡ none
  unfolding check_budget
  check_budget_complete user m (status, e, h) = rw (e, check_budget, h) refl

  abbrev Spends : ApiKey → Type 0
  Spends key =
      Returns (store.api_key_monthly_spend key.id (month_bounds now).0 (month_bounds now).1)
        (λ spend. spend <ℤ key.budget_usd)

  monthly_budget_sound :
      (key : ApiKey) → check_api_key_monthly_budget store now key ≡ none → Spends key
  unfolding check_api_key_monthly_budget
  monthly_budget_sound key h =
      elim (Result-cases
        (store.api_key_monthly_spend key.id (month_bounds now).0 (month_bounds now).1)) [
          | inl (spend, e) ↦ (spend, e, ground arith)
          | inr (x, e) ↦ absurd (ground arith)
        ]

  monthly_budget_complete :
      (key : ApiKey) → Spends key → check_api_key_monthly_budget store now key ≡ none
  unfolding check_api_key_monthly_budget
  monthly_budget_complete key (spend, e, h) = rw (e, check_api_key_monthly_budget) (ground arith)

  record IsKeyAdmitted (key : ApiKey) (route : RoutedModel) : Type 0 where
    allowed : api_key_allows_model key route.model ≡ true
    budget : is_priced route.model ≡ true → pos 0 <ℤ key.budget_usd → Spends key
    window : check_api_key_limits store now key ≡ none

  check_api_key_policy_sound :
      (key : ApiKey) (route : RoutedModel)
      → check_api_key_policy store now key route ≡ none
      → IsKeyAdmitted key route
  unfolding check_api_key_policy
  check_api_key_policy_sound key route h = record {
    allowed = ground arith;
    budget = λ priced positive. monthly_budget_sound key (ground arith);
    window = ground arith;
  }

  check_api_key_policy_complete :
      (key : ApiKey) (route : RoutedModel)
      → IsKeyAdmitted key route
      → check_api_key_policy store now key route ≡ none
  unfolding check_api_key_policy
  check_api_key_policy_complete key route k =
      elim (Bool-cases (is_priced route.model && ltb_ℤ (pos 0) key.budget_usd)) [
        | inl paid ↦
            rw
              (
                k.allowed,
                paid,
                monthly_budget_complete key (k.budget (ground arith) (ground arith)),
              )
              k.window
        | inr free ↦ rw (k.allowed, free) k.window
      ]

  -- A request passes the checks exactly if it is admitted; so a read of the store that fails, where
  -- the checks make it, blocks the request.
  pub check_route_admission_iff :
      (user : User) (key : ApiKey) (route : RoutedModel)
      → (check_route_admission store now user key route ≡ none)
        ↔ IsAdmitted store now user key route
  unfolding check_route_admission
  check_route_admission_iff user key route = (to, from)
    where
      to :
          check_route_admission store now user key route ≡ none
          → IsAdmitted store now user key route
      to h =
          let k = check_api_key_policy_sound key route (ground arith) in
          record {
            allowed = (api_key_allows_model_iff key route.model).0 k.allowed;
            key_budget = k.budget;
            key_window = check_api_key_limits_sound store now key k.window;
            budgets = check_budget_sound user route.model (ground arith);
            rate_limits = check_rate_limits_sound user route (ground arith);
          }

      from :
          IsAdmitted store now user key route
          → check_route_admission store now user key route ≡ none
      from a =
          rw
            (
              check_api_key_policy_complete key route (record {
                allowed = (api_key_allows_model_iff key route.model).1 a.allowed;
                budget = a.key_budget;
                window = check_api_key_limits_complete store now key a.key_window;
              }),
              check_budget_complete user route.model a.budgets,
              check_route_admission,
            )
            (check_rate_limits_complete user route a.rate_limits)
