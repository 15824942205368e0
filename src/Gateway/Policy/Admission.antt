-- ===== src/Gateway/Policy/Admission.antt =====
-- What the checks before a call establish, and that they let pass every request that meets it.
use phlox_gw.Common.{
  ◌≡◌, refl, ◌↔◌, ◌⊎◌, inl, inr, Bool, true, false, none, List, [], ◌∷◌, arith, All, any,
  Bool-cases, ◌||◌,
}
use phlox_gw.Common.Int.{ℤ, pos, ◌<ℤ◌, ltb_ℤ}
use phlox_gw.Common.Text.{Text, text_eq_iff}
use phlox_gw.Store.Types.{
  Time, Model, RoutedModel, User, ApiKey, RateLimit, Result, ok, Result-cases,
}
use phlox_gw.Store.Calendar.{month_bounds}
use phlox_gw.Store.Usage.{WindowUsage, is_priced}
use phlox_gw.Gateway.Policy.{
  PolicyStore, names_model, split_policy_list, api_key_allows_model, minute_before, exceeds,
  check_budget, check_api_key_monthly_budget, check_api_key_limits, check_api_key_policy,
  check_limits, check_rate_limits, check_route_admission,
}

-- The item is the route, the upstream model id or the id of the model.
abbrev Names : Model → Text → Type 0
Names m item = (item ≡ m.route) ⊎ (item ≡ m.model_id) ⊎ (item ≡ m.id)

abbrev HasName : Model → List Text → Type 0
HasName m [] = ⊥
HasName m (x ∷ xs) = Names m x ⊎ HasName m xs

-- An empty allowlist allows every model, and else one of its items names the model.
abbrev pub Allows : List Text → Model → Type 0
Allows [] m = Unit
Allows (x ∷ xs) m = HasName m (x ∷ xs)

-- A limit that is positive is not reached.
abbrev pub Within : ℤ → ℤ → Type 0
Within limit used = pos 0 <ℤ limit → used <ℤ limit

within : (limit used : ℤ) → exceeds limit used ≡ false → Within limit used
within limit used h p = ground arith

pub not_exceeds : (limit used : ℤ) → Within limit used → exceeds limit used ≡ false
not_exceeds limit used w = ground arith

Names-iff : (m : Model) (x : Text) → (names_model m x ≡ true) ↔ Names m x
Names-iff m x = ground (arith, text_eq_iff x m.route, text_eq_iff x m.model_id, text_eq_iff x m.id)

any_names_iff : (m : Model) (xs : List Text) → (any (names_model m) xs ≡ true) ↔ HasName m xs
any_names_iff m [] = (λ h. cc, λ h. elim h [ ])
any_names_iff m (x ∷ xs) =
    let (to, from) = Names-iff m x in
    let (to', from') = any_names_iff m xs in
    elim (Bool-cases (names_model m x)) [
      | inl e ↦ (λ _. inl (to e), λ _. rw e refl)
      | inr e ↦ (
        λ h. inr (to' (rw e at h)),
        elim [ inl h ↦ absurd_of (from h) e | inr h ↦ rw e (from' h) ],
      )
    ]
  where
    absurd_of : {b : Bool} {c : Bool} → b ≡ true → b ≡ false → c ≡ true
    absurd_of p q = cc

pub api_key_allows_model_iff :
    (key : ApiKey) (m : Model)
    → (api_key_allows_model key m ≡ true) ↔ Allows (split_policy_list key.model_allowlist) m
unfolding api_key_allows_model
api_key_allows_model_iff key m = go (split_policy_list key.model_allowlist)
  where
    go : (xs : List Text) → (phlox_gw.Gateway.Policy.allows xs m ≡ true) ↔ Allows xs m
    go [] = (λ _. tt, λ _. refl)
    go (x ∷ xs) = any_names_iff m (x ∷ xs)

-- Some limit of the pair is positive.
abbrev pub IsLimited : ℤ → ℤ → Type 0
IsLimited rpm tpm = (pos 0 <ℤ rpm) ⊎ (pos 0 <ℤ tpm)

abbrev pub InBounds : ℤ → ℤ → WindowUsage → Type 0
InBounds rpm tpm used = Within rpm used.requests × Within tpm used.total_tokens

-- A read succeeds with a value of which the predicate holds.
abbrev pub Returns {ℓ} : {A : Type ℓ} → Result A → (A → Type 0) → Type ℓ
Returns {A} r P = (a : A) × (r ≡ ok a) × P a

module _ (store : PolicyStore) (now : Time) where
  abbrev pub IsLimitMet : RateLimit → Type 0
  IsLimitMet l =
      IsLimited l.rpm_limit l.tpm_limit
      → Returns (store.rate_limit_window_usage l (minute_before now))
          (InBounds l.rpm_limit l.tpm_limit)

  -- What admits a request of a user, by an API key, for a model of a provider.
  pub record IsAdmitted (user : User) (key : ApiKey) (route : RoutedModel) : Type 0 where
    pub allowed : Allows (split_policy_list key.model_allowlist) route.model
    pub key_budget :
        is_priced route.model ≡ true
        → pos 0 <ℤ key.budget_usd
        → Returns
            (store.api_key_monthly_spend key.id (month_bounds now).0 (month_bounds now).1)
            (λ spend. spend <ℤ key.budget_usd)
    pub key_window :
        IsLimited key.rpm_limit key.tpm_limit
        → Returns
            (store.api_key_window_usage key.id (minute_before now))
            (InBounds key.rpm_limit key.tpm_limit)
    pub budgets :
        Returns
          (store.budget_status user (is_priced route.model))
          (λ status. status.blocked ≡ false)
    pub rate_limits : Returns (store.applicable_rate_limits user route) (All IsLimitMet)

  pub check_api_key_limits_sound :
      (key : ApiKey)
      → check_api_key_limits store now key ≡ none
      → IsLimited key.rpm_limit key.tpm_limit
      → Returns
          (store.api_key_window_usage key.id (minute_before now))
          (InBounds key.rpm_limit key.tpm_limit)
  unfolding check_api_key_limits
  check_api_key_limits_sound key h l =
      elim (Result-cases (store.api_key_window_usage key.id (minute_before now))) [
        | inl (used, e) ↦ (used, e, (λ p. ground arith, λ p. ground arith))
        | inr (x, e) ↦ absurd (ground arith)
      ]

  pub check_api_key_limits_complete :
      (key : ApiKey)
      → (IsLimited key.rpm_limit key.tpm_limit
          → Returns
              (store.api_key_window_usage key.id (minute_before now))
              (InBounds key.rpm_limit key.tpm_limit))
      → check_api_key_limits store now key ≡ none
  unfolding check_api_key_limits
  check_api_key_limits_complete key h =
      elim (Bool-cases (ltb_ℤ (pos 0) key.rpm_limit || ltb_ℤ (pos 0) key.tpm_limit)) [
        | inl limited ↦
            let (used, e, (r, t)) = h (ground arith) in
            rw (limited, e)
              (ground (
                arith,
                not_exceeds key.rpm_limit used.requests r,
                not_exceeds key.tpm_limit used.total_tokens t,
              ))
        | inr free ↦ rw free refl
      ]
