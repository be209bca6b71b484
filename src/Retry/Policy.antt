-- ===== src/Retry/Policy.antt =====
-- What a retry decision promises.
use enterprise_vault_migrati.Prelude.{
  ℕ, ◌-◌, ◌<◌, ◌≡◌, Bool, true, false, Option, arith, ◌↔◌, ◌≢◌, String, ◌⊎◌, ◌&&◌, some, none, refl,
  ltb, Bool-cases, inl, inr,
}
use enterprise_vault_migrati.Runtime.{Runtime, float_min}
use enterprise_vault_migrati.Errors.{ok, err, Attempt}
use enterprise_vault_migrati.Retry.{
  RetryStrategy, RetryPolicy, backoff, decided, RetryDecision, decide, calculate_delay,
  strategy_delay, validate_policy, is_no_retry, is_exponential,
}

is_no_retry_iff : (s : RetryStrategy) → (is_no_retry s ≡ true) ↔ (s ≡ RetryStrategy.no_retry)
unfolding is_no_retry
is_no_retry_iff s = ground arith

is_exponential_iff :
    (s : RetryStrategy) → (is_exponential s ≡ true) ↔ (s ≡ RetryStrategy.exponential_backoff)
unfolding is_exponential
is_exponential_iff s = ground arith

module _ {F : Type 0} (rt : Runtime F) (p : RetryPolicy F) (n : ℕ) (retryable : Bool)
    (reason : Option String) where
  -- A decision to retry is made exactly for a retryable failure, under a strategy other than NONE,
  -- while attempts remain after this one.
  pub decide_iff :
      {d : RetryDecision F}
      → decide rt p n retryable reason ≡ ok d
      → (d.should_retry ≡ true)
        ↔ ((retryable ≡ true) × (p.strategy ≢ RetryStrategy.no_retry) × (0 < d.remaining_attempts))
  unfolding decide
  decide_iff h = (
    λ r. (ground arith, λ e. ground (arith, is_no_retry_iff p.strategy), ground arith),
    λ a. ground (arith, is_no_retry_iff p.strategy, a.0, a.1, a.2),
  )

-- What the delays need of floating-point comparison, product and power.
pub record FloatLaws {F : Type 0} (rt : Runtime F) : Type 0 where
  pub lt_irrefl : (a : F) → rt.float_lt a a ≡ false
  pub times_nonneg :
      (a b : F)
      → rt.float_lt a rt.zero_float ≡ false
      → rt.float_lt b rt.zero_float ≡ false
      → rt.float_lt (rt.times a b) rt.zero_float ≡ false
  pub power_nonneg :
      (a : F) (k : ℕ) {x : F}
      → rt.power a k ≡ some x
      → rt.float_lt a rt.one_float ≡ false
      → rt.float_lt x rt.zero_float ≡ false

module _ {F : Type 0} (rt : Runtime F) (laws : FloatLaws rt) (p : RetryPolicy F) where
  backoff_within :
      (o : Option F) {x : F}
      → ((y : F) → o ≡ some y → rt.float_lt y rt.zero_float ≡ false)
      → rt.float_lt p.initial_backoff_seconds rt.zero_float ≡ false
      → rt.float_lt p.maximum_backoff_seconds rt.zero_float ≡ false
      → backoff rt p o ≡ ok x
      → (rt.float_lt x rt.zero_float ≡ false) × (rt.float_lt p.maximum_backoff_seconds x ≡ false)
  unfolding backoff float_min
  backoff_within none nonneg i m h = absurd (ground arith)
  backoff_within (some y) nonneg i m h =
      let times = laws.times_nonneg p.initial_backoff_seconds y i (nonneg y refl) in
      (ground (arith, times), ground (arith, laws.lt_irrefl p.maximum_backoff_seconds))

  strategy_delay_within :
      (n : ℕ) (s : RetryStrategy) {x : F}
      → validate_policy rt p ≡ ok p
      → strategy_delay rt s p n ≡ ok x
      → (rt.float_lt x rt.zero_float ≡ false)
        × ((is_exponential s && rt.float_lt p.maximum_backoff_seconds x) ≡ false)
  unfolding strategy_delay validate_policy is_exponential
  strategy_delay_within n RetryStrategy.no_retry v h =
      (ground (arith, laws.lt_irrefl rt.zero_float), refl)
  strategy_delay_within n RetryStrategy.fixed_delay v h = (ground arith, refl)
  strategy_delay_within n RetryStrategy.exponential_backoff v h =
      backoff_within (rt.power p.backoff_multiplier (n - 1))
        (λ y e. laws.power_nonneg p.backoff_multiplier (n - 1) e (ground arith)) (ground arith)
        (ground arith) h

  decided_within :
      (n : ℕ) (again : Bool) (reason : Option String) (o : Attempt F F) {d : RetryDecision F}
      → validate_policy rt p ≡ ok p
      → calculate_delay rt p n again ≡ o
      → decided rt p n again reason o ≡ ok d
      → (rt.float_lt d.delay_seconds rt.zero_float ≡ false)
        × ((is_exponential p.strategy
              && d.should_retry
              && rt.float_lt p.maximum_backoff_seconds d.delay_seconds)
            ≡ false)
        × ((d.should_retry ≡ true) ⊎ (d.delay_seconds ≡ rt.zero_float))
  unfolding decided calculate_delay
  decided_within n again reason (err e) v c h = absurd (ground arith)
  decided_within n true reason (ok x) v c h =
      let (nonneg, capped) = strategy_delay_within n p.strategy v c in
      (ground (arith, nonneg), ground (arith, capped), ground arith)
  decided_within n false reason (ok x) v c h =
      (ground (arith, laws.lt_irrefl rt.zero_float), ground arith, ground arith)

  -- Under a validated policy no delay is negative, a backoff delay never passes the maximum, and a
  -- failure that is not retried has delay 0.
  pub delay_bounds :
      (n : ℕ) (retryable : Bool) (reason : Option String) {d : RetryDecision F}
      → validate_policy rt p ≡ ok p
      → decide rt p n retryable reason ≡ ok d
      → (rt.float_lt d.delay_seconds rt.zero_float ≡ false)
        × ((is_exponential p.strategy
              && d.should_retry
              && rt.float_lt p.maximum_backoff_seconds d.delay_seconds)
            ≡ false)
        × ((d.should_retry ≡ true) ⊎ (d.delay_seconds ≡ rt.zero_float))
  unfolding decide
  delay_bounds n retryable reason v h = elim (Bool-cases (ltb n 1)) [
    | inl low ↦ absurd (ground (arith, low))
    | inr fine ↦ decided_within n _ reason _ v refl (rw fine at h)
  ]
