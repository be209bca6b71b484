-- ===== src/Examples/Policies.antt =====
-- The state machine, the retry policy, the repositories and the rate limiter at concrete inputs.
use enterprise_vault_migrati.Prelude.{
  ℕ, ◌≡◌, ◌<◌, ◌≢◌, ◌↔◌, ◌⊎◌, ◌&&◌, refl, true, false, none, some, [], ◌∷◌, arith, ltb,
}
use enterprise_vault_migrati.Errors.{ok}
use enterprise_vault_migrati.Runtime.{float_min}
use enterprise_vault_migrati.Retry.{
  RetryStrategy, RetryPolicy, RetryDecision, RetryRecord, decide, validate_policy, is_no_retry,
  is_exponential, calculate_delay, strategy_delay,
}
use enterprise_vault_migrati.Retry.Policy.{FloatLaws, decide_iff, delay_bounds}
use enterprise_vault_migrati.Target.RateLimiter.{UploadRateLimiter}
use enterprise_vault_migrati.Target.RateLimiter.Spacing.{
  TimeLaws, Spaced, admitted_at, admitted-Spaced, obeying_client, obeying_client_starves,
}
use enterprise_vault_migrati.Examples.Data.{nat_runtime}

abbrev backoff : RetryPolicy ℕ
backoff = record {
  strategy = RetryStrategy.exponential_backoff;
  max_attempts = 5;
  fixed_delay_seconds = 0;
  initial_backoff_seconds = 2;
  maximum_backoff_seconds = 5;
  backoff_multiplier = 2;
}

-- The third attempt would wait 8 seconds, and waits the maximum of 5.
abbrev third_decision : RetryDecision ℕ
third_decision = record {
  should_retry = true;
  attempt_number = 3;
  remaining_attempts = 2;
  delay_seconds = 5;
  strategy = RetryStrategy.exponential_backoff;
  reason = none;
}

decide_third : decide nat_runtime backoff 3 true none ≡ ok third_decision
unfolding decide is_no_retry calculate_delay strategy_delay float_min
decide_third = refl

decide_iff_example : (third_decision.should_retry ≡ true) ↔ (
    (true ≡ true)
    × (backoff.strategy ≢ RetryStrategy.no_retry)
    × (0 < third_decision.remaining_attempts))
decide_iff_example = decide_iff nat_runtime backoff 3 true none decide_third

nat-FloatLaws : FloatLaws nat_runtime
nat-FloatLaws = record {
  lt_irrefl = λ a. ground arith;
  times_nonneg = λ a b p q. ground arith;
  power_nonneg = λ a k e p. ground arith;
}

delay_bounds_example :
    (ltb third_decision.delay_seconds 0 ≡ false)
    × ((is_exponential backoff.strategy && true && ltb 5 third_decision.delay_seconds) ≡ false)
    × ((third_decision.should_retry ≡ true) ⊎ (third_decision.delay_seconds ≡ 0))
unfolding validate_policy is_exponential
delay_bounds_example = delay_bounds nat_runtime nat-FloatLaws backoff 3 true none refl decide_third

abbrev retry_record : RetryRecord
retry_record = record {
  id = "r";
  migration_item_id = none;
  retry_strategy = RetryStrategy.fixed_delay;
  attempt_number = 1;
  migration_job_id = some "job";
  pipeline_step_name = none;
  retry_reason = none;
  created_at = 0;
  updated_at = 0;
}

abbrev limiter : UploadRateLimiter ℕ
limiter = record { requests_per_second = some 1; next_available_at = some 10 }

nat-TimeLaws : TimeLaws nat_runtime
nat-TimeLaws = record {
  zero_not_positive = ground arith;
  seconds_positive = λ n p. ground arith;
  seconds_not_negative = λ n. ground arith;
}

admitted-Spaced_example : Spaced 10 (admitted_at nat_runtime limiter (10 ∷ 15 ∷ 40 ∷ 60 ∷ []))
admitted-Spaced_example =
    admitted-Spaced nat_runtime nat-TimeLaws 1 limiter (10 ∷ 15 ∷ 40 ∷ 60 ∷ []) refl

obeying_client_starves_example : obeying_client nat_runtime (λ n. n) 3 limiter 5 ≡ false
obeying_client_starves_example =
    obeying_client_starves nat_runtime nat-TimeLaws 1 (λ n. n) (λ n. refl) 3 limiter 5 10 refl refl
      (ground arith) (ground arith)
