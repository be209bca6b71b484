-- ===== src/Runner/Decisions.antt =====
-- When _decide_retry of src/migration_engine/runner/pipeline_runner.py decides to retry, and when it
-- raises.
use enterprise_vault_migrati.Prelude.{
  ℕ, ◌-◌, ltb, ◌<◌, ◌≡◌, refl, String, Bool, true, Option, none, some, arith, Bool-cases,
  Option-cases, inl, inr, max,
}
use enterprise_vault_migrati.Runtime.{Runtime}
use enterprise_vault_migrati.Errors.{ok, err, Exception, Attempt, ◌>>=◌}
use enterprise_vault_migrati.Retry.{
  RetryPolicy, RetryDecision, decide, decided, calculate_delay, strategy_delay, backoff,
}
use enterprise_vault_migrati.Runner.Retries.{
  decide_retry, with_retry_after, retry_after_of, is_retryable,
}

-- The number of attempts that a policy allows; without one there is no second attempt.
abbrev pub limit : {F : Type 0} → Option (RetryPolicy F) → ℕ
limit none = 1
limit (some p) = max 1 p.max_attempts

-- The power in the backoff delay overflows for some attempt.
abbrev pub Overflows : {F : Type 0} → Runtime F → Option (RetryPolicy F) → Type 0
Overflows {F} rt policy =
    (p : RetryPolicy F) × (policy ≡ some p) × (k : ℕ) × (rt.power p.backoff_multiplier k ≡ none)

-- The collaborator is there and raises `x` at some call.
abbrev pub Raises :
    {F S X : Type 0} → Option (X → S → Attempt F (Unit {0}) × S) → Exception F → Type 0
Raises {F} {S} {X} o x =
    (f : X → S → Attempt F (Unit {0}) × S) × (o ≡ some f) × (a : X) × (s : S) × ((f a s).0 ≡ err x)

module _ {F : Type 0} (rt : Runtime F) (classifier : Option (Exception F → Bool)) (e : Exception F)
    (n : ℕ) where
  with_retry_after-should_retry :
      (x : F) (d : RetryDecision F) → (with_retry_after rt x d).should_retry ≡ d.should_retry
  unfolding with_retry_after
  with_retry_after-should_retry x d = ground arith

  decide_within :
      (p : RetryPolicy F) {d : RetryDecision F}
      → decide rt p n true (some e.message) ≡ ok d
      → d.should_retry ≡ true
      → n < p.max_attempts
  unfolding decide
  decide_within p h r = ground arith

  decided_error :
      (p : RetryPolicy F) (again : Bool) (reason : Option String) (o : Attempt F F)
      {x : Exception F}
      → calculate_delay rt p n again ≡ o
      → decided rt p n again reason o ≡ err x
      → rt.power p.backoff_multiplier (n - 1) ≡ none
  unfolding decided calculate_delay strategy_delay backoff
  decided_error p again reason (ok y) c h = absurd (ground arith)
  decided_error p again reason (err y) c h =
      elim (Option-cases (rt.power p.backoff_multiplier (n - 1))) [
        | inl over ↦ over
        | inr power ↦ absurd (ground (arith, power.1))
      ]

  decide_error :
      (p : RetryPolicy F) {x : Exception F}
      → 0 < n
      → decide rt p n true (some e.message) ≡ err x
      → rt.power p.backoff_multiplier (n - 1) ≡ none
  unfolding decide
  decide_error p k h = elim (Bool-cases (ltb n 1)) [
    | inl low ↦ absurd (ground (arith, low, k))
    | inr fine ↦ decided_error p _ (some e.message) _ refl (rw fine at h)
  ]

  adjusted_within :
      (p : RetryPolicy F) (o : Attempt F (RetryDecision F)) {d : RetryDecision F}
      → decide rt p n true (some e.message) ≡ o
      → (o >>= λ c. ok (some (with_retry_after rt (retry_after_of rt e.retry_after_seconds) c)))
        ≡ ok (some d)
      → d.should_retry ≡ true
      → n < p.max_attempts
  adjusted_within p (ok c) q h r =
      decide_within p q
        (ground (arith, with_retry_after-should_retry (retry_after_of rt e.retry_after_seconds) c))
  adjusted_within p (err x) q h r = absurd (ground arith)

  adjusted_error :
      (p : RetryPolicy F) (o : Attempt F (RetryDecision F)) {x : Exception F}
      → 0 < n
      → decide rt p n true (some e.message) ≡ o
      → (o >>= λ c. ok (some (with_retry_after rt (retry_after_of rt e.retry_after_seconds) c)))
        ≡ err x
      → rt.power p.backoff_multiplier (n - 1) ≡ none
  adjusted_error p (ok c) k q h = absurd (ground arith)
  adjusted_error p (err y) k q h = decide_error p k q

  pub decide_retry_within :
      (policy : Option (RetryPolicy F)) {d : RetryDecision F}
      → decide_retry rt policy classifier e n ≡ ok (some d)
      → d.should_retry ≡ true
      → n < limit policy
  unfolding decide_retry
  decide_retry_within none h r = absurd (ground arith)
  decide_retry_within (some p) h r = elim (Bool-cases (is_retryable rt classifier e)) [
    | inl y ↦ ground (arith, adjusted_within p _ refl (rw y at h) r)
    | inr fatal ↦ absurd (ground (arith, fatal))
  ]

  pub decide_retry_error :
      (policy : Option (RetryPolicy F)) {x : Exception F}
      → 0 < n
      → decide_retry rt policy classifier e n ≡ err x
      → Overflows rt policy
  unfolding decide_retry
  decide_retry_error none k h = absurd (ground arith)
  decide_retry_error (some p) k h = elim (Bool-cases (is_retryable rt classifier e)) [
    | inl y ↦ (p, refl, n - 1, adjusted_error p _ k refl (rw y at h))
    | inr fatal ↦ absurd (ground (arith, fatal))
  ]
