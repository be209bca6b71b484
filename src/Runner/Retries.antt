-- ===== src/Runner/Retries.antt =====
-- The retries of src/migration_engine/runner/pipeline_runner.py: the decision, the counters, the record
-- and the loop over the attempts of one step. What a step does in an attempt is the argument `attempt`.
use Prim.Native.String.{◌++◌ as ◌+s◌}
use enterprise_vault_migrati.Prelude.{
  ℕ, zero, suc, ◌+◌, ◌==◌, String, Bool, true, false, Option, none, some, List, [], ◌∷◌, ◌++◌,
  if◌then◌else◌, max, is_some,
}
use enterprise_vault_migrati.Runtime.{Runtime, float_max}
use enterprise_vault_migrati.Errors.{ok, err, Exception, Attempt, plain, runtime_error, ◌>>=◌}
use enterprise_vault_migrati.Contracts.{Metrics}
use enterprise_vault_migrati.Retry.{RetryPolicy, RetryDecision, RetryRecord, decide}
use enterprise_vault_migrati.Runner.Checkpoints.{resolve_metrics}

module _ {F : Type 0} (rt : Runtime F) where
  -- float(getattr(exception, "retry_after_seconds", 0.0) or 0.0)
  unfoldable pub retry_after_of : Option (Option F) → F
  retry_after_of (some (some x)) = x
  retry_after_of _ = rt.zero_float

  -- the classifier, or else `hasattr(exception, "retry_after_seconds")`
  unfoldable pub is_retryable : Option (Exception F → Bool) → Exception F → Bool
  is_retryable none e = is_some e.retry_after_seconds
  is_retryable (some classify) e = classify e

  -- the decision with at least the delay that the exception names
  unfoldable pub with_retry_after : F → RetryDecision F → RetryDecision F
  with_retry_after seconds d =
      if rt.float_lt d.delay_seconds seconds then record d { delay_seconds = seconds } else d

  -- _decide_retry
  unfoldable pub decide_retry :
      Option (RetryPolicy F)
      → Option (Exception F → Bool)
      → Exception F
      → ℕ
      → Attempt F (Option (RetryDecision F))
  unfolding retry_after_of is_retryable with_retry_after
  decide_retry none classifier e n = ok none
  decide_retry (some p) classifier e n =
      if is_retryable classifier e
      then (decide rt p n true (some e.message) >>= λ d.
          ok (some (with_retry_after (retry_after_of e.retry_after_seconds) d)))
      else ok none

  -- `status_code == code`
  unfoldable pub has_status : ℕ → Option ℕ → Bool
  has_status code none = false
  has_status code (some c) = c == code

  -- _build_retry_metrics
  unfoldable pub build_retry_metrics : Option (Metrics F) → ℕ → ℕ → Exception F → Metrics F
  unfolding has_status retry_after_of
  build_retry_metrics latest started finished e =
      let m = resolve_metrics rt latest started finished in
      record m {
        retried_items = m.retried_items + 1;
        throttled_uploads = m.throttled_uploads + (if has_status 429 e.status_code then 1 else 0);
        retry_after_count =
            m.retry_after_count
            + (if rt.float_lt rt.zero_float (retry_after_of e.retry_after_seconds) then 1 else 0);
        temporary_failures = m.temporary_failures + (if has_status 503 e.status_code then 1 else 0);
      }

  -- _merge_retry_metrics; where nothing is greater in `latest`, the copy is `current`
  unfoldable pub merge_retry_metrics : Option (Metrics F) → Option (Metrics F) → Option (Metrics F)
  merge_retry_metrics none latest = latest
  merge_retry_metrics (some m) none = some m
  merge_retry_metrics (some m) (some l) = some (record m {
    retried_items = max m.retried_items l.retried_items;
    throttled_uploads = max m.throttled_uploads l.throttled_uploads;
    retry_after_count = max m.retry_after_count l.retry_after_count;
    temporary_failures = max m.temporary_failures l.temporary_failures;
    worker_utilization = float_max rt m.worker_utilization l.worker_utilization;
  })

  -- the record that _build_retry_record makes under a policy
  unfoldable pub build_retry_record :
      RetryPolicy F → String → String → ℕ → ℕ → Option String → RetryRecord
  build_retry_record p migration_id step_name n timestamp reason = record {
    id = rt.uuid_of_name (migration_id +s ":" +s step_name +s ":" +s rt.decimal n);
    migration_item_id = none;
    retry_strategy = p.strategy;
    attempt_number = n;
    migration_job_id = some migration_id;
    pipeline_step_name = some step_name;
    retry_reason = reason;
    created_at = timestamp;
    updated_at = timestamp;
  }

-- What the attempts leave behind: the metrics, the saved records and the delays slept, oldest first.
pub record Trace (F : Type 0) : Type 0 where
  pub latest_metrics : Option (Metrics F)
  pub records : List RetryRecord
  pub delays : List F

-- `latest_metrics` after an attempt that has got as far as to a report; `produced` are the metrics
-- of that, or none where the step raised or its report has none.
unfoldable pub merged : {F : Type 0} → Runtime F → Option (Metrics F) → Trace F → Trace F
unfolding merge_retry_metrics
merged rt produced t = record t {
  latest_metrics = merge_retry_metrics rt produced t.latest_metrics;
}

-- How the loop ends: with what the step gives, or with the exception of the last attempt, which was
-- `attempts`-th, and the decision on it.
pub data Ending (F A : Type 0) : Type 0 where
  finished : A → ℕ → Ending F A
  gave_up : Exception F → Option (RetryDecision F) → ℕ → Ending F A
  escaped : Exception F → Ending F A

-- The collaborators of a retry: the retry repository and the sleeper, where there are any.
module _ {F S : Type 0} (rt : Runtime F) (policy : Option (RetryPolicy F))
    (save_retry : Option (RetryRecord → S → Attempt F (Unit {0}) × S))
    (sleeper : Option (F → S → Attempt F (Unit {0}) × S)) (migration_id step_name : String)
    (started : ℕ) (now : ℕ → ℕ) where
  -- `self.sleeper(…)`, and the metrics for the next attempt
  unfoldable pub paused : Metrics F → F → Attempt F (Trace F) × S → Attempt F (Trace F) × S
  paused m delay (err x, s) = (err x, s)
  paused m delay (ok t, s) = elim sleeper [
    | none ↦ (ok (record t { latest_metrics = some m }), s)
    | some sleep ↦
        let (o, s') = sleep delay s in
        (
          (o >>= λ _. ok (record t { latest_metrics = some m; delays = t.delays ++ delay ∷ [] })),
          s',
        )
  ]

  -- `self.retry_repository.save(…)`
  unfoldable pub recorded : Attempt F RetryRecord → Trace F → S → Attempt F (Trace F) × S
  recorded (err x) t s = (err x, s)
  recorded (ok r) t s = elim save_retry [
    | none ↦ (ok t, s)
    | some save ↦
        let (o, s') = save r s in ((o >>= λ _. ok (record t { records = t.records ++ r ∷ [] })), s')
  ]

  -- _build_retry_record
  unfoldable pub retry_record : Option (RetryPolicy F) → ℕ → Option String → Attempt F RetryRecord
  retry_record none n reason =
      err (plain runtime_error "Retry policy is required to build a retry record.")
  retry_record (some p) n reason =
      ok (build_retry_record rt p migration_id step_name n (now n) reason)

  -- the effects of a decision to retry; the tracker updates between the two calls are made in front
  -- of the next attempt
  unfoldable pub retried : Exception F → RetryDecision F → ℕ → Trace F → S → Attempt F (Trace F) × S
  unfolding paused recorded retry_record
  retried e d n t s =
      paused (build_retry_metrics rt t.latest_metrics started (now n) e) d.delay_seconds
        (recorded (retry_record policy n d.reason) t s)

module _ {F A S : Type 0} (rt : Runtime F) (policy : Option (RetryPolicy F))
    (classifier : Option (Exception F → Bool))
    (save_retry : Option (RetryRecord → S → Attempt F (Unit {0}) × S))
    (sleeper : Option (F → S → Attempt F (Unit {0}) × S)) (migration_id step_name : String)
    (started : ℕ) (now : ℕ → ℕ)
    (attempt : ℕ → Trace F → S → (Option (Metrics F) × Attempt F A) × S) where
  -- a retry that goes through leads to a further attempt; an exception of it leaves the loop, where
  -- nothing uses the trace any more
  unfoldable pub after_retry :
      Trace F → Attempt F (Trace F) × S → (Trace F × Option (Ending F A)) × S
  after_retry t (err x, s) = ((t, some (escaped x)), s)
  after_retry t (ok t', s) = ((t', none), s)

  -- the `except` block up to its `continue`: the trace of a further attempt, or the end
  unfoldable pub after_failure :
      Exception F
      → ℕ
      → Attempt F (Option (RetryDecision F))
      → Trace F
      → S
      → (Trace F × Option (Ending F A)) × S
  unfolding after_retry retried
  after_failure e n (err x) t s = ((t, some (escaped x)), s)
  after_failure e n (ok none) t s = ((t, some (gave_up e none n)), s)
  after_failure e n (ok (some d)) t s =
      if d.should_retry
      then after_retry t
          (retried rt policy save_retry sleeper migration_id step_name started now e d n t s)
      else ((t, some (gave_up e (some d) n)), s)

  -- one attempt, by its outcome
  unfoldable pub after_attempt :
      Option (Metrics F) → Attempt F A → ℕ → Trace F → S → (Trace F × Option (Ending F A)) × S
  unfolding merged after_failure
  after_attempt produced (ok a) n t s = ((merged rt produced t, some (finished a n)), s)
  after_attempt produced (err e) n t s =
      after_failure e n (decide_retry rt policy classifier e n) (merged rt produced t) s

  -- an attempt that ends the loop, or the further ones
  unfoldable pub go_on :
      Option (Ending F A)
      → S
      → Trace F
      → Option (Ending F A) × (S × Trace F)
      → Option (Ending F A) × (S × Trace F)
  go_on (some ending) s t further = (some ending, (s, t))
  go_on none s t further = further

  -- `while True`, with fuel; no fuel, no ending
  unfoldable pub attempt_loop : ℕ → ℕ → S → Trace F → Option (Ending F A) × (S × Trace F)
  unfolding after_attempt go_on
  attempt_loop zero n s t = (none, (s, t))
  attempt_loop (suc fuel) n s t =
      let (r, s') = attempt n t s in
      let ((t', end), s'') = after_attempt r.0 r.1 n t s' in
      go_on end s'' t' (attempt_loop fuel (suc n) s'' t')
