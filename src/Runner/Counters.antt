-- ===== src/Runner/Counters.antt =====
-- How often a step is tried, and what the retries leave behind.
use enterprise_vault_migrati.Prelude.{
  ℕ, zero, suc, ◌+◌, ◌≤◌, ◌<◌, ◌≡◌, refl, String, Bool, Option, none, some, arith, length,
  Bool-cases, inl, inr, max, ap,
}
use enterprise_vault_migrati.Runtime.{Runtime}
use enterprise_vault_migrati.Errors.{ok, err, Exception, Attempt}
use enterprise_vault_migrati.Contracts.{Metrics}
use enterprise_vault_migrati.Retry.{RetryPolicy, RetryDecision, RetryRecord}
use enterprise_vault_migrati.Runner.Retries.{
  Trace, Ending, finished, gave_up, escaped, decide_retry, after_retry, after_failure,
  after_attempt, attempt_loop, go_on, merged,
}
use enterprise_vault_migrati.Runner.Decisions.{limit, decide_retry_within, decide_retry_error}
use enterprise_vault_migrati.Runner.Bookkeeping.{
  calls, retries, retries-merged, Escapes, Grows, Keeps, Keeps-Grows, Leaves, retried-Leaves,
}

module _ {F A S : Type 0} (rt : Runtime F) (policy : Option (RetryPolicy F))
    (classifier : Option (Exception F → Bool))
    (save_retry : Option (RetryRecord → S → Attempt F (Unit {0}) × S))
    (sleeper : Option (F → S → Attempt F (Unit {0}) × S)) (migration_id step_name : String)
    (started : ℕ) (now : ℕ → ℕ)
    (attempt : ℕ → Trace F → S → (Option (Metrics F) × Attempt F A) × S) where
  abbrev After :
      Option (Metrics F) → Attempt F A → ℕ → Trace F → S → (Trace F × Option (Ending F A)) × S
  After =
      after_attempt rt policy classifier save_retry sleeper migration_id step_name started now
        attempt

  abbrev Failed :
      Exception F
      → ℕ
      → Attempt F (Option (RetryDecision F))
      → Trace F
      → S
      → (Trace F × Option (Ending F A)) × S
  Failed =
      after_failure rt policy classifier save_retry sleeper migration_id step_name started now
        attempt

  abbrev pub loop : ℕ → ℕ → S → Trace F → Option (Ending F A) × (S × Trace F)
  loop =
      attempt_loop rt policy classifier save_retry sleeper migration_id step_name started now
        attempt

  abbrev Escaping : Exception F → Type 0
  Escaping = Escapes rt policy save_retry sleeper migration_id step_name started now

  abbrev Growing : Trace F → Trace F → Type 0
  Growing = Grows rt policy save_retry sleeper migration_id step_name started now

  abbrev Keeping : Trace F → Trace F → Type 0
  Keeping = Keeps rt policy save_retry sleeper migration_id step_name started now

  -- An attempt, `n`-th, that leads to a further one or ends the loop.
  abbrev Goes : ℕ → Trace F → Trace F × Option (Ending F A) → Type 0
  Goes n t (u, none) = (n < limit policy) × Growing t u
  Goes n t (u, some (finished a m)) = Keeping t u × (m ≡ n)
  Goes n t (u, some (gave_up e d m)) = Keeping t u × (m ≡ n)
  Goes n t (u, some (escaped x)) = Escaping x

  merged-Keeps : (produced : Option (Metrics F)) (t : Trace F) → Keeping t (merged rt produced t)
  unfolding merged
  merged-Keeps produced t = (refl, refl, retries-merged rt produced t)

  after_retry-Goes :
      (n : ℕ) (t u : Trace F) (q : Attempt F (Trace F) × S)
      → Keeping t u
      → n < limit policy
      → Leaves rt policy save_retry sleeper migration_id step_name started now (Growing u) q
      → Goes n t
          (after_retry rt policy classifier save_retry sleeper migration_id step_name started now
            attempt u q).0
  unfolding after_retry
  after_retry-Goes n t u (err x, s) k within h = h
  after_retry-Goes n t u (ok v, s) k within h = (
    within,
    Keeps-Grows rt policy save_retry sleeper migration_id step_name started now t u v k h,
  )

  after_failure-Goes :
      (e : Exception F) (n : ℕ) (o : Attempt F (Option (RetryDecision F))) (t u : Trace F) (s : S)
      → 0 < n
      → decide_retry rt policy classifier e n ≡ o
      → Keeping t u
      → Goes n t (Failed e n o u s).0
  unfolding after_failure
  after_failure-Goes e n (err x) t u s k p h = inl (decide_retry_error rt classifier e n policy k p)
  after_failure-Goes e n (ok none) t u s k p h = (h, refl)
  after_failure-Goes e n (ok (some d)) t u s k p h = elim (Bool-cases d.should_retry) [
    | inl again ↦
        let within = decide_retry_within rt classifier e n policy p again in
        rw again (
          after_retry-Goes n t u _ h within (
            retried-Leaves rt policy save_retry sleeper migration_id step_name started now e d n u s
              k within))
    | inr stop ↦ rw stop (h, refl)
  ]

  after-Goes :
      (produced : Option (Metrics F)) (o : Attempt F A) (n : ℕ) (t : Trace F) (s : S)
      → 0 < n
      → Goes n t (After produced o n t s).0
  unfolding after_attempt
  after-Goes produced (ok a) n t s k = (merged-Keeps produced t, refl)
  after-Goes produced (err e) n t s k =
      after_failure-Goes e n _ t (merged rt produced t) s k refl (merged-Keeps produced t)

  -- From attempt `n` and the trace `t` to the last attempt `m` and the trace `u`: `m` is an attempt
  -- that the policy allows; each attempt but the last has left one delay, where there is a sleeper,
  -- and one record, where there is a retry repository, and is counted among the retried items.
  pub record Counts (n : ℕ) (t : Trace F) (m : ℕ) (u : Trace F) : Type 0 where
    pub reached : n ≤ m
    pub allowed : m ≤ max n (limit policy)
    pub slept : length u.delays + calls sleeper n ≡ length t.delays + calls sleeper m
    pub recorded : length u.records + calls save_retry n ≡ length t.records + calls save_retry m
    pub counted : retries t.latest_metrics + m ≤ retries u.latest_metrics + n

  -- The loop ends with what the step gives or with its failure after such attempts; or an exception
  -- of the backoff, the retry repository or the sleeper leaves it.
  abbrev pub Ends : ℕ → Trace F → Option (Ending F A) × (S × Trace F) → Type 0
  Ends n t (none, (s, u)) = ⊥
  Ends n t (some (finished a m), (s, u)) = Counts n t m u
  Ends n t (some (gave_up e d m), (s, u)) = Counts n t m u
  Ends n t (some (escaped x), (s, u)) = Escaping x

  last-Counts : (n m : ℕ) (t u : Trace F) → Keeping t u → m ≡ n → Counts n t m u
  last-Counts n m t u (delays, records, more) here = record {
    reached = omega (arith, here);
    allowed = ground (arith, here);
    slept = rw here (ap (λ l. length l + calls sleeper n) delays);
    recorded = rw here (ap (λ l. length l + calls save_retry n) records);
    counted = omega (arith, here, more);
  }

  calls-suc :
      {X : Type 0} (o : Option X) (n a b c m : ℕ)
      → b ≡ a + calls o 1
      → c + calls o (suc n) ≡ b + calls o m
      → c + calls o n ≡ a + calls o m
  calls-suc none n a b c m p q = omega (arith, p, q)
  calls-suc (some x) n a b c m p q = omega (arith, p, q)

  further-Counts :
      (n m : ℕ) (t u v : Trace F)
      → n < limit policy
      → Growing t u
      → Counts (suc n) u m v
      → Counts n t m v
  further-Counts n m t u v within (delays, records, more) later = record {
    reached = omega (arith, later.reached);
    allowed = ground (arith, later.allowed, within);
    slept = calls-suc sleeper n _ _ _ m delays later.slept;
    recorded = calls-suc save_retry n _ _ _ m records later.recorded;
    counted = omega (arith, later.counted, more);
  }

  further-Ends :
      (n : ℕ) (t u : Trace F) (r : Option (Ending F A) × (S × Trace F))
      → n < limit policy
      → Growing t u
      → Ends (suc n) u r
      → Ends n t r
  further-Ends n t u (none, (s, v)) within grown h = h
  further-Ends n t u (some (finished a m), (s, v)) within grown h =
      further-Counts n m t u v within grown h
  further-Ends n t u (some (gave_up e d m), (s, v)) within grown h =
      further-Counts n m t u v within grown h
  further-Ends n t u (some (escaped x), (s, v)) within grown h = h

  go_on-Ends :
      (n : ℕ) (t u : Trace F) (end : Option (Ending F A)) (s : S)
      (further : Option (Ending F A) × (S × Trace F))
      → Goes n t (u, end)
      → (n < limit policy → Ends (suc n) u further)
      → Ends n t (
          go_on rt policy classifier save_retry sleeper migration_id step_name started now attempt
            end s u further)
  unfolding go_on
  go_on-Ends n t u (some (finished a m)) s further (kept, here) rest = last-Counts n m t u kept here
  go_on-Ends n t u (some (gave_up e d m)) s further (kept, here) rest =
      last-Counts n m t u kept here
  go_on-Ends n t u (some (escaped x)) s further h rest = h
  go_on-Ends n t u none s further (within, grown) rest =
      further-Ends n t u further within grown (rest within)

  loop-Ends :
      (fuel n : ℕ) (s : S) (t : Trace F)
      → 0 < n
      → limit policy ≤ n + fuel
      → Ends n t (loop (suc fuel) n s t)
  unfolding attempt_loop
  loop-Ends zero n s t k enough =
      let ((produced, o), s') = attempt n t s in
      let q = After produced o n t s' in
      go_on-Ends n t q.0.0 q.0.1 q.1 _ (after-Goes produced o n t s' k)
        (λ within. absurd (omega (arith, enough, within)))
  loop-Ends (suc fuel) n s t k enough =
      let ((produced, o), s') = attempt n t s in
      let q = After produced o n t s' in
      go_on-Ends n t q.0.0 q.0.1 q.1 _ (after-Goes produced o n t s' k)
        (λ within. loop-Ends fuel (suc n) q.1 q.0.0 (omega arith) (omega (arith, enough)))

  pub attempts-Ends : (s : S) (t : Trace F) → Ends 1 t (loop (suc (limit policy)) 1 s t)
  attempts-Ends s t = loop-Ends (limit policy) 1 s t (omega arith) (omega arith)
