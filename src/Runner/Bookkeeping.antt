-- ===== src/Runner/Bookkeeping.antt =====
-- What one retry leaves behind, by the answers of the retry repository and the sleeper.
use enterprise_vault_migrati.Prelude.{
  ℕ, suc, ◌+◌, ◌⊎◌, ◌≤◌, ◌<◌, ◌≡◌, refl, String, Option, none, some, [], ◌∷◌, ◌++◌, arith, length,
  length-append, Option-cases, inl, inr, ◌∙◌, ap, subst, sym,
}
use enterprise_vault_migrati.Runtime.{Runtime}
use enterprise_vault_migrati.Errors.{ok, err, Exception, Attempt, ◌>>=◌}
use enterprise_vault_migrati.Contracts.{Metrics, metrics_defaults}
use enterprise_vault_migrati.Runner.Checkpoints.{resolve_metrics}
use enterprise_vault_migrati.Retry.{RetryPolicy, RetryDecision, RetryRecord}
use enterprise_vault_migrati.Runner.Retries.{
  Trace, paused, recorded, retry_record, build_retry_record, retried, merged, merge_retry_metrics,
  build_retry_metrics,
}
use enterprise_vault_migrati.Runner.Decisions.{limit, Overflows, Raises}

-- What `k` calls of a collaborator come to, if there is one.
abbrev pub calls : {X : Type 0} → Option X → ℕ → ℕ
calls none k = 0
calls (some x) k = k

-- What the metrics count as retried.
abbrev pub retries : {F : Type 0} → Option (Metrics F) → ℕ
retries none = 0
retries (some m) = m.retried_items

module _ {F : Type 0} (rt : Runtime F) where
  retries-merge_retry_metrics :
      (produced latest : Option (Metrics F))
      → retries latest ≤ retries (merge_retry_metrics rt produced latest)
  unfolding merge_retry_metrics
  retries-merge_retry_metrics none latest = omega arith
  retries-merge_retry_metrics (some m) none = omega arith
  retries-merge_retry_metrics (some m) (some l) = ground arith

  pub retries-merged :
      (produced : Option (Metrics F)) (t : Trace F)
      → retries t.latest_metrics ≤ retries (merged rt produced t).latest_metrics
  unfolding merged
  retries-merged produced t = retries-merge_retry_metrics produced t.latest_metrics

  retries-build_retry_metrics :
      (latest : Option (Metrics F)) (started ended_at : ℕ) (e : Exception F)
      → retries (some (build_retry_metrics rt latest started ended_at e)) ≡ suc (retries latest)
  unfolding build_retry_metrics resolve_metrics metrics_defaults
  retries-build_retry_metrics none started ended_at e = ground arith
  retries-build_retry_metrics (some m) started ended_at e = ground arith

module _ {F S : Type 0} (rt : Runtime F) (policy : Option (RetryPolicy F))
    (save_retry : Option (RetryRecord → S → Attempt F (Unit {0}) × S))
    (sleeper : Option (F → S → Attempt F (Unit {0}) × S)) (migration_id step_name : String)
    (started : ℕ) (now : ℕ → ℕ) where
  -- Where an exception that leaves the loop comes from: the delay overflows, or the retry repository
  -- or the sleeper raises it.
  abbrev pub Escapes : Exception F → Type 0
  Escapes x = Overflows rt policy ⊎ (Raises save_retry x ⊎ Raises sleeper x)

  -- `u` has one delay and one record more than `t`, for the collaborators that there are, and at
  -- least one counted retry more.
  abbrev pub Grows : Trace F → Trace F → Type 0
  Grows t u =
      (length u.delays ≡ length t.delays + calls sleeper 1)
      × (length u.records ≡ length t.records + calls save_retry 1)
      × (suc (retries t.latest_metrics) ≤ retries u.latest_metrics)

  -- `u` has the delays and the records of `t` and counts no fewer retries.
  abbrev pub Keeps : Trace F → Trace F → Type 0
  Keeps t u =
      (u.delays ≡ t.delays)
      × (u.records ≡ t.records)
      × (retries t.latest_metrics ≤ retries u.latest_metrics)

  pub Keeps-Grows : (t u v : Trace F) → Keeps t u → Grows u v → Grows t v
  Keeps-Grows t u v (delays, records, counted) (more_delays, more_records, more) = (
    more_delays ∙ ap (λ l. length l + calls sleeper 1) delays,
    more_records ∙ ap (λ l. length l + calls save_retry 1) records,
    omega (arith, counted, more),
  )

  -- `u` is `t` with the record of the retry.
  abbrev Recorded : Trace F → Trace F → Type 0
  Recorded t u =
      (u.delays ≡ t.delays)
      × (length u.records ≡ length t.records + calls save_retry 1)
      × (u.latest_metrics ≡ t.latest_metrics)

  -- What the retry's calls return, by what they have done.
  abbrev pub Leaves : (Trace F → Type 0) → Attempt F (Trace F) × S → Type 0
  Leaves P (ok t, s) = P t
  Leaves P (err x, s) = Escapes x

  -- A call of a collaborator, by its answer.
  called-Leaves :
      {X : Type 0} (P : Trace F → Type 0) (collaborator : Option (X → S → Attempt F (Unit {0}) × S))
      (f : X → S → Attempt F (Unit {0}) × S) (a : X) (s s' : S) (o : Attempt F (Unit {0}))
      (u : Trace F)
      → ((x : Exception F) → Raises collaborator x → Escapes x)
      → collaborator ≡ some f
      → (f a s).0 ≡ o
      → P u
      → Leaves P ((o >>= λ _. ok u), s')
  called-Leaves P collaborator f a s s' (ok y) u cause p q h = h
  called-Leaves P collaborator f a s s' (err x) u cause p q h = cause x (f, p, a, s, q)

  recorded-Leaves :
      (r : RetryRecord) (t : Trace F) (s : S)
      (o : Option (RetryRecord → S → Attempt F (Unit {0}) × S))
      → save_retry ≡ o
      → Leaves
          (Recorded t)
          (recorded rt policy save_retry sleeper migration_id step_name started now (ok r) t s)
  unfolding recorded
  recorded-Leaves r t s none p = rw (recorded, p) (refl, omega arith, refl)
  recorded-Leaves r t s (some save) p =
      let grown : Recorded t (record t { records = t.records ++ r ∷ [] }) =
        (refl, rw p (length-append t.records (r ∷ [])), refl) in
      let same : recorded rt policy save_retry sleeper migration_id step_name started now (ok r) t s
          ≡ (
            ((save r s).0 >>= λ _. ok (record t { records = t.records ++ r ∷ [] })),
            (save r s).1,
          ) =
        rw (recorded, p) refl in
      subst (Leaves (Recorded t)) (sym same) (
        called-Leaves (Recorded t) save_retry save r s _ _ _ (λ x raises. inr (inl raises)) p refl
          grown)

  paused-Leaves :
      (m : Metrics F) (delay : F) (t v : Trace F) (s : S)
      (o : Option (F → S → Attempt F (Unit {0}) × S))
      → sleeper ≡ o
      → suc (retries t.latest_metrics) ≤ retries (some m)
      → Recorded t v
      → Leaves
          (Grows t)
          (paused rt policy save_retry sleeper migration_id step_name started now m delay (ok v, s))
  unfolding paused
  paused-Leaves m delay t v s none p more (delays, records, same) =
      rw (paused, p) (ap length delays ∙ omega arith, records, more)
  paused-Leaves m delay t v s (some sleep) p more (delays, records, same) =
      let grown : Grows t (record v { latest_metrics = some m; delays = v.delays ++ delay ∷ [] }) =
        (
          rw p (length-append v.delays (delay ∷ []) ∙ ap (λ l. length l + 1) delays),
          records,
          more,
        ) in
      let same : paused rt policy save_retry sleeper migration_id step_name started now m delay
            (ok v, s)
          ≡ (
            ((sleep delay s).0 >>= λ _.
                ok (record v { latest_metrics = some m; delays = v.delays ++ delay ∷ [] })),
            (sleep delay s).1,
          ) =
        rw (paused, p) refl in
      subst (Leaves (Grows t)) (sym same) (
        called-Leaves (Grows t) sleeper sleep delay s _ _ _ (λ x raises. inr (inr raises)) p refl
          grown)

  paused_after :
      (m : Metrics F) (delay : F) (t : Trace F) (q : Attempt F (Trace F) × S)
      → suc (retries t.latest_metrics) ≤ retries (some m)
      → Leaves (Recorded t) q
      → Leaves
          (Grows t)
          (paused rt policy save_retry sleeper migration_id step_name started now m delay q)
  unfolding paused
  paused_after m delay t (err x, s) more h = h
  paused_after m delay t (ok v, s) more h = paused-Leaves m delay t v s sleeper refl more h

  pub retried-Leaves :
      (e : Exception F) (d : RetryDecision F) (n : ℕ) (t : Trace F) (s : S)
      → 0 < n
      → n < limit policy
      → Leaves
          (Grows t)
          (retried rt policy save_retry sleeper migration_id step_name started now e d n t s)
  unfolding retried retry_record
  retried-Leaves e d n t s k h =
      let counted = retries-build_retry_metrics rt t.latest_metrics started (now n) e in
      elim (Option-cases policy) [
        | inl none_ ↦ absurd (ground (arith, none_))
        | inr p ↦
            let made : retry_record rt policy save_retry sleeper migration_id step_name started now
                  policy n d.reason
                ≡ ok (build_retry_record rt p.0 migration_id step_name n (now n) d.reason) =
              rw (retry_record, p.1) refl in
            rw made (
              paused_after (build_retry_metrics rt t.latest_metrics started (now n) e)
                d.delay_seconds t _ (omega (arith, counted))
                (recorded-Leaves _ t s save_retry refl))
      ]
