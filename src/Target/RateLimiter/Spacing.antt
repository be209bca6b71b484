-- ===== src/Target/RateLimiter/Spacing.antt =====
-- Spacing of admitted requests, and what becomes of a client that waits as it is told.
use enterprise_vault_migrati.Prelude.{
  ℕ, zero, suc, ◌+◌, ◌-◌, ◌≤◌, ◌<◌, ◌≡◌, refl, Bool, true, false, Option, none, some, List, [], ◌∷◌,
  if◌then◌else◌, arith, ◌∙◌, Bool-cases, inl, inr,
}
use enterprise_vault_migrati.Runtime.{Runtime, float_max}
use enterprise_vault_migrati.Target.RateLimiter.{UploadRateLimiter, acquire_delay_seconds, admitted}

-- What the limiter needs of floats: a positive length of time is a positive number of seconds.
pub record TimeLaws {F : Type 0} (rt : Runtime F) : Type 0 where
  pub zero_not_positive : rt.float_lt rt.zero_float rt.zero_float ≡ false
  pub seconds_positive : (n : ℕ) → 0 < n → rt.float_lt rt.zero_float (rt.total_seconds n) ≡ true
  pub seconds_not_negative : (n : ℕ) → rt.float_lt (rt.total_seconds n) rt.zero_float ≡ false

-- The times are in order and each is at least `gap` after the one before.
abbrev pub Spaced : ℕ → List ℕ → Type 0
Spaced gap [] = Unit
Spaced gap (t ∷ []) = Unit
Spaced gap (t ∷ u ∷ ts) = (t + gap ≤ u) × Spaced gap (u ∷ ts)

-- The first time from `t` on at which a slot that is free at `o` can be had.
abbrev from_slot : Option ℕ → ℕ → ℕ
from_slot none t = t
from_slot (some next) t = t + (next - t)

module _ {F : Type 0} (rt : Runtime F) where
  -- The clock readings at which requests are admitted, of all readings at which one is made.
  pub admitted_at : UploadRateLimiter F → List ℕ → List ℕ
  admitted_at l [] = []
  admitted_at l (t ∷ ts) =
      let rest = admitted_at (acquire_delay_seconds rt l t).1 ts in
      if admitted rt l t then t ∷ rest else rest

  -- A client that makes `k` requests, each as long after the one before as the answer to that said.
  -- `wait` is the length of time of a number of seconds.
  pub obeying_client : (F → ℕ) → ℕ → UploadRateLimiter F → ℕ → Bool
  obeying_client wait zero l t = false
  obeying_client wait (suc k) l t =
      let (delay, l') = acquire_delay_seconds rt l t in
      let later = obeying_client wait k l' (t + wait delay) in
      if rt.float_lt rt.zero_float delay then later else true

module _ {F : Type 0} (rt : Runtime F) (laws : TimeLaws rt) (r : F) where
  early_request :
      (l : UploadRateLimiter F) (t next : ℕ)
      → l.requests_per_second ≡ some r
      → l.next_available_at ≡ some next
      → t < next
      → (admitted rt l t ≡ false)
        × ((acquire_delay_seconds rt l t).1.next_available_at ≡ some (next + rt.interval r))
        × ((acquire_delay_seconds rt l t).1.requests_per_second ≡ some r)
  unfolding admitted float_max
  early_request l t next p q h = (
    ground (arith, laws.seconds_positive (next - t), laws.seconds_not_negative (next - t)),
    ground arith,
    ground arith,
  )

  due_request :
      (l : UploadRateLimiter F) (t : ℕ) (o : Option ℕ)
      → l.requests_per_second ≡ some r
      → l.next_available_at ≡ o
      → admitted rt l t ≡ true
      → ((acquire_delay_seconds rt l t).1.next_available_at ≡ some (t + rt.interval r))
        × ((acquire_delay_seconds rt l t).1.requests_per_second ≡ some r)
        × (from_slot o t ≡ t)
  unfolding admitted float_max
  due_request l t none p q h = (ground arith, ground arith, refl)
  due_request l t (some n) p q h = (
    ground (arith, laws.seconds_positive (n - t), laws.seconds_not_negative (n - t)),
    ground arith,
    ground (arith, laws.seconds_positive (n - t), laws.seconds_not_negative (n - t)),
  )

  refused_request :
      (l : UploadRateLimiter F) (t : ℕ) (o : Option ℕ)
      → l.requests_per_second ≡ some r
      → l.next_available_at ≡ o
      → admitted rt l t ≡ false
      → (n : ℕ) × (o ≡ some n) × (t < n)
  unfolding admitted float_max
  refused_request l t none p q h = absurd (ground (arith, laws.zero_not_positive))
  refused_request l t (some n) p q h =
      (n, refl, ground (arith, laws.zero_not_positive, laws.seconds_positive (n - t)))

  -- The answer to an early request names the time until the slot that was free next.
  early_delay :
      (l : UploadRateLimiter F) (t next : ℕ)
      → l.requests_per_second ≡ some r
      → l.next_available_at ≡ some next
      → t < next
      → (acquire_delay_seconds rt l t).0 ≡ rt.total_seconds (next - t)
  unfolding acquire_delay_seconds float_max
  early_delay l t next p q h = ground (arith, laws.seconds_not_negative (next - t))

  -- A client that waits exactly as long as each answer says is never admitted, however often it
  -- tries: each refusal moves the next free slot on by another interval. The client's clock takes
  -- the number of seconds of a whole number of microseconds for these.
  pub obeying_client_starves :
      (wait : F → ℕ)
      → ((n : ℕ) → wait (rt.total_seconds n) ≡ n)
      → (k : ℕ) (l : UploadRateLimiter F) (t next : ℕ) → l.requests_per_second ≡ some r
      → l.next_available_at ≡ some next
      → t < next
      → 0 < rt.interval r
      → obeying_client rt wait k l t ≡ false
  unfolding obeying_client
  obeying_client_starves wait exact zero l t next p q h i = refl
  obeying_client_starves wait exact (suc k) l t next p q h i =
      let (refused, moved, kept) = early_request l t next p q h in
      let delay = early_delay l t next p q h in
      let late = laws.seconds_positive (next - t) (omega (arith, h)) in
      let here : t + wait (acquire_delay_seconds rt l t).0 ≡ next =
        rw (delay, exact (next - t)) (omega (arith, h)) in
      rw (obeying_client, here, delay, late)
        (obeying_client_starves wait exact k (acquire_delay_seconds rt l t).1 next
          (next + rt.interval r) kept moved (omega (arith, i)) i)

  -- A lower bound on the first time of a list.
  abbrev FirstFrom : Option ℕ → List ℕ → Type 0
  FirstFrom none ts = Unit
  FirstFrom (some n) [] = Unit
  FirstFrom (some n) (t ∷ ts) = n ≤ t

  FirstFrom-mono : (n g : ℕ) (ts : List ℕ) → FirstFrom (some (n + g)) ts → FirstFrom (some n) ts
  FirstFrom-mono n g [] h = tt
  FirstFrom-mono n g (t ∷ ts) h = omega arith

  FirstFrom-due : (o : Option ℕ) (t : ℕ) (ts : List ℕ) → from_slot o t ≡ t → FirstFrom o (t ∷ ts)
  FirstFrom-due none t ts h = tt
  FirstFrom-due (some n) t ts h = omega arith

  Spaced-cons :
      (gap t : ℕ) (ts : List ℕ)
      → FirstFrom (some (t + gap)) ts
      → Spaced gap ts
      → Spaced gap (t ∷ ts)
  Spaced-cons gap t [] f s = tt
  Spaced-cons gap t (u ∷ ts) f s = (f, s)

  admitted_from :
      (ts : List ℕ) (l : UploadRateLimiter F) (o : Option ℕ)
      → l.requests_per_second ≡ some r
      → l.next_available_at ≡ o
      → Spaced (rt.interval r) (admitted_at rt l ts) × FirstFrom o (admitted_at rt l ts)
  unfolding admitted_at
  admitted_from [] l none p q = (tt, tt)
  admitted_from [] l (some n) p q = (tt, tt)
  admitted_from (t ∷ ts) l o p q =
      let m = (acquire_delay_seconds rt l t).1 in
      elim (Bool-cases (admitted rt l t)) [
        | inl y ↦
            let (moved, kept, due) = due_request l t o p q y in
            let (spaced, first) = admitted_from ts m (some (t + rt.interval r)) kept moved in
            rw y (
              Spaced-cons (rt.interval r) t (admitted_at rt m ts) first spaced,
              FirstFrom-due o t _ due,
            )
        | inr n ↦
            let (next, e, late) = refused_request l t o p q n in
            let (_, moved, kept) = early_request l t next p (q ∙ e) late in
            let (spaced, first) = admitted_from ts m (some (next + rt.interval r)) kept moved in
            rw (n, e) (spaced, FirstFrom-mono next (rt.interval r) (admitted_at rt m ts) first)
      ]

  -- Whatever the clock reads when requests are made, the admitted ones are at least one interval
  -- apart, each after the one before.
  pub admitted-Spaced :
      (l : UploadRateLimiter F) (ts : List ℕ)
      → l.requests_per_second ≡ some r
      → Spaced (rt.interval r) (admitted_at rt l ts)
  admitted-Spaced l ts p = (admitted_from ts l l.next_available_at p refl).0
