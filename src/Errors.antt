-- ===== src/Errors.antt =====
-- Exceptions as values. The classes are those of domain/exceptions, mock_storionx/exceptions.py and
-- Python's own; an exception keeps its message and the attributes that the retry layer reads.
use enterprise_vault_migrati.Prelude.{ℕ, String, Option, none, ◌≡◌, refl}

pub data ErrorClass : Type 0 where
  value_error type_error runtime_error : ErrorClass
  validation_error idempotency_conflict : ErrorClass
  checkpoint_not_found non_resumable_checkpoint unsupported_checkpoint_version : ErrorClass
  too_many_requests service_unavailable : ErrorClass
  other_error : ErrorClass

-- `retry_after_seconds` is `none` where the exception has no such attribute, and `some none` where
-- the attribute is None.
pub record Exception (F : Type 0) : Type 0 where
  pub error_class : ErrorClass
  pub message : String
  pub status_code : Option ℕ
  pub retry_after_seconds : Option (Option F)

pub data Result {ℓ κ} (E : Type κ) (A : Type ℓ) : Type (ℓ ⊔ κ) where
  ok : A → Result E A
  err : E → Result E A

abbrev pub Attempt {ℓ} : Type 0 → Type ℓ → Type ℓ
Attempt F A = Result (Exception F) A

-- raise Class(message), for a class with no attributes of its own
abbrev pub plain : {F : Type 0} → ErrorClass → String → Exception F
plain c m = record { error_class = c; message = m; status_code = none; retry_after_seconds = none }

-- The next action runs on what this one returned; an exception passes it by.
infixl 5 ◌>>=◌
abbrev pub ◌>>=◌ {ℓ κ μ} :
    {E : Type μ} {A : Type ℓ} {B : Type κ} → Result E A → (A → Result E B) → Result E B
err x >>= next = err x
ok x >>= next = next x

abbrev pub IsErr {ℓ κ} : {E : Type κ} {A : Type ℓ} → Result E A → Type 0
IsErr (ok a) = ⊥
IsErr (err e) = Unit

abbrev pub IsOk {ℓ κ} : {E : Type κ} {A : Type ℓ} → Result E A → Type 0
IsOk (ok a) = Unit
IsOk (err e) = ⊥

-- `P` holds of what is returned, if something is.
abbrev pub Returns {ℓ κ μ} : {E : Type κ} {A : Type ℓ} → (A → Type μ) → Result E A → Type μ
Returns P (ok a) = P a
Returns P (err e) = Unit

pub Returns-bind {ℓ κ μ ν} :
    {E : Type μ} {A B : Type ℓ} (P : A → Type κ) (Q : B → Type ν) (m : Result E A)
    (f : A → Result E B)
    → Returns P m
    → ((a : A) → P a → Returns Q (f a))
    → Returns Q (m >>= f)
Returns-bind P Q (ok a) f h k = k a h
Returns-bind P Q (err e) f h k = tt

pub Returns-ok {ℓ κ μ} :
    {E : Type κ} {A : Type ℓ} (P : A → Type μ) (m : Result E A) {a : A}
    → Returns P m
    → m ≡ ok a
    → P a
Returns-ok P m h e = rw e at h

pub Returns-intro {ℓ κ μ} :
    {E : Type κ} {A : Type ℓ} (P : A → Type μ) (m : Result E A)
    → ((a : A) → m ≡ ok a → P a)
    → Returns P m
Returns-intro P (ok a) h = h a refl
Returns-intro P (err e) h = tt

pub Returns-map {ℓ κ μ ν} :
    {E : Type κ} {A : Type ℓ} (P : A → Type μ) (Q : A → Type ν) (m : Result E A)
    → ((a : A) → P a → Q a)
    → Returns P m
    → Returns Q m
Returns-map P Q (ok a) f h = f a h
Returns-map P Q (err e) f h = tt

-- What is returned satisfies `P`, and what is raised `E`.
abbrev pub Answers {ℓ} :
    {F : Type 0} {A : Type ℓ} → (A → Type 0) → (Exception F → Type 0) → Attempt F A → Type 0
Answers P E (ok a) = P a
Answers P E (err e) = E e

pub Answers-bind :
    {F A B : Type 0} (P : B → Type 0) (E : Exception F → Type 0) (m : Attempt F A)
    (f : A → Attempt F B)
    → ((e : Exception F) → m ≡ err e → E e)
    → ((a : A) → m ≡ ok a → Answers P E (f a))
    → Answers P E (m >>= f)
Answers-bind P E (ok a) f h k = k a refl
Answers-bind P E (err e) f h k = h e refl

pub Answers-map :
    {F A : Type 0} (P Q : A → Type 0) (D E : Exception F → Type 0) (m : Attempt F A)
    → Answers P D m
    → ((a : A) → P a → Q a)
    → ((e : Exception F) → D e → E e)
    → Answers Q E m
Answers-map P Q D E (ok a) h f g = f a h
Answers-map P Q D E (err e) h f g = g e h

pub Answers-then :
    {F A B : Type 0} (P : A → Type 0) (D : Exception F → Type 0) (Q : B → Type 0)
    (E : Exception F → Type 0) (m : Attempt F A) (f : A → Attempt F B)
    → Answers P D m
    → ((e : Exception F) → D e → E e)
    → ((a : A) → P a → Answers Q E (f a))
    → Answers Q E (m >>= f)
Answers-then P D Q E (ok a) f h g k = k a h
Answers-then P D Q E (err e) f h g k = g e h
