-- ===== src/Prelude/Equality.antt =====
-- `==` on tuples, optional values and pairs, from `==` on their parts.
use Prim.Native.Nat.{ℕ}
use Prim.Native.String.{String}
use mathlib.Core.Path.{◌≡◌, refl}
use mathlib.Core.Bool.{Bool, true, false, ◌&&◌}
use mathlib.Core.Option.{Option, none, some}
use mathlib.Core.List.{List, [], ◌∷◌}
use native.Mathlib.Omega.{arith}
use enterprise_vault_migrati.Prelude.Tests.{if◌then◌else◌, ◌==◌, Bool-cases}
use mathlib.Core.Logic.{inl, inr}
use enterprise_vault_migrati.Prelude.Texts.{str_eq, str_eq_refl}

abbrev pub list_eq {ℓ} : {A : Type ℓ} → (A → A → Bool) → List A → List A → Bool
list_eq same [] [] = true
list_eq same (x ∷ xs) (y ∷ ys) = if same x y then list_eq same xs ys else false
list_eq same _ _ = false

abbrev pub option_eq {ℓ} : {A : Type ℓ} → (A → A → Bool) → Option A → Option A → Bool
option_eq same none none = true
option_eq same (some x) (some y) = same x y
option_eq same _ _ = false

abbrev pub text_pair_eq : String × String → String × String → Bool
text_pair_eq p q = str_eq p.0 q.0 && str_eq p.1 q.1

pub list_eq_refl {ℓ} :
    {A : Type ℓ} (same : A → A → Bool)
    → ((x : A) → same x x ≡ true)
    → (xs : List A) → list_eq same xs xs ≡ true
list_eq_refl same h [] = refl
list_eq_refl same h (x ∷ xs) = rw (h x) (list_eq_refl same h xs)

pub option_eq_refl {ℓ} :
    {A : Type ℓ} (same : A → A → Bool)
    → ((x : A) → same x x ≡ true)
    → (o : Option A) → option_eq same o o ≡ true
option_eq_refl same h none = refl
option_eq_refl same h (some x) = h x

pub text_pair_eq_refl : (p : String × String) → text_pair_eq p p ≡ true
text_pair_eq_refl p = simp (str_eq_refl)

pub ==_refl : (n : ℕ) → (n == n) ≡ true
==_refl n = ground arith

pub list_eq_sound {ℓ} :
    {A : Type ℓ} (same : A → A → Bool)
    → ((x y : A) → same x y ≡ true → x ≡ y)
    → (xs ys : List A) → list_eq same xs ys ≡ true
    → xs ≡ ys
list_eq_sound same h [] [] p = refl
list_eq_sound same h [] (y ∷ ys) p = absurd (ground arith)
list_eq_sound same h (x ∷ xs) [] p = absurd (ground arith)
list_eq_sound same h (x ∷ xs) (y ∷ ys) p = elim (Bool-cases (same x y)) [
  | inl e ↦ cc (h x y e, list_eq_sound same h xs ys (ground (arith, e)))
  | inr n ↦ absurd (ground (arith, n))
]
