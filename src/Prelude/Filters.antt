-- ===== src/Prelude/Filters.antt =====
-- The part of a list that passes a test, and lists put together from their elements.
use Prim.Native.Nat.{◌+◌}
use mathlib.Core.Path.{◌≡◌, refl}
use mathlib.Core.Bool.{Bool, not}
use mathlib.Core.List.{List, [], ◌∷◌, ◌++◌, map, append_assoc}
use native.Mathlib.Omega.{arith}
use mathlib.Core.Logic.{inl, inr}
use enterprise_vault_migrati.Prelude.Tests.{if◌then◌else◌, Bool-cases}
use enterprise_vault_migrati.Prelude.Lists.{length, All, All-append, All-append_inv}

module _ {ℓ} {A : Type ℓ} where
  -- [x for x in xs if p x]
  abbrev pub filter_if : (A → Bool) → List A → List A
  filter_if p [] = []
  filter_if p (x ∷ xs) = if p x then x ∷ filter_if p xs else filter_if p xs

  pub filter_if-append :
      (p : A → Bool) (xs ys : List A) → filter_if p (xs ++ ys) ≡ filter_if p xs ++ filter_if p ys
  filter_if-append p [] ys = refl
  filter_if-append p (x ∷ xs) ys = elim (Bool-cases (p x)) [
    | inl y ↦ rw (y, filter_if-append p xs ys) refl
    | inr n ↦ rw (n, filter_if-append p xs ys) refl
  ]

  -- What is left out and what is kept make up the list.
  pub length-filter_if :
      (p : A → Bool) (xs : List A)
      → length (filter_if p xs) + length (filter_if (λ x. not (p x)) xs) ≡ length xs
  length-filter_if p [] = omega arith
  length-filter_if p (x ∷ xs) = ground (arith, length-filter_if p xs)

  pub filter_if_twice : (p : A → Bool) (xs : List A) → filter_if p (filter_if p xs) ≡ filter_if p xs
  filter_if_twice p [] = refl
  filter_if_twice p (x ∷ xs) = elim (Bool-cases (p x)) [
    | inl y ↦ rw (y, y, filter_if_twice p xs) refl
    | inr n ↦ rw (n, filter_if_twice p xs) refl
  ]

  pub All-filter_if {κ} :
      (P : A → Type κ) (p : A → Bool) (xs : List A) → All P xs → All P (filter_if p xs)
  All-filter_if P p [] h = tt
  All-filter_if P p (x ∷ xs) h = elim (Bool-cases (p x)) [
    | inl y ↦ rw y (h.0, All-filter_if P p xs h.1)
    | inr n ↦ rw n (All-filter_if P p xs h.1)
  ]

module _ {ℓ κ} {A : Type ℓ} {B : Type κ} where
  -- [y for x in xs for y in f x]
  abbrev pub concat_map : (A → List B) → List A → List B
  concat_map f [] = []
  concat_map f (x ∷ xs) = f x ++ concat_map f xs

  pub concat_map-append :
      (f : A → List B) (xs ys : List A)
      → concat_map f (xs ++ ys) ≡ concat_map f xs ++ concat_map f ys
  concat_map-append f [] ys = refl
  concat_map-append f (x ∷ xs) ys = simp (concat_map-append f xs ys, append_assoc)

  pub All-concat_map {μ} :
      (P : B → Type μ) (f : A → List B) (xs : List A)
      → All (λ x. All P (f x)) xs
      → All P (concat_map f xs)
  All-concat_map P f [] h = tt
  All-concat_map P f (x ∷ xs) h =
      All-append P (f x) (concat_map f xs) h.0 (All-concat_map P f xs h.1)

  pub All-of_concat_map {μ} :
      (P : B → Type μ) (f : A → List B) (xs : List A)
      → All P (concat_map f xs)
      → All (λ x. All P (f x)) xs
  All-of_concat_map P f [] h = tt
  All-of_concat_map P f (x ∷ xs) h =
      let (here, there) = All-append_inv P (f x) (concat_map f xs) h in
      (here, All-of_concat_map P f xs there)

  pub length-map : (f : A → B) (xs : List A) → length (map f xs) ≡ length xs
  length-map f [] = refl
  length-map f (x ∷ xs) = omega (arith, length-map f xs)
