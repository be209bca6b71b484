-- ===== src/Runner/Ordering.antt =====
-- The registry's order, and where a name stands in it.
use enterprise_vault_migrati.Prelude.{
  AllDistinct, ℕ, suc, ◌≤◌, ◌≡◌, refl, String, false, Option, some, List, [], ◌∷◌, ◌++◌,
  if◌then◌else◌, str_eq, str_eq_iff, text_in, text_in-append, length, arith, Bool-cases, inl, inr,
  Option-cases, ap, take, drop, ◌==◌,
}
use enterprise_vault_migrati.Errors.{Returns, Returns-bind}
use enterprise_vault_migrati.Runner.Registry.{
  step_order, register, register_all, insert_step, resolve, position, index_of,
}

-- Each step has an order that is not below that of the step before.
abbrev pub InOrder : List String → Type 0
InOrder [] = Unit
InOrder (x ∷ []) = Unit
InOrder (x ∷ y ∷ ys) = (step_order x ≤ step_order y) × InOrder (y ∷ ys)

-- The steps of one order, in the order in which they stand.
abbrev pub of_order : ℕ → List String → List String
of_order n [] = []
of_order n (s ∷ ss) = if step_order s == n then s ∷ of_order n ss else of_order n ss

insert_step-InOrder : (s : String) (xs : List String) → InOrder xs → InOrder (insert_step s xs)
unfolding insert_step
insert_step-InOrder s [] h = tt
insert_step-InOrder s (x ∷ []) h = ground arith
insert_step-InOrder s (x ∷ y ∷ ys) h = ground (arith, insert_step-InOrder s (y ∷ ys))

insert_step-of_order :
    (s : String) (n : ℕ) (xs : List String)
    → of_order n (insert_step s xs)
      ≡ (if step_order s == n then s ∷ of_order n xs else of_order n xs)
unfolding insert_step
insert_step-of_order s n [] = ground arith
insert_step-of_order s n (x ∷ xs) = ground (arith, insert_step-of_order s n xs)

resolve-InOrder : (steps : List String) → InOrder (resolve steps)
unfolding resolve
resolve-InOrder [] = tt
resolve-InOrder (s ∷ ss) = insert_step-InOrder s (resolve ss) (resolve-InOrder ss)

resolve-of_order : (n : ℕ) (steps : List String) → of_order n (resolve steps) ≡ of_order n steps
unfolding resolve
resolve-of_order n [] = refl
resolve-of_order n (s ∷ ss) =
    ground (arith, insert_step-of_order s n (resolve ss), resolve-of_order n ss)

-- The resolved steps are sorted by their order, and the steps of each order are those that were
-- registered, in the order of their registration.
pub resolve_lem :
    (n : ℕ) (steps : List String)
    → InOrder (resolve steps) × (of_order n (resolve steps) ≡ of_order n steps)
resolve_lem n steps = (resolve-InOrder steps, resolve-of_order n steps)

-- The list is cut in front of the first place at which `name` stands.
pub record CutAt (name : String) (i : ℕ) (steps : List String) : Type 0 where
  pub cut : steps ≡ take i steps ++ name ∷ drop (suc i) steps
  pub first : text_in name (take i steps) ≡ false
  pub counted : length (take i steps) ≡ i

suc-CutAt :
    (name s : String) (i : ℕ) (ss : List String)
    → str_eq s name ≡ false
    → CutAt name i ss
    → CutAt name (suc i) (s ∷ ss)
suc-CutAt name s i ss other c = record {
  cut = ap (λ xs. s ∷ xs) c.cut;
  first = rw other c.first;
  counted = ap suc c.counted;
}

position-CutAt :
    (name : String) (steps : List String) (o : Option ℕ) {i : ℕ}
    → position name steps ≡ o
    → o ≡ some i
    → CutAt name i steps
unfolding position
position-CutAt name [] o p q = absurd (cc (p, q))
position-CutAt name (s ∷ ss) o {i} p q = elim (Bool-cases (str_eq s name)) [
  | inl here ↦
      let zeroth : i ≡ 0 = ground (arith, here) in
      rw zeroth
        (record { cut = rw ((str_eq_iff s name).0 here) refl; first = refl; counted = refl })
  | inr other ↦ elim (Option-cases (position name ss)) [
    | inl gone ↦ absurd (ground (arith, other, gone))
    | inr found ↦
        let next : i ≡ suc found.0 = ground (arith, other, found.1) in
        rw next (
          suc-CutAt name s found.0 ss other
            (position-CutAt name ss (position name ss) refl found.1))
  ]
]

-- The index of a registered step cuts the resolved steps in front of the first step of that name.
pub index_of-CutAt :
    (name : String) (steps : List String) (i : ℕ)
    → index_of name steps ≡ some i
    → CutAt name i (resolve steps)
unfolding index_of
index_of-CutAt name steps i h = position-CutAt name (resolve steps) _ refl h

AllDistinct-append :
    (xs : List String) (x : String)
    → AllDistinct xs
    → text_in x xs ≡ false
    → AllDistinct (xs ++ x ∷ [])
AllDistinct-append [] x d n = (refl, tt)
AllDistinct-append (y ∷ ys) x d n = (
  ground (arith, text_in-append y ys (x ∷ []), d.0, n, str_eq_iff x y, str_eq_iff y x),
  AllDistinct-append ys x d.1 (ground (arith, n)),
)

register-AllDistinct :
    (F : Type 0) (s : String) (steps : List String)
    → AllDistinct steps
    → Returns AllDistinct (register {F = F} s steps)
unfolding register
register-AllDistinct F s steps d = elim (Bool-cases (text_in s steps)) [
  | inl old ↦ rw (old, Returns) tt
  | inr new ↦ rw (new, Returns) (AllDistinct-append steps s d new)
]

-- A registry that is built without an error has no step twice.
pub register_all-AllDistinct :
    (F : Type 0) (ss steps : List String)
    → AllDistinct steps
    → Returns AllDistinct (register_all {F = F} ss steps)
unfolding register_all
register_all-AllDistinct F [] steps d = d
register_all-AllDistinct F (s ∷ ss) steps d =
    Returns-bind AllDistinct AllDistinct (register s steps) (register_all ss)
      (register-AllDistinct F s steps d) (λ more e. register_all-AllDistinct F ss more e)
