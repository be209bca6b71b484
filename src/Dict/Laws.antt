-- ===== src/Dict/Laws.antt =====
-- What a dictionary holds after an update, and the comparison of two dictionaries.
use mathlib.Core.Path.{subst}
use enterprise_vault_migrati.Prelude.{
  All, Bool-cases, inl, inr, ◌≡◌, refl, String, Option, none, some, Bool, true, List, [], ◌∷◌, ◌++◌,
  arith, str_eq, str_eq_iff, str_eq_refl, if◌then◌else◌, is_some,
}
use enterprise_vault_migrati.Dict.{Dict, get, put, remove, has, same_value, agree_on, keys, dict_eq}

module _ {ℓ} {V : Type ℓ} where
  pub get-put :
      (k j : String) (v : V) (d : Dict V)
      → get j (put k v d) ≡ (if str_eq k j then some v else get j d)
  unfolding get put
  get-put k j v [] = refl
  get-put k j v ((i, w) ∷ d) =
      ground (arith, str_eq_iff k j, str_eq_iff i k, str_eq_iff i j, get-put k j v d)

  pub get-put_self : (k : String) (v : V) (d : Dict V) → get k (put k v d) ≡ some v
  get-put_self k v d = rw (get-put, str_eq_refl)

  pub get-remove :
      (k j : String) (d : Dict V) → get j (remove k d) ≡ (if str_eq k j then none else get j d)
  unfolding get remove
  get-remove k j [] = ground arith
  get-remove k j ((i, w) ∷ d) =
      ground (arith, str_eq_iff k j, str_eq_iff i k, str_eq_iff i j, get-remove k j d)

  pub has-eq-is_some : (k : String) (d : Dict V) → has k d ≡ is_some (get k d)
  unfolding has get
  has-eq-is_some k [] = refl
  has-eq-is_some k ((i, w) ∷ d) = ground (arith, has-eq-is_some k d)

module _ {ℓ} {V : Type ℓ} (eq : V → V → Bool) (eq_refl : (v : V) → eq v v ≡ true) where
  same_value_refl : (o : Option V) → same_value eq o o ≡ true
  unfolding same_value
  same_value_refl none = refl
  same_value_refl (some v) = eq_refl v

  agree_on_refl : (ks : List String) (d : Dict V) → agree_on eq ks d d ≡ true
  unfolding agree_on
  agree_on_refl [] d = refl
  agree_on_refl (k ∷ ks) d = ground (arith, same_value_refl (get k d), agree_on_refl ks d)

  pub dict_eq_refl : (d : Dict V) → dict_eq eq d d ≡ true
  unfolding dict_eq
  dict_eq_refl d = agree_on_refl (keys d ++ keys d) d

-- What holds of every value holds of a value that is found.
pub get-All {ℓ κ} :
    {V : Type ℓ} (P : V → Type κ) (k : String) (d : Dict V) {v : V}
    → All (λ (e : String × V). P e.1) d
    → get k d ≡ some v
    → P v
unfolding get
get-All P k [] h e = absurd (cc e)
get-All P k ((j, w) ∷ d) {v} h e = elim (Bool-cases (str_eq j k)) [
  | inl y ↦ let q : w ≡ v = cc (rw y at e) in subst P q h.0
  | inr n ↦ get-All P k d h.1 (rw n at e)
]
