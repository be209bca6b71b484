-- ===== src/Extract/Stores.antt =====
-- `_select_vault_stores`: selecting again from what was selected changes nothing.
use mathlib.Core.Path.{subst}
use enterprise_vault_migrati.Prelude.{
  AllDistinct, ◌≡◌, refl, sym, ap, ◌∙◌, String, true, false, some, List, [], ◌∷◌, map, arith, All,
  is_some, str_eq, str_eq_iff, str_eq_refl, text_in, Bool-cases, Option-cases, inl, inr,
}
use enterprise_vault_migrati.Dict
use enterprise_vault_migrati.Dict.{Dict}
use enterprise_vault_migrati.Dict.Laws.{get-put, get-put_self}
use enterprise_vault_migrati.Contracts.Source.{SourceVaultStore}
use enterprise_vault_migrati.Extract.Loops.{pick_stores, stores_by_name, select_vault_stores}

abbrev pairs : List SourceVaultStore → List (String × SourceVaultStore)
pairs ss = map (λ (s : SourceVaultStore). (s.name, s)) ss

-- What holds of the stores, and of what was there, holds of what is found.
found-of :
    (P : String → SourceVaultStore → Type 0) (ss : List SourceVaultStore)
    (d : Dict SourceVaultStore)
    → All (λ (s : SourceVaultStore). P s.name s) ss
    → ((k : String) (s : SourceVaultStore) → Dict.get k d ≡ some s → P k s)
    → (k : String) (s : SourceVaultStore) → Dict.get k (Dict.put_all (pairs ss) d) ≡ some s
    → P k s
unfolding Dict.put_all
found-of P [] d h was k s e = was k s e
found-of P (x ∷ ss) d h was k s e = found-of P ss (Dict.put x.name x d) h.1 now k s e
  where
    now : (k : String) (s : SourceVaultStore) → Dict.get k (Dict.put x.name x d) ≡ some s → P k s
    now k s e = elim (Bool-cases (str_eq x.name k)) [
      | inl y ↦
          let there : some x ≡ some s = rw y at (sym (get-put x.name k x d) ∙ e) in
          subst (P k) (cc there) (subst (λ k'. P k' x) ((str_eq_iff x.name k).0 y) h.0)
      | inr n ↦ was k s (rw n at (sym (get-put x.name k x d) ∙ e))
    ]

kept-found :
    (ss : List SourceVaultStore) (d : Dict SourceVaultStore) (k : String)
    → is_some (Dict.get k d) ≡ true
    → is_some (Dict.get k (Dict.put_all (pairs ss) d)) ≡ true
unfolding Dict.put_all
kept-found [] d k h = h
kept-found (x ∷ ss) d k h =
    kept-found ss (Dict.put x.name x d) k (ground (arith, get-put x.name k x d))

each_there :
    (ss : List SourceVaultStore) (d : Dict SourceVaultStore)
    → All
        (λ (s : SourceVaultStore). is_some (Dict.get s.name (Dict.put_all (pairs ss) d)) ≡ true)
        ss
unfolding Dict.put_all
each_there [] d = tt
each_there (x ∷ ss) d = (
  kept-found ss (Dict.put x.name x d) x.name (rw (get-put, str_eq_refl) refl),
  each_there ss (Dict.put x.name x d),
)

nothing : (k : String) (s : SourceVaultStore) → Dict.get k [] ≡ some s → ⊥
unfolding Dict.get
nothing k s e = cc e

pick_stores-All :
    (P : SourceVaultStore → Type 0) (names : List String) (d : Dict SourceVaultStore)
    → ((k : String) (s : SourceVaultStore) → Dict.get k d ≡ some s → P s)
    → All P (pick_stores names d)
unfolding pick_stores
pick_stores-All P [] d h = tt
pick_stores-All P (n ∷ names) d h = elim (Option-cases (Dict.get n d)) [
  | inl gone ↦ rw gone (pick_stores-All P names d h)
  | inr (s, e) ↦ rw e (h n s e, pick_stores-All P names d h)
]

pick_agrees :
    (names : List String) (d d2 : Dict SourceVaultStore)
    → ((k : String) (s : SourceVaultStore) → Dict.get k d ≡ some s → s.name ≡ k)
    → ((k : String) (s : SourceVaultStore) → Dict.get k d2 ≡ some s → Dict.get k d ≡ some s)
    → All (λ (s : SourceVaultStore). is_some (Dict.get s.name d2) ≡ true) (pick_stores names d)
    → pick_stores names d2 ≡ pick_stores names d
unfolding pick_stores
pick_agrees [] d d2 named sub h = refl
pick_agrees (n ∷ names) d d2 named sub h = elim (Option-cases (Dict.get n d2)) [
  | inr (s, e) ↦
      rw (e, sub n s e)
        (ap (λ ss. s ∷ ss) (pick_agrees names d d2 named sub (rw (sub n s e) at h).1))
  | inl gone ↦ elim (Option-cases (Dict.get n d)) [
    | inl also ↦ rw (gone, also) (pick_agrees names d d2 named sub (rw also at h))
    | inr (s, e) ↦
        let there = subst (λ k. is_some (Dict.get k d2) ≡ true) (named n s e) (rw e at h).0 in
        absurd (cc (there, gone))
  ]
]

stores_by_name-named :
    (ss : List SourceVaultStore) (k : String) (s : SourceVaultStore)
    → Dict.get k (stores_by_name ss) ≡ some s
    → s.name ≡ k
unfolding stores_by_name
stores_by_name-named ss k s e =
    found-of (λ k' s'. s'.name ≡ k') ss [] (All-refl ss) (λ k' s' e'. absurd (nothing k' s' e')) k s
      e
  where
    All-refl : (ss : List SourceVaultStore) → All (λ (s : SourceVaultStore). s.name ≡ s.name) ss
    All-refl [] = tt
    All-refl (s ∷ ss) = (refl, All-refl ss)

subset :
    (names : List String) (d : Dict SourceVaultStore)
    → ((k : String) (s : SourceVaultStore) → Dict.get k d ≡ some s → s.name ≡ k)
    → (k : String) (s : SourceVaultStore)
    → Dict.get k (stores_by_name (pick_stores names d)) ≡ some s
    → Dict.get k d ≡ some s
unfolding stores_by_name
subset names d named =
    found-of (λ k s. Dict.get k d ≡ some s) (pick_stores names d) []
      (pick_stores-All (λ s. Dict.get s.name d ≡ some s) names d
        (λ k s e. subst (λ j. Dict.get j d ≡ some s) (sym (named k s e)) e))
      (λ k s e. absurd (nothing k s e))

-- Selecting by the same names from the selected stores gives these again.
pub select_vault_stores_twice :
    (stores : List SourceVaultStore) (names : List String)
    → select_vault_stores (select_vault_stores stores names) names
      ≡ select_vault_stores stores names
unfolding select_vault_stores
select_vault_stores_twice stores [] = refl
select_vault_stores_twice stores (n ∷ names) =
    let d = stores_by_name stores in
    let selected = pick_stores (n ∷ names) d in
    pick_agrees (n ∷ names) d (stores_by_name selected) (stores_by_name-named stores)
      (subset (n ∷ names) d (stores_by_name-named stores))
      (unfold stores_by_name in each_there selected [])

-- With distinct names each store is found under its name.
found_after :
    (ss : List SourceVaultStore) (d : Dict SourceVaultStore) (k : String) (s : SourceVaultStore)
    → text_in k (map (λ (x : SourceVaultStore). x.name) ss) ≡ false
    → Dict.get k d ≡ some s
    → Dict.get k (Dict.put_all (pairs ss) d) ≡ some s
unfolding Dict.put_all
found_after [] d k s h e = e
found_after (x ∷ ss) d k s h e = elim (Bool-cases (str_eq x.name k)) [
  | inl y ↦ absurd (cc (rw y at h))
  | inr n ↦ found_after ss (Dict.put x.name x d) k s (rw n at h) (get-put x.name k x d ∙ rw n e)
]

each-found :
    (ss : List SourceVaultStore) (d : Dict SourceVaultStore)
    → AllDistinct (map (λ (x : SourceVaultStore). x.name) ss)
    → All (λ (s : SourceVaultStore). Dict.get s.name (Dict.put_all (pairs ss) d) ≡ some s) ss
unfolding Dict.put_all
each-found [] d h = tt
each-found (x ∷ ss) d (h, hs) = (
  found_after ss (Dict.put x.name x d) x.name x h (get-put_self x.name x d),
  each-found ss (Dict.put x.name x d) hs,
)

pick_each :
    (ss : List SourceVaultStore) (d : Dict SourceVaultStore)
    → All (λ (s : SourceVaultStore). Dict.get s.name d ≡ some s) ss
    → pick_stores (map (λ (x : SourceVaultStore). x.name) ss) d ≡ ss
unfolding pick_stores
pick_each [] d h = refl
pick_each (x ∷ ss) d (h, hs) = rw h (ap (λ rest. x ∷ rest) (pick_each ss d hs))

-- Selecting stores of distinct names by all these names gives the stores.
pub select_vault_stores_all :
    (stores : List SourceVaultStore)
    → AllDistinct (map (λ (x : SourceVaultStore). x.name) stores)
    → select_vault_stores stores (map (λ (x : SourceVaultStore). x.name) stores) ≡ stores
unfolding select_vault_stores stores_by_name
select_vault_stores_all [] h = refl
select_vault_stores_all (x ∷ ss) h =
    pick_each (x ∷ ss) (stores_by_name (x ∷ ss)) (each-found (x ∷ ss) [] h)
