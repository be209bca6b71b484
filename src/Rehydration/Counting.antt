-- ===== src/Rehydration/Counting.antt =====
-- The counters of the rehydrator.
use enterprise_vault_migrati.Prelude.{
  ℕ, suc, ◌+◌, ◌≡◌, refl, Option, none, some, List, [], ◌∷◌, Option-cases, length, arith,
  Bool-cases, inl, inr, ◌∙◌,
}
use enterprise_vault_migrati.Runtime.{Runtime}
use enterprise_vault_migrati.Errors.{ok, err, Attempt, Returns, Returns-bind}
use enterprise_vault_migrati.Contracts.Source.{SourceContentPart, SourceMailItem}
use enterprise_vault_migrati.Rehydration.{
  CachedContentPart, RehydratedContent, Rehydrator, validate_content_part, cached, resolve_cached,
  resolve_content_part, joined, join_parts, content_of, concluded, rehydrate, matches_cache,
}

-- The items and failures and the bytes that the rehydrator has counted.
abbrev outcomes : Rehydrator → ℕ × ℕ × ℕ
outcomes r = (r.rehydrated_items, r.rehydration_failures, r.rehydrated_bytes)

abbrev lookups : Rehydrator → ℕ
lookups r = r.cache_hits + r.cache_misses

module _ {F : Type 0} (rt : Runtime F) where
  -- `q` has looked up `n` parts if it returns, and has counted no item.
  Looked : {A : Type 0} → ℕ → Rehydrator → Attempt F A × Rehydrator → Type 0
  Looked n r q = Returns (λ x. lookups q.1 ≡ n + lookups r) q.0 × (outcomes q.1 ≡ outcomes r)

  cached-Looked : (r : Rehydrator) (o : Attempt F CachedContentPart) → Looked 1 r (cached rt r o)
  unfolding cached Looked
  cached-Looked r (ok c) = (omega arith, refl)
  cached-Looked r (err e) = (tt, refl)

  resolve_cached-Looked :
      (p : SourceContentPart) (r : Rehydrator) (o : Option CachedContentPart)
      → Looked 1 r (resolve_cached rt p r o)
  unfolding resolve_cached Looked
  resolve_cached-Looked p r none = cached-Looked r (validate_content_part rt p)
  resolve_cached-Looked p r (some c) = elim (Bool-cases (matches_cache c p)) [
    | inl y ↦ rw y (omega arith, refl)
    | inr n ↦ rw n (tt, refl)
  ]

  joined-Looked :
      (n : ℕ) (r s : Rehydrator) (one : Attempt F CachedContentPart)
      (rest : Attempt F (List ℕ) × Rehydrator)
      → Looked 1 r (one, s)
      → Looked n s rest
      → Looked (suc n) r (joined rt one s rest)
  unfolding joined Looked
  joined-Looked n r s (err e) rest h k = (tt, h.1)
  joined-Looked n r s (ok c) rest h k = (
    Returns-bind (λ b. lookups rest.1 ≡ n + lookups s) (λ b. lookups rest.1 ≡ suc n + lookups r)
        rest.0 _ k.0 (λ more m. omega (arith, m, h.0)),
    k.1 ∙ h.1,
  )

  join_parts-Looked :
      (ps : List SourceContentPart) (r : Rehydrator) → Looked (length ps) r (join_parts rt ps r)
  unfolding join_parts resolve_content_part
  join_parts-Looked [] r = unfold Looked in (omega arith, refl)
  join_parts-Looked (p ∷ ps) r =
      let (one, s) = resolve_content_part rt p r in
      joined-Looked (length ps) r s one (join_parts rt ps s) (resolve_cached-Looked p r _)
        (join_parts-Looked ps s)

  content_of-Looked :
      (m : SourceMailItem) (ps : List SourceContentPart) (r : Rehydrator)
      → Looked (length ps) r (content_of rt m ps r)
  unfolding content_of
  content_of-Looked m [] r = elim (Option-cases (rt.utf_8 m.body)) [
    | inl none_ ↦ rw (content_of, none_) (unfold Looked in (tt, refl))
    | inr (b, e) ↦ rw (content_of, e) (unfold Looked in (omega arith, refl))
  ]
  content_of-Looked m (p ∷ ps) r = join_parts-Looked (p ∷ ps) r

  -- What the counters say of a call with `n` parts: one more item with its bytes and `n` more lookups,
  -- or one more failure and no more items and bytes.
  abbrev pub Counted : ℕ → Rehydrator → Attempt F RehydratedContent → Rehydrator → Type 0
  Counted n r (ok c) s =
      (outcomes s
        ≡ (r.rehydrated_items + 1, r.rehydration_failures, r.rehydrated_bytes + c.size_bytes))
      × (lookups s ≡ n + lookups r)
  Counted n r (err e) s =
      outcomes s ≡ (r.rehydrated_items, r.rehydration_failures + 1, r.rehydrated_bytes)

  concluded-Counted :
      (m : SourceMailItem) (started completed n : ℕ) (r : Rehydrator)
      (q : Attempt F (List ℕ) × Rehydrator)
      → Looked n r q
      → Counted n r (concluded rt m started completed q).0 (concluded rt m started completed q).1
  unfolding concluded Looked
  concluded-Counted m started completed n r (err e, s) h = cc h.1
  concluded-Counted m started completed n r (ok b, s) h = (cc h.1, h.0)

  -- Each call counts either one item with its bytes and one cache hit or miss for each of its parts, or
  -- one failure.
  pub rehydrate-Counted :
      (m : SourceMailItem) (started completed : ℕ) (r : Rehydrator)
      → Counted
          (length m.content_parts)
          r
          (rehydrate rt m started completed r).0
          (rehydrate rt m started completed r).1
  unfolding rehydrate
  rehydrate-Counted m started completed r =
      concluded-Counted m started completed (length m.content_parts) r
        (content_of rt m m.content_parts r) (content_of-Looked m m.content_parts r)
