-- ===== src/Rehydration/Integrity.antt =====
-- Rehydrated content is what the parts hold, whatever was cached before.
use enterprise_vault_migrati.Prelude.{
  ℕ, ◌==◌, ==_iff, ◌≡◌, refl, String, true, Option, none, some, List, [], ◌∷◌, ◌++◌, str_eq,
  str_eq_iff, list_eq_sound, length, arith, All, Bool-cases, Option-cases, inl, inr, sym, ◌∙◌, ap,
}
use enterprise_vault_migrati.Runtime.{Runtime}
use enterprise_vault_migrati.Dict
use enterprise_vault_migrati.Dict.{Dict}
use enterprise_vault_migrati.Dict.Laws.{get-All}
use enterprise_vault_migrati.Errors.{ok, err, Attempt, Returns, Returns-bind, Returns-map}
use enterprise_vault_migrati.Contracts.Source.{
  SourceContentPart, SourceMailItem, ReportedSize, bytes,
}
use enterprise_vault_migrati.Rehydration.{
  CachedContentPart, RehydratedContent, Rehydrator, size_eq, matches_cache, validate_content_part,
  cached, resolve_cached, resolve_content_part, joined, join_parts, content_of, concluded,
  rehydrate,
}

-- The bytes have the declared size and checksum.
abbrev pub IsIntact : {F : Type 0} → Runtime F → List ℕ → ReportedSize → String → Type 0
IsIntact rt content size checksum = (size ≡ bytes (length content)) × (rt.sha256 content ≡ checksum)

-- Every cached part is intact.
abbrev pub CacheIntact : {F : Type 0} → Runtime F → Dict CachedContentPart → Type 0
CacheIntact rt d =
    All (λ (e : String × CachedContentPart). IsIntact rt e.1.content e.1.size_bytes e.1.sha256) d

size_eq_sound : (a b : ReportedSize) → size_eq a b ≡ true → a ≡ b
size_eq_sound a b h = ground arith

module _ {F : Type 0} (rt : Runtime F) where
  -- `c` stands for the part `p`, which is intact.
  StandsFor : SourceContentPart → CachedContentPart → Type 0
  StandsFor p c =
      (c.content ≡ p.content)
      × IsIntact rt c.content c.size_bytes c.sha256
      × IsIntact rt p.content p.size_bytes p.sha256

  put-CacheIntact :
      (k : String) (c : CachedContentPart) (d : Dict CachedContentPart)
      → IsIntact rt c.content c.size_bytes c.sha256
      → CacheIntact rt d
      → CacheIntact rt (Dict.put k c d)
  unfolding Dict.put
  put-CacheIntact k c [] h a = (h, tt)
  put-CacheIntact k c (e ∷ d) h a = elim (Bool-cases (str_eq e.0 k)) [
    | inl y ↦ rw y (h, a.1)
    | inr n ↦ rw n (a.0, put-CacheIntact k c d h a.1)
  ]

  validated_facts :
      (p : SourceContentPart) (c : CachedContentPart)
      → validate_content_part rt p ≡ ok c
      → (size_eq (bytes (length p.content)) p.size_bytes ≡ true)
        × (str_eq (rt.sha256 p.content) p.sha256 ≡ true)
        × (c.content ≡ p.content)
        × (c.size_bytes ≡ p.size_bytes)
        × (c.sha256 ≡ p.sha256)
  unfolding validate_content_part
  validated_facts p c h = (ground arith, ground arith, ground arith, ground arith, ground arith)

  validated-StandsFor :
      (p : SourceContentPart) (c : CachedContentPart)
      → validate_content_part rt p ≡ ok c
      → StandsFor p c
  unfolding StandsFor
  validated-StandsFor p c h =
      let (size, sum, content, sizes, sums) = validated_facts p c h in
      let a = sym (size_eq_sound (bytes (length p.content)) p.size_bytes size) in
      let b = (str_eq_iff (rt.sha256 p.content) p.sha256).0 sum in
      (
        content,
        (
          sizes ∙ a ∙ ap (λ xs. bytes (length xs)) (sym content),
          ap rt.sha256 content ∙ b ∙ sym sums,
        ),
        (a, b),
      )

  matched-StandsFor :
      (p : SourceContentPart) (c : CachedContentPart)
      → IsIntact rt c.content c.size_bytes c.sha256
      → matches_cache c p ≡ true
      → StandsFor p c
  unfolding matches_cache StandsFor
  matched-StandsFor p c i h =
      let same =
        list_eq_sound (λ m n. m == n) (λ x y q. (==_iff x y).0 q) c.content p.content
          (ground arith) in
      let sizes = size_eq_sound c.size_bytes p.size_bytes (ground arith) in
      let sums = (str_eq_iff c.sha256 p.sha256).0 (ground arith) in
      (
        same,
        i,
        (sym sizes ∙ i.0 ∙ ap (λ xs. bytes (length xs)) same, ap rt.sha256 (sym same) ∙ i.1 ∙ sums),
      )

  -- What a step of the join gives: an intact cache, and a part's stand-in if it returns one.
  Resolves : SourceContentPart → Attempt F CachedContentPart × Rehydrator → Type 0
  Resolves p q = Returns (StandsFor p) q.0 × CacheIntact rt q.1.cache

  cached-Resolves :
      (p : SourceContentPart) (r : Rehydrator) (o : Attempt F CachedContentPart)
      → validate_content_part rt p ≡ o
      → CacheIntact rt r.cache
      → Resolves p (cached rt r o)
  unfolding cached Resolves StandsFor
  cached-Resolves p r (err e) h a = (tt, a)
  cached-Resolves p r (ok c) h a =
      let s = validated-StandsFor p c h in (s, put-CacheIntact c.part_id c r.cache s.1 a)

  hit-Resolves :
      (p : SourceContentPart) (r : Rehydrator) (c : CachedContentPart)
      → IsIntact rt c.content c.size_bytes c.sha256
      → CacheIntact rt r.cache
      → Resolves p (resolve_cached rt p r (some c))
  unfolding resolve_cached Resolves
  hit-Resolves p r c i a = elim (Bool-cases (matches_cache c p)) [
    | inl y ↦ rw y (matched-StandsFor p c i y, a)
    | inr n ↦ rw n (tt, a)
  ]

  resolve_cached-Resolves :
      (p : SourceContentPart) (r : Rehydrator) (o : Option CachedContentPart)
      → Dict.get p.part_id r.cache ≡ o
      → CacheIntact rt r.cache
      → Resolves p (resolve_cached rt p r o)
  resolve_cached-Resolves p r none h a =
      unfold resolve_cached in cached-Resolves p r (validate_content_part rt p) refl a
  resolve_cached-Resolves p r (some c) h a =
      hit-Resolves p r c
        (get-All (λ (c' : CachedContentPart). IsIntact rt c'.content c'.size_bytes c'.sha256)
          p.part_id r.cache a h)
        a

  -- The bytes of all parts, in order.
  abbrev pub contents : List SourceContentPart → List ℕ
  contents [] = []
  contents (p ∷ ps) = p.content ++ contents ps

  abbrev pub PartsIntact : List SourceContentPart → Type 0
  PartsIntact ps = All (λ (p : SourceContentPart). IsIntact rt p.content p.size_bytes p.sha256) ps

  abbrev Rebuilt : List SourceContentPart → List ℕ → Type 0
  Rebuilt ps b = (b ≡ contents ps) × PartsIntact ps

  joined-Rebuilt :
      (p : SourceContentPart) (ps : List SourceContentPart) (one : Attempt F CachedContentPart)
      (r : Rehydrator) (rest : Attempt F (List ℕ) × Rehydrator)
      → Resolves p (one, r)
      → Returns (Rebuilt ps) rest.0 × CacheIntact rt rest.1.cache
      → Returns (Rebuilt (p ∷ ps)) (joined rt one r rest).0
        × CacheIntact rt (joined rt one r rest).1.cache
  unfolding joined Resolves StandsFor
  joined-Rebuilt p ps (err e) r rest h k = (tt, h.1)
  joined-Rebuilt p ps (ok c) r rest h k = (
    Returns-bind (Rebuilt ps) (Rebuilt (p ∷ ps)) rest.0 _ k.0
        (λ more m. (cc (h.0.0, m.0), (h.0.2, m.1))),
    k.1,
  )

  join_parts-Rebuilt :
      (ps : List SourceContentPart) (r : Rehydrator)
      → CacheIntact rt r.cache
      → Returns (Rebuilt ps) (join_parts rt ps r).0 × CacheIntact rt (join_parts rt ps r).1.cache
  unfolding join_parts resolve_content_part Resolves
  join_parts-Rebuilt [] r a = ((refl, tt), a)
  join_parts-Rebuilt (p ∷ ps) r a =
      let q = resolve_cached-Resolves p r _ refl a in
      joined-Rebuilt p ps (resolve_content_part rt p r).0 (resolve_content_part rt p r).1
        (join_parts rt ps (resolve_content_part rt p r).1) q
        (join_parts-Rebuilt ps (resolve_content_part rt p r).1 q.1)

  -- The bytes that a mail item stands for: its body, if that can be encoded, or its parts one after
  -- the other.
  abbrev pub item_bytes : SourceMailItem → List SourceContentPart → Option (List ℕ)
  item_bytes m [] = rt.utf_8 m.body
  item_bytes m (p ∷ ps) = some (contents (p ∷ ps))

  -- `c` is the content of `m`, with its checksum and size, and the parts of `m` are intact.
  pub record Rehydrated (m : SourceMailItem) (c : RehydratedContent) : Type 0 where
    pub bytes_of_item : item_bytes m m.content_parts ≡ some c.content_bytes
    pub parts_intact : PartsIntact m.content_parts
    pub checksum_of_bytes : c.checksum ≡ rt.sha256 c.content_bytes
    pub size_of_bytes : c.size_bytes ≡ length c.content_bytes

  content_of-Rebuilt :
      (m : SourceMailItem) (ps : List SourceContentPart) (r : Rehydrator)
      → CacheIntact rt r.cache
      → Returns (λ b. (item_bytes m ps ≡ some b) × PartsIntact ps) (content_of rt m ps r).0
        × CacheIntact rt (content_of rt m ps r).1.cache
  unfolding content_of
  content_of-Rebuilt m [] r a = elim (Option-cases (rt.utf_8 m.body)) [
    | inl none_ ↦ rw (content_of, none_) (tt, a)
    | inr (b, e) ↦ rw (content_of, e) ((refl, tt), a)
  ]
  content_of-Rebuilt m (p ∷ ps) r a =
      let q = join_parts-Rebuilt (p ∷ ps) r a in
      (
        Returns-map (Rebuilt (p ∷ ps))
            (λ b. (item_bytes m (p ∷ ps) ≡ some b) × PartsIntact (p ∷ ps))
            (join_parts rt (p ∷ ps) r).0 (λ b h. (ap some (sym h.0), h.1)) q.0,
        q.1,
      )

  concluded-Rehydrated :
      (m : SourceMailItem) (started completed : ℕ) (q : Attempt F (List ℕ) × Rehydrator)
      → Returns (λ b. (item_bytes m m.content_parts ≡ some b) × PartsIntact m.content_parts) q.0
        × CacheIntact rt q.1.cache
      → Returns (Rehydrated m) (concluded rt m started completed q).0
        × CacheIntact rt (concluded rt m started completed q).1.cache
  unfolding concluded
  concluded-Rehydrated m started completed (err e, r) h = (tt, h.1)
  concluded-Rehydrated m started completed (ok b, r) h = (
    record {
      bytes_of_item = h.0.0;
      parts_intact = h.0.1;
      checksum_of_bytes = refl;
      size_of_bytes = refl;
    },
    h.1,
  )

  -- With an intact cache, rehydrated content is the bytes of the item with their checksum and size, all
  -- parts of the item having their declared size and checksum; and the cache stays intact, also where
  -- rehydration raises.
  pub rehydrate-Rehydrated :
      (m : SourceMailItem) (started completed : ℕ) (r : Rehydrator)
      → CacheIntact rt r.cache
      → Returns (Rehydrated m) (rehydrate rt m started completed r).0
        × CacheIntact rt (rehydrate rt m started completed r).1.cache
  unfolding rehydrate
  rehydrate-Rehydrated m started completed r a =
      concluded-Rehydrated m started completed (content_of rt m m.content_parts r)
        (content_of-Rebuilt m m.content_parts r a)
