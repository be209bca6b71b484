-- ===== src/Rehydration.antt =====
-- src/migration_engine/rehydration: the content of a mail item, rebuilt from content parts that are
-- validated once and cached.
pub mod Integrity
pub mod Counting
use Prim.Native.String.{◌++◌ as ◌+s◌}
use enterprise_vault_migrati.Prelude.{
  ℕ, ◌+◌, ◌==◌, String, Bool, true, false, Option, none, some, List, [], ◌∷◌, ◌++◌, ◌&&◌, not,
  if◌then◌else◌, str_eq, list_eq, length,
}
use enterprise_vault_migrati.Runtime.{Runtime}
use enterprise_vault_migrati.Dict
use enterprise_vault_migrati.Dict.{Dict}
use enterprise_vault_migrati.Errors.{ok, err, Attempt, plain, validation_error, value_error, ◌>>=◌}
use enterprise_vault_migrati.Contracts.Source.{
  SourceContentPart, SourceMailItem, ReportedSize, bytes, minus,
}

-- _CachedContentPart
pub record CachedContentPart : Type 0 where
  pub part_id : String
  pub data_ref : String
  pub content : List ℕ
  pub size_bytes : ReportedSize
  pub sha256 : String

-- RehydratedContent
pub record RehydratedContent : Type 0 where
  pub source_identifier : String
  pub content_bytes : List ℕ
  pub content_parts : List SourceContentPart
  pub checksum : String
  pub size_bytes : ℕ
  pub started_at : ℕ
  pub completed_at : ℕ

-- SisRehydrator
pub record Rehydrator : Type 0 where
  pub cache : Dict CachedContentPart
  pub rehydrated_items : ℕ
  pub rehydration_failures : ℕ
  pub rehydrated_bytes : ℕ
  pub cache_hits : ℕ
  pub cache_misses : ℕ

-- SisRehydrator()
abbrev pub new_rehydrator : Rehydrator
new_rehydrator = record {
  cache = [];
  rehydrated_items = 0;
  rehydration_failures = 0;
  rehydrated_bytes = 0;
  cache_hits = 0;
  cache_misses = 0;
}

-- `a == b` and `a < 0` on declared sizes
abbrev pub size_eq : ReportedSize → ReportedSize → Bool
size_eq (bytes m) (bytes n) = m == n
size_eq (minus m) (minus n) = m == n
size_eq _ _ = false

abbrev pub is_negative : ReportedSize → Bool
is_negative (bytes n) = false
is_negative (minus n) = true

-- _matches_cache
unfoldable pub matches_cache : CachedContentPart → SourceContentPart → Bool
matches_cache c p =
    str_eq c.part_id p.part_id
    && str_eq c.data_ref p.data_ref
    && size_eq c.size_bytes p.size_bytes
    && str_eq c.sha256 p.sha256
    && list_eq (λ m n. m == n) c.content p.content

module _ {F : Type 0} (rt : Runtime F) where
  refused : {A : Type 0} → String → Attempt F A
  refused message = err (plain validation_error message)

  -- str() of a declared size
  size_text : ReportedSize → String
  size_text (bytes n) = rt.decimal n
  size_text (minus n) = "-" +s rt.decimal (n + 1)

  -- _validate_content_part
  unfoldable pub validate_content_part : SourceContentPart → Attempt F CachedContentPart
  unfolding refused size_text
  validate_content_part p =
      if str_eq p.part_id ""
      then refused "SIS content part requires a stable part identifier"
      else if str_eq p.data_ref ""
      then refused ("SIS content part " +s rt.repr p.part_id +s " requires a data reference")
      else if is_negative p.size_bytes
      then refused ("SIS content part " +s rt.repr p.part_id +s " cannot have negative size")
      else if not (size_eq (bytes (length p.content)) p.size_bytes)
      then refused (
          "SIS content part "
          +s rt.repr p.part_id
          +s " reported size "
          +s size_text p.size_bytes
          +s " but contains "
          +s rt.decimal (length p.content)
          +s " bytes")
      else if not (str_eq (rt.sha256 p.content) p.sha256)
      then refused (
          "SIS content part "
          +s rt.repr p.part_id
          +s " reported checksum "
          +s rt.repr p.sha256
          +s " but contains "
          +s rt.repr (rt.sha256 p.content))
      else ok (record {
        part_id = p.part_id;
        data_ref = p.data_ref;
        content = p.content;
        size_bytes = p.size_bytes;
        sha256 = p.sha256;
      })

  -- the cache takes what was validated
  cached : Rehydrator → Attempt F CachedContentPart → Attempt F CachedContentPart × Rehydrator
  cached r (err e) = (err e, r)
  cached r (ok c) =
      (ok c, record r { cache = Dict.put c.part_id c r.cache; cache_misses = r.cache_misses + 1 })

  -- by what the cache has under the part's identifier
  resolve_cached :
      SourceContentPart
      → Rehydrator
      → Option CachedContentPart
      → Attempt F CachedContentPart × Rehydrator
  unfolding refused cached
  resolve_cached p r (some c) =
      if matches_cache c p then (ok c, record r { cache_hits = r.cache_hits + 1 }) else (
        refused (
            "Cached SIS content part "
            +s rt.repr p.part_id
            +s " does not match the supplied metadata."),
        r,
      )
  resolve_cached p r none = cached r (validate_content_part p)

  -- _resolve_content_part
  unfoldable pub resolve_content_part :
      SourceContentPart → Rehydrator → Attempt F CachedContentPart × Rehydrator
  unfolding resolve_cached
  resolve_content_part p r = resolve_cached p r (Dict.get p.part_id r.cache)

  -- one part's bytes in front of those of the later parts; an exception ends the join
  joined :
      Attempt F CachedContentPart
      → Rehydrator
      → Attempt F (List ℕ) × Rehydrator
      → Attempt F (List ℕ) × Rehydrator
  joined (err e) r rest = (err e, r)
  joined (ok c) r rest = ((rest.0 >>= λ more. ok (c.content ++ more)), rest.1)

  -- b"".join(self._resolve_content_part(part).data for part in content_parts)
  unfoldable pub join_parts : List SourceContentPart → Rehydrator → Attempt F (List ℕ) × Rehydrator
  unfolding joined
  join_parts [] r = (ok [], r)
  join_parts (p ∷ ps) r =
      let (one, r') = resolve_content_part p r in joined one r' (join_parts ps r')

  -- the bytes: of the body where there are no parts
  unfoldable pub content_of :
      SourceMailItem → List SourceContentPart → Rehydrator → Attempt F (List ℕ) × Rehydrator
  content_of m [] r = elim (rt.utf_8 m.body) [
    | none ↦ (err (plain value_error "surrogates not allowed"), r)
    | some b ↦ (ok b, r)
  ]
  content_of m (p ∷ ps) r = join_parts (p ∷ ps) r

  -- the counters and the result, or the count of the failure
  concluded :
      SourceMailItem
      → ℕ
      → ℕ
      → Attempt F (List ℕ) × Rehydrator
      → Attempt F RehydratedContent × Rehydrator
  concluded m started completed (err e, r) =
      (err e, record r { rehydration_failures = r.rehydration_failures + 1 })
  concluded m started completed (ok b, r) = (
    ok (record {
      source_identifier = m.internet_message_id;
      content_bytes = b;
      content_parts = m.content_parts;
      checksum = rt.sha256 b;
      size_bytes = length b;
      started_at = started;
      completed_at = completed;
    }),
    record r {
      rehydrated_items = r.rehydrated_items + 1;
      rehydrated_bytes = r.rehydrated_bytes + length b;
    },
  )

  -- rehydrate
  unfoldable pub rehydrate :
      SourceMailItem → ℕ → ℕ → Rehydrator → Attempt F RehydratedContent × Rehydrator
  unfolding content_of concluded
  rehydrate m started completed r = concluded m started completed (content_of m m.content_parts r)
