-- ===== src/Target/Adapter.antt =====
-- src/adapters/target/mock_storionx_target_adapter.py. What a call reads from outside is an
-- argument: the clock, a fresh UUID and the answer of the injected failure callback.
pub mod Idempotency
pub mod Replays
pub mod History
pub mod ReadBack
use Prim.Native.String.{◌++◌ as ◌+s◌}
use enterprise_vault_migrati.Prelude.{
  ℕ, String, Bool, true, false, Option, none, some, List, [], ◌∷◌, if◌then◌else◌, str_eq, is_some,
  or_text,
}
use enterprise_vault_migrati.Runtime.{Runtime}
use enterprise_vault_migrati.Dict
use enterprise_vault_migrati.Dict.{Dict}
use enterprise_vault_migrati.Errors.{
  ok, err, Exception, Attempt, plain, idempotency_conflict, type_error,
}
use enterprise_vault_migrati.Contracts.Source.{
  ArchiveType, mailbox, ItemType, email, archive_type_value, item_type_value,
}
use enterprise_vault_migrati.Contracts.Documents.{TransformedDocument, UploadResult}
use enterprise_vault_migrati.Target.{
  Document, document_eq, storage_add, storage_get, UploadSession, create_upload_session,
  upload_document, finalize_upload, throttled,
}
use enterprise_vault_migrati.Target.RateLimiter.{UploadRateLimiter, acquire_delay_seconds}

-- ";".join(f"{key}={value}" for key, value in pairs)
unfoldable pub join_pairs : List (String × String) → String
join_pairs [] = ""
join_pairs ((k, v) ∷ []) = k +s "=" +s v
join_pairs ((k, v) ∷ p ∷ rest) = k +s "=" +s v +s ";" +s join_pairs (p ∷ rest)

is_mailbox : ArchiveType → Bool
is_mailbox mailbox = true
is_mailbox _ = false

is_email : ItemType → Bool
is_email email = true
is_email _ = false

-- `if value is not None: properties[key] = value`
put_some : String → Option String → Dict String → Dict String
put_some key none d = d
put_some key (some v) d = Dict.put key v d

-- _build_custom_properties
unfoldable pub build_custom_properties : TransformedDocument → Dict String
unfolding is_mailbox is_email put_some join_pairs
build_custom_properties t =
    let p0 : Dict String = Dict.put_all t.custom_properties [] in
    let p1 : Dict String =
      if is_mailbox t.archive_type
      then p0
      else Dict.put "archive_type" (archive_type_value t.archive_type) p0 in
    let p2 : Dict String =
      if is_email t.item_type then p1 else Dict.put "item_type" (item_type_value t.item_type) p1 in
    let p3 : Dict String =
      if is_some t.mailbox_address then p2 else Dict.put "mailbox_address" "" p2 in
    let p4 : Dict String = put_some "folder_path" t.folder_path p3 in
    let p5 : Dict String = put_some "source_path" t.source_path p4 in
    let p6 : Dict String = if t.is_orphaned then Dict.put "is_orphaned" "true" p5 else p5 in
    let p7 : Dict String = put_some "original_owner_identifier" t.original_owner_identifier p6 in
    let p8 : Dict String =
      if str_eq t.owner_resolution_status "resolved"
      then p7
      else Dict.put "owner_resolution_status" t.owner_resolution_status p7 in
    let p9 : Dict String = if t.legal_hold then Dict.put "legal_hold" "true" p8 else p8 in
    let p10 : Dict String = put_some "legal_hold_policy_id" t.legal_hold_policy_id p9 in
    elim t.journal_metadata [
      | [] ↦ p10
      | p ∷ rest ↦ Dict.put "journal_metadata" (join_pairs (p ∷ rest)) p10
    ]

-- _map_document
unfoldable pub map_document : TransformedDocument → Document
map_document t = record {
  id = t.source_identifier;
  filename = t.filename;
  content_type = t.content_type;
  size = t.size_bytes;
  checksum = t.checksum;
  metadata = record {
    author = t.sender;
    department = t.department;
    retention_policy = t.retention_policy;
    tags = t.tags;
    custom_properties = build_custom_properties t;
  };
  created_at = t.created_at;
  modified_at = t.modified_at;
}

-- MockStorionXTargetAdapter; the failure callback is an argument of the calls
pub record Adapter (F : Type 0) : Type 0 where
  pub workspace_id : String
  pub active_session : Option UploadSession
  pub document_storage : Dict Document
  pub session_id : Option String
  pub started_at : ℕ
  pub active_session_id : Option String
  pub rate_limiter : UploadRateLimiter F
  pub uploaded_documents : Dict TransformedDocument

-- What one call reads from outside.
pub record Reading (F : Type 0) : Type 0 where
  pub now : ℕ
  pub fresh : String
  pub failure : TransformedDocument → Option (Exception F)

-- `payload: object`
pub data Payload : Type 0 where
  document : TransformedDocument → Payload
  other_object : Payload

module _ {F : Type 0} (rt : Runtime F) where
  -- _build_upload_result
  unfoldable pub build_upload_result : TransformedDocument → String → Bool → UploadResult
  build_upload_result t target_identifier idempotent_replay = record {
    item_id = rt.uuid_of_name t.source_identifier;
    success = true;
    target_identifier = some target_identifier;
    error_message = none;
    idempotent_replay = idempotent_replay;
    dry_run = false;
  }

  -- f"Idempotency conflict for key …"
  unfoldable pub conflict_message : Document → Document → String
  conflict_message existing received =
      "Idempotency conflict for key "
      +s rt.repr received.id
      +s ": existing checksum "
      +s rt.repr existing.checksum
      +s " does not match received checksum "
      +s rt.repr received.checksum
      +s "."

module _ {F : Type 0} where
  -- _ensure_session
  unfoldable pub ensure_session : Reading F → Adapter F → Adapter F
  unfolding create_upload_session
  ensure_session r a = elim a.active_session [
    | some s ↦ record a { active_session_id = some s.id }
    | none ↦
        let s =
          create_upload_session a.workspace_id (some (or_text a.session_id r.fresh))
            (some a.started_at) r.fresh r.now in
        record a { active_session = some s; active_session_id = some s.id }
  ]

  -- create_archive
  unfoldable pub create_archive : Reading F → String → Adapter F → String × Adapter F
  create_archive r archive_id a = (archive_id, ensure_session r a)

  -- the attachment of a new document to the session, after `_ensure_session` and `add`
  attach : Document → Adapter F → Attempt F (Adapter F)
  attach d a = elim (upload_document {F = F} d a.active_session_id a.active_session) [
    | ok s ↦ ok (record a { active_session = some s })
    | err e ↦ err e
  ]

  -- get_uploaded_document
  unfoldable pub get_uploaded_document : String → Adapter F → Option TransformedDocument
  get_uploaded_document document_id a =
      if is_some (storage_get document_id a.document_storage)
      then Dict.get document_id a.uploaded_documents
      else none

  -- finalize_job; what it returns is not used
  unfoldable pub finalize_job : Reading F → String → Adapter F → Adapter F
  finalize_job r job_id a = elim a.active_session [
    | none ↦ a
    | some s ↦ elim (finalize_upload {F = F} (some r.now) r.now (some s)) [
      | ok s' ↦ record a { active_session = some s' }
      | err e ↦ a
    ]
  ]

module _ {F : Type 0} (rt : Runtime F) where
  -- what `upload_document` in the locked block ends with; `c` has the document already
  added :
      TransformedDocument → Adapter F → Attempt F (Adapter F) → Attempt F UploadResult × Adapter F
  added t c (ok c') = (ok (build_upload_result rt t t.source_identifier false), c')
  added t c (err e) = (err e, c)

  -- the new document is in the storage and recorded, under an active session
  prepared : Reading F → TransformedDocument → Adapter F → Adapter F
  prepared r t a =
      let b = ensure_session r a in
      record b {
        document_storage = storage_add (map_document t) b.document_storage;
        uploaded_documents = Dict.put t.source_identifier t b.uploaded_documents;
      }

  add_document : Reading F → TransformedDocument → Adapter F → Attempt F UploadResult × Adapter F
  unfolding prepared added attach
  add_document r t a = let c = prepared r t a in added t c (attach (map_document t) c)

  -- the block under the lock of upload_archived_file, by what the storage has under the key
  unfoldable pub settle :
      Reading F
      → TransformedDocument
      → Adapter F
      → Option Document
      → Attempt F UploadResult × Adapter F
  unfolding add_document
  settle r t a none = add_document r t a
  settle r t a (some existing) =
      if document_eq existing (map_document t)
      then (
        ok (build_upload_result rt t t.source_identifier true),
        record a { uploaded_documents = Dict.put t.source_identifier t a.uploaded_documents },
      )
      else (err (plain idempotency_conflict (conflict_message rt existing (map_document t))), a)

  unfoldable pub store :
      Reading F → TransformedDocument → Adapter F → Attempt F UploadResult × Adapter F
  unfolding settle
  store r t a = settle r t a (storage_get (map_document t).id a.document_storage)

  unfoldable pub transfer :
      Reading F → TransformedDocument → Adapter F → Attempt F UploadResult × Adapter F
  unfolding store
  transfer r t a =
      let (delay, limiter) = acquire_delay_seconds rt a.rate_limiter r.now in
      let b = record a { rate_limiter = limiter } in
      if rt.float_lt rt.zero_float delay
      then (err (throttled rt delay), b)
      else elim (r.failure t) [ some e ↦ (err e, b) | none ↦ store r t b ]

  -- upload_archived_file, and upload_mail_item and upload_attachment, which call it
  unfoldable pub upload_archived_file :
      Reading F → String → Payload → Adapter F → Attempt F UploadResult × Adapter F
  unfolding transfer
  upload_archived_file r archived_file_id (document t) a = transfer r t a
  upload_archived_file r archived_file_id other_object a =
      (err (plain type_error "MockStorionXTargetAdapter expects a TransformedDocument payload."), a)
