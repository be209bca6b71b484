-- ===== src/Target.antt =====
-- The mock storionX subsystem: src/mock_storionx/entities/*.py, storage/in_memory_storage.py,
-- services/upload_service.py and exceptions.py. The locks make each method one step; the adapter is
-- the only holder of the active session, so the session is a value of the state.
pub mod RateLimiter
pub mod Adapter
pub mod Storage
use Prim.Native.String.{◌++◌ as ◌+s◌}
use enterprise_vault_migrati.Prelude.{
  ℕ, ◌==◌, String, Bool, true, false, Option, none, some, List, [], ◌∷◌, ◌++◌, if◌then◌else◌,
  str_eq, list_eq, or_else, or_text, ◌&&◌,
}
use enterprise_vault_migrati.Runtime.{Runtime}
use enterprise_vault_migrati.Dict
use enterprise_vault_migrati.Dict.{Dict}
use enterprise_vault_migrati.Errors.{
  ok, err, Exception, Attempt, plain, runtime_error, too_many_requests, service_unavailable,
}

-- Metadata
pub record Metadata : Type 0 where
  pub author : String
  pub department : String
  pub retention_policy : String
  pub tags : List String
  pub custom_properties : Dict String

-- Document
pub record Document : Type 0 where
  pub id : String
  pub filename : String
  pub content_type : String
  pub size : ℕ
  pub checksum : String
  pub metadata : Metadata
  pub created_at : ℕ
  pub modified_at : ℕ

-- The equality that `dataclass` generates: field by field, dictionaries without regard to order.
unfoldable pub metadata_eq : Metadata → Metadata → Bool
metadata_eq a b =
    str_eq a.author b.author
    && str_eq a.department b.department
    && str_eq a.retention_policy b.retention_policy
    && list_eq str_eq a.tags b.tags
    && Dict.dict_eq str_eq a.custom_properties b.custom_properties

unfoldable pub document_eq : Document → Document → Bool
document_eq a b =
    str_eq a.id b.id
    && str_eq a.filename b.filename
    && str_eq a.content_type b.content_type
    && (a.size == b.size)
    && str_eq a.checksum b.checksum
    && metadata_eq a.metadata b.metadata
    && (a.created_at == b.created_at)
    && (a.modified_at == b.modified_at)

-- _InMemoryStorage with the key of DocumentStorage
unfoldable pub storage_add : Document → Dict Document → Dict Document
storage_add d items = Dict.put d.id d items

unfoldable pub storage_get : String → Dict Document → Option Document
storage_get identifier items = Dict.get identifier items

unfoldable pub storage_list : Dict Document → List Document
storage_list items = Dict.values items

unfoldable pub storage_remove : String → Dict Document → Dict Document
storage_remove identifier items = Dict.remove identifier items

-- UploadSession
pub record UploadSession : Type 0 where
  pub id : String
  pub workspace_id : String
  pub started_at : ℕ
  pub completed_at : Option ℕ
  pub uploaded_documents : List Document

-- UploadService.create_upload_session; the state of the service is `_active_session`, `fresh` is
-- str(uuid4()) and `now` is datetime.now
unfoldable pub create_upload_session :
    String → Option String → Option ℕ → String → ℕ → UploadSession
create_upload_session workspace_id session_id started_at fresh now = record {
  id = or_text session_id fresh;
  workspace_id = workspace_id;
  started_at = or_else started_at now;
  completed_at = none;
  uploaded_documents = [];
}

-- `session_id is not None and session_id != upload_session.id`
unfoldable pub names_other_session : Option String → UploadSession → Bool
names_other_session none s = false
names_other_session (some sid) s = if str_eq sid s.id then false else true

-- UploadService.upload_document
unfoldable pub upload_document :
    {F : Type 0} → Document → Option String → Option UploadSession → Attempt F UploadSession
unfolding names_other_session
upload_document d session_id none = err (plain runtime_error "No active upload session exists.")
upload_document d session_id (some s) =
    let target : UploadSession =
      if names_other_session session_id s then record s { id = or_else session_id s.id } else s in
    ok (record target { uploaded_documents = target.uploaded_documents ++ d ∷ [] })

-- UploadService.finalize_upload
unfoldable pub finalize_upload :
    {F : Type 0} → Option ℕ → ℕ → Option UploadSession → Attempt F UploadSession
finalize_upload completed_at now none = err (plain runtime_error "No active upload session exists.")
finalize_upload completed_at now (some s) =
    ok (record s { completed_at = some (or_else completed_at now) })

-- TooManyRequestsError(retry_after_seconds=seconds)
unfoldable pub throttled : {F : Type 0} → Runtime F → F → Exception F
throttled rt seconds = record {
  error_class = too_many_requests;
  message = "Too Many Requests; retry after " +s rt.fixed_3 seconds +s " seconds.";
  status_code = some 429;
  retry_after_seconds = some (some seconds);
}

-- ServiceUnavailableError(retry_after_seconds=seconds)
unfoldable pub unavailable : {F : Type 0} → Runtime F → F → Exception F
unavailable rt seconds = record {
  error_class = service_unavailable;
  message =
      if rt.float_lt rt.zero_float seconds
      then "Service Unavailable; retry after " +s rt.fixed_3 seconds +s " seconds."
      else "Service Unavailable";
  status_code = some 503;
  retry_after_seconds = some (some seconds);
}
