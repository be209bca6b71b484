-- ===== src/Examples/Targets.antt =====
-- The target adapter at concrete inputs.
use enterprise_vault_migrati.Prelude.{ℕ, ◌≡◌, refl, String, true, false, none, some, List, [], ◌∷◌}
use enterprise_vault_migrati.Dict
use enterprise_vault_migrati.Errors.{ok, err, plain, idempotency_conflict}
use enterprise_vault_migrati.Target.{
  document_eq, storage_get, upload_document, create_upload_session,
}
use enterprise_vault_migrati.Target.RateLimiter.{acquire_delay_seconds}
use enterprise_vault_migrati.Target.Adapter.{
  Adapter, Reading, Payload, document, other_object, map_document, build_upload_result,
  conflict_message, ensure_session, upload_archived_file,
}
use enterprise_vault_migrati.Target.Adapter.Replays.{
  limited, upload_keeps_stored, upload_refused_changes_nothing,
}
use enterprise_vault_migrati.Target.Adapter.History.{
  after, Recognised, upload-replay, upload_conflict,
}
use enterprise_vault_migrati.Examples.Data.{nat_runtime, document_a, document_b, forged_a}

-- `document_a` is stored, and no rate is set.
abbrev holding_a : Adapter ℕ
holding_a = record {
  workspace_id = "w";
  active_session = none;
  document_storage = ("a", map_document document_a) ∷ [];
  session_id = none;
  started_at = 0;
  active_session_id = none;
  rate_limiter = record { requests_per_second = none; next_available_at = none };
  uploaded_documents = ("a", document_a) ∷ [];
}

abbrev reading : Reading ℕ
reading = record { now = 7; fresh = "s"; failure = λ t. none }

stored_a : storage_get "a" holding_a.document_storage ≡ some (map_document document_a)
unfolding storage_get Dict.get
stored_a = refl

-- A target without documents.
abbrev empty_target : Adapter ℕ
empty_target = record holding_a { document_storage = []; uploaded_documents = [] }

accepted_a :
    (upload_archived_file nat_runtime reading "a" (document document_a) empty_target).0
    ≡ ok (build_upload_result nat_runtime document_a "a" false)
unfolding upload_archived_file acquire_delay_seconds storage_get Dict.get upload_document
    create_upload_session map_document build_upload_result ensure_session
accepted_a = refl

-- What is sent in between.
abbrev between : List (Reading ℕ × String × Payload)
between = (reading, "x", other_object) ∷ (reading, "b", document document_b) ∷ []

abbrev later_target : Adapter ℕ
later_target =
    after nat_runtime between
      (upload_archived_file nat_runtime reading "a" (document document_a) empty_target).1

upload-replay_example :
    Recognised nat_runtime reading document_a later_target true
      (upload_archived_file nat_runtime reading "a" (document document_a) later_target)
    × ((upload_archived_file nat_runtime reading "a"
          (document document_a)
          later_target).1.document_storage
        ≡ later_target.document_storage)
upload-replay_example =
    upload-replay nat_runtime reading reading "a" "a" document_a empty_target between accepted_a

upload_conflict_example :
    Recognised nat_runtime reading forged_a later_target
      (document_eq (map_document document_a) (map_document forged_a))
      (upload_archived_file nat_runtime reading "a" (document forged_a) later_target)
    × ((upload_archived_file nat_runtime reading "a"
          (document forged_a)
          later_target).1.document_storage
        ≡ later_target.document_storage)
unfolding build_upload_result
upload_conflict_example =
    upload_conflict nat_runtime reading reading "a" "a" document_a forged_a empty_target between
      accepted_a refl refl

upload_keeps_stored_example :
    storage_get "a"
      (upload_archived_file nat_runtime reading "a"
        (document forged_a)
        holding_a).1.document_storage
    ≡ some (map_document document_a)
upload_keeps_stored_example =
    upload_keeps_stored nat_runtime reading "a" (document forged_a) holding_a "a" stored_a

refused_forged :
    (upload_archived_file nat_runtime reading "a" (document forged_a) holding_a).0
    ≡ err (
        plain idempotency_conflict
          (conflict_message nat_runtime (map_document document_a) (map_document forged_a)))
unfolding upload_archived_file acquire_delay_seconds storage_get Dict.get map_document document_eq
refused_forged = refl

upload_refused_changes_nothing_example :
    (upload_archived_file nat_runtime reading "a" (document forged_a) holding_a).1
    ≡ limited nat_runtime reading holding_a
upload_refused_changes_nothing_example =
    upload_refused_changes_nothing nat_runtime reading "a" forged_a holding_a refused_forged
