-- ===== src/Reporting/Import.antt =====
-- A reader of the dictionaries that report_formatter.py makes, and that it gets back all that they
-- hold.
use enterprise_vault_migrati.Prelude.{ℕ, ◌≡◌, refl, String, Option, none, some, List}
use enterprise_vault_migrati.Contracts.{ReconciliationResult, ErrorBreakdownEntry}
use enterprise_vault_migrati.Reporting.Json.{
  Json, ◌>>=◌, field, text, as_boolean, as_integer, as_natural, as_number, as_text, as_list,
  optional, read_elements-array_of,
}
use enterprise_vault_migrati.Reporting.Formatter.{
  optional_text, optional_integer, optional_number, text_list, serialize_tuple,
  serialize_reconciliation, serialize_error_breakdown_entry,
}

module _ {F : Type 0} where
  pub read_texts : Json F → Option (List String)
  read_texts = as_list as_text

  pub read_reconciliation : Json F → Option ReconciliationResult
  read_reconciliation v = do
    expected ← field "expected_items" v >>= as_natural
    uploaded ← field "uploaded_items" v >>= as_natural
    verified ← field "verified_items" v >>= as_natural
    replays ← field "idempotent_replays" v >>= as_natural
    dry_run ← field "dry_run_items" v >>= as_natural
    missing ← field "missing_items" v >>= read_texts
    unexpected ← field "unexpected_items" v >>= read_texts
    mismatches ← field "checksum_mismatches" v >>= read_texts
    status ← field "status" v >>= as_text
    is_reconciled ← field "is_reconciled" v >>= as_boolean
    some (record {
      expected_items = expected;
      uploaded_items = uploaded;
      verified_items = verified;
      idempotent_replays = replays;
      dry_run_items = dry_run;
      missing_items = missing;
      unexpected_items = unexpected;
      checksum_mismatches = mismatches;
      status = status;
      is_reconciled = is_reconciled;
    })

  pub read_error_breakdown_entry : Json F → Option ErrorBreakdownEntry
  read_error_breakdown_entry v = do
    source ← field "source_identifier" v >>= optional as_text
    stage ← field "stage" v >>= as_text
    category ← field "category" v >>= as_text
    code ← field "code" v >>= as_text
    message ← field "message" v >>= as_text
    retryable ← field "retryable" v >>= as_boolean
    attempts ← field "attempt_count" v >>= as_integer
    final ← field "final_status" v >>= as_text
    archive ← field "archive_identifier" v >>= optional as_text
    item_type ← field "item_type" v >>= optional as_text
    some (record {
      source_identifier = source;
      stage = stage;
      category = category;
      code = code;
      message = message;
      retryable = retryable;
      attempt_count = attempts;
      final_status = final;
      archive_identifier = archive;
      item_type = item_type;
    })

module _ (F : Type 0) where
  pub optional_text-read : (x : Option String) → optional as_text (optional_text {F = F} x) ≡ some x
  unfolding optional_text
  optional_text-read none = refl
  optional_text-read (some s) = refl

  pub optional_integer-read :
      (x : Option ℕ) → optional as_natural (optional_integer {F = F} x) ≡ some x
  unfolding optional_integer
  optional_integer-read none = refl
  optional_integer-read (some n) = refl

  pub optional_number-read : (x : Option F) → optional as_number (optional_number x) ≡ some x
  unfolding optional_number
  optional_number-read none = refl
  optional_number-read (some y) = refl

  pub text_list-read : (xs : List String) → read_texts (text_list {F = F} xs) ≡ some xs
  unfolding text_list read_texts
  text_list-read xs = read_elements-array_of {F = F} text as_text (λ s. refl) xs

  pub serialize_tuple-read :
      (x : Option (List String)) → optional read_texts (serialize_tuple {F = F} x) ≡ some x
  unfolding serialize_tuple read_texts text_list
  serialize_tuple-read none = refl
  serialize_tuple-read (some xs) =
      rw (read_elements-array_of {F = F} text as_text (λ s. refl) xs) refl

  pub serialize_reconciliation-read :
      (x : Option ReconciliationResult)
      → optional read_reconciliation (serialize_reconciliation {F = F} x) ≡ some x
  unfolding serialize_reconciliation read_reconciliation
  serialize_reconciliation-read none = refl
  serialize_reconciliation-read (some x) =
      rw
        (
          text_list-read x.missing_items,
          text_list-read x.unexpected_items,
          text_list-read x.checksum_mismatches,
        )
        refl

  pub serialize_error_breakdown_entry-read :
      (e : ErrorBreakdownEntry)
      → read_error_breakdown_entry (serialize_error_breakdown_entry {F = F} e) ≡ some e
  unfolding serialize_error_breakdown_entry read_error_breakdown_entry
  serialize_error_breakdown_entry-read e =
      rw
        (
          optional_text-read e.source_identifier,
          optional_text-read e.archive_identifier,
          optional_text-read e.item_type,
        )
        refl
