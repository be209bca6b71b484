-- ===== src/Examples/Data.antt =====
-- A concrete runtime, documents, adapters and contexts.
use enterprise_vault_migrati.Prelude.{
  ℕ, zero, suc, ◌*◌, ◌/◌, Bool, true, false, none, some, [], ◌∷◌, ltb,
}
use enterprise_vault_migrati.Runtime.{Runtime}
use enterprise_vault_migrati.StateMachine.{MigrationState, StateMachine}
use enterprise_vault_migrati.Contracts.{Configuration}
use enterprise_vault_migrati.Contracts.Source.{mailbox, email}
use enterprise_vault_migrati.Contracts.Documents.{TransformedDocument, TransformationResult}
use enterprise_vault_migrati.Context.{StepContext, TargetPort}
use enterprise_vault_migrati.Errors.{ok}

abbrev to_the_power : ℕ → ℕ → ℕ
to_the_power a zero = 1
to_the_power a (suc k) = a * to_the_power a k

-- Whole numbers of microseconds stand for the floats.
abbrev pub nat_runtime : Runtime ℕ
nat_runtime = record {
  zero_float = 0;
  one_float = 1;
  float_lt = ltb;
  times = λ a b. a * b;
  power = λ a k. some (to_the_power a k);
  total_seconds = λ n. n;
  quotient = λ n m. n / m;
  rate = λ n s. n / s;
  interval = λ r. 10;
  fixed_3 = λ x. "1.000";
  fixed_6 = λ x. "1.000000";
  strip_zeros = λ s. "1";
  isoformat = λ t. "t";
  repr = λ s. s;
  decimal = λ n. "1";
  uuid_of_name = λ s. s;
  title = λ s. s;
  sha256 = λ b. "00";
  utf_8 = λ s. some [];
}

abbrev pub document_a : TransformedDocument
document_a = record {
  source_identifier = "a";
  archive_name = "Archive";
  subject = "Hello";
  filename = "a.eml";
  content_type = "message/rfc822";
  size_bytes = 10;
  checksum = "c1";
  sender = "x@y.z";
  recipients = [];
  cc_recipients = [];
  bcc_recipients = [];
  retention_policy = "default";
  department = "legal";
  tags = [];
  custom_properties = [];
  attachment_filenames = [];
  attachment_checksums = [];
  attachment_sizes = [];
  created_at = 1;
  modified_at = 2;
  archive_type = mailbox;
  item_type = email;
  mailbox_address = some "m@y.z";
  folder_path = none;
  source_path = none;
  is_orphaned = false;
  original_owner_identifier = none;
  owner_resolution_status = "resolved";
  legal_hold = false;
  legal_hold_policy_id = none;
  journal_metadata = [];
}

abbrev pub document_b : TransformedDocument
document_b = record document_a { source_identifier = "b"; filename = "b.eml"; size_bytes = 20 }

-- The key of `document_a` with another checksum.
abbrev pub forged_a : TransformedDocument
forged_a = record document_a { checksum = "c2" }

abbrev pub configuration : Bool → Configuration ℕ
configuration dry = record {
  dry_run = dry;
  archive_names = none;
  folder_paths = none;
  start_date = none;
  end_date = none;
  upload_worker_count = 2;
  upload_requests_per_second = none;
}

-- One document twice, another once.
abbrev pub transformed : TransformationResult
transformed = record {
  transformed_documents = document_a ∷ document_b ∷ document_a ∷ [];
  skipped_items = 0;
  failed_items = 0;
  warnings = [];
  started_at = some 1;
  completed_at = some 2;
  failed_item_identifiers = [];
}

abbrev pub machine : MigrationState → StateMachine
machine s = record { current_state = s; previous_state = none; initial_state = s }

abbrev pub context : Bool → StepContext ℕ
context dry = record {
  execution_context = record {
    migration_id = "job";
    configuration = configuration dry;
    started_at = 1;
    current_step = none;
    metrics = none;
    state = none;
    current_timestamp = some 5;
  };
  progress_tracker = none;
  state_machine = some (machine MigrationState.transforming);
  execution_report = none;
  discovery_result = none;
  vault_stores = none;
  checkpoint = none;
  extraction_result = none;
  transformation_result = some transformed;
  upload_result = none;
  verification_result = none;
  execution_result = none;
}

-- A target that counts its uploads and accepts every document.
abbrev pub counting_port : TargetPort ℕ ℕ
counting_port = record {
  upload_archived_file = λ id d n. (
    ok (
        some (record {
          item_id = id;
          success = true;
          target_identifier = some id;
          error_message = none;
          idempotent_replay = false;
          dry_run = false;
        })),
    suc n,
  );
  get_uploaded_document = λ id n. some document_a;
  finalize_job = λ id n. n;
}
