-- ===== src/Examples/Contents.antt =====
-- Rehydration at concrete inputs.
use enterprise_vault_migrati.Prelude.{refl, false, none, [], ◌∷◌}
use enterprise_vault_migrati.Errors.{Returns}
use enterprise_vault_migrati.Contracts.Source.{SourceContentPart, SourceMailItem, bytes, email}
use enterprise_vault_migrati.Rehydration.{Rehydrator, rehydrate}
use enterprise_vault_migrati.Rehydration.Integrity.{CacheIntact, Rehydrated, rehydrate-Rehydrated}
use enterprise_vault_migrati.Examples.Data.{nat_runtime}

-- A part of three bytes; every checksum of the runtime is "00".
abbrev part : SourceContentPart
part = record {
  part_id = "p";
  data_ref = "d";
  content = 1 ∷ 2 ∷ 3 ∷ [];
  size_bytes = bytes 3;
  sha256 = "00";
}

abbrev pub mail_item : SourceMailItem
mail_item = record {
  subject = "s";
  sender = "x@y.z";
  body = "b";
  received_at = 0;
  sent_at = 0;
  modified_at = 0;
  internet_message_id = "m";
  conversation_id = "c";
  message_size = 3;
  item_type = email;
  retention_policy = record { name = "default"; retention_days = 1; classification = "none" };
  recipients = [];
  cc_recipients = [];
  bcc_recipients = [];
  attachments = [];
  content_parts = part ∷ part ∷ [];
  folder_path = "Inbox";
  legal_hold = false;
  legal_hold_policy_id = none;
  journal_metadata = [];
  source_path = none;
}

-- A rehydrator that has the part already.
abbrev warm : Rehydrator
warm = record {
  cache =
      (
        "p",
        record {
          part_id = "p";
          data_ref = "d";
          content = 1 ∷ 2 ∷ 3 ∷ [];
          size_bytes = bytes 3;
          sha256 = "00";
        },
      )
      ∷ [];
  rehydrated_items = 1;
  rehydration_failures = 0;
  rehydrated_bytes = 3;
  cache_hits = 0;
  cache_misses = 1;
}

warm-CacheIntact : CacheIntact nat_runtime warm.cache
warm-CacheIntact = ((refl, refl), tt)

rehydrate-Rehydrated_example :
    Returns (Rehydrated nat_runtime mail_item) (rehydrate nat_runtime mail_item 1 2 warm).0
    × CacheIntact nat_runtime (rehydrate nat_runtime mail_item 1 2 warm).1.cache
rehydrate-Rehydrated_example = rehydrate-Rehydrated nat_runtime mail_item 1 2 warm warm-CacheIntact
