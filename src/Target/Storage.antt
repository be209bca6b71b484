-- ===== src/Target/Storage.antt =====
-- A document equals itself: the comparison that decides between replay and conflict.
use enterprise_vault_migrati.Prelude.{◌≡◌, true, str_eq, str_eq_refl, list_eq_refl, ==_refl}
use enterprise_vault_migrati.Dict.Laws.{dict_eq_refl}
use enterprise_vault_migrati.Target.{Metadata, Document, metadata_eq, document_eq}

metadata_eq_refl : (m : Metadata) → metadata_eq m m ≡ true
unfolding metadata_eq
metadata_eq_refl m =
    simp (str_eq_refl, list_eq_refl str_eq str_eq_refl, dict_eq_refl str_eq str_eq_refl)

pub document_eq_refl : (d : Document) → document_eq d d ≡ true
unfolding document_eq
document_eq_refl d = simp (str_eq_refl, metadata_eq_refl, ==_refl)
