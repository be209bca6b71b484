-- ===== src/Reporting/Json.antt =====
-- The values that Python's json module writes, for src/migration_engine/reporting/report_formatter.py,
-- and how a reader of them takes a value out of an object.
use enterprise_vault_migrati.Prelude.{
  ℤ, pos, ℕ, ◌≡◌, refl, String, Bool, Option, none, some, List, [], ◌∷◌, str_eq, if◌then◌else◌,
}

abbrev pub ◌>>=◌ {ℓ κ} : {A : Type ℓ} {B : Type κ} → Option A → (A → Option B) → Option B
none >>= f = none
some x >>= f = f x

infixl 20 ◌>>=◌
-- `F` is the type `float`.
mutual
  pub data Json (F : Type 0) : Type 0 where
    null : Json F
    boolean : Bool → Json F
    integer : ℤ → Json F
    number : F → Json F
    text : String → Json F
    array : Elements F → Json F
    object : Members F → Json F

  pub data Elements (F : Type 0) : Type 0 where
    no_elements : Elements F
    element : Json F → Elements F → Elements F

  pub data Members (F : Type 0) : Type 0 where
    no_members : Members F
    member : String → Json F → Members F → Members F

module _ {F : Type 0} where
  abbrev pub natural : ℕ → Json F
  natural n = integer (pos n)

  -- A Python list and a Python dict with text keys.
  abbrev pub array_of {ℓ} : {A : Type ℓ} → (A → Json F) → List A → Elements F
  array_of f [] = no_elements
  array_of f (x ∷ xs) = element (f x) (array_of f xs)

  abbrev pub members_of : List (String × Json F) → Members F
  members_of [] = no_members
  members_of ((k, v) ∷ kvs) = member k v (members_of kvs)

  abbrev pub find : String → Members F → Option (Json F)
  find k no_members = none
  find k (member j v ms) = if str_eq j k then some v else find k ms

  abbrev pub field : String → Json F → Option (Json F)
  field k (object ms) = find k ms
  field k _ = none

  -- What a reader makes of one value; `none` where it has another shape.
  abbrev pub as_boolean : Json F → Option Bool
  as_boolean (boolean b) = some b
  as_boolean _ = none

  abbrev pub as_integer : Json F → Option ℤ
  as_integer (integer n) = some n
  as_integer _ = none

  abbrev pub as_natural : Json F → Option ℕ
  as_natural (integer (pos n)) = some n
  as_natural _ = none

  abbrev pub as_number : Json F → Option F
  as_number (number x) = some x
  as_number _ = none

  abbrev pub as_text : Json F → Option String
  as_text (text s) = some s
  as_text _ = none

  abbrev pub optional {ℓ} : {A : Type ℓ} → (Json F → Option A) → Json F → Option (Option A)
  optional read null = some none
  optional read v = read v >>= λ x. some (some x)

  abbrev pub read_elements {ℓ} : {A : Type ℓ} → (Json F → Option A) → Elements F → Option (List A)
  read_elements read no_elements = some []
  read_elements read (element v vs) = read v >>= λ x. read_elements read vs >>= λ xs. some (x ∷ xs)

  abbrev pub as_list {ℓ} : {A : Type ℓ} → (Json F → Option A) → Json F → Option (List A)
  as_list read (array vs) = read_elements read vs
  as_list read _ = none

  -- A reader that reads each written element back reads the written list back.
  pub read_elements-array_of {ℓ} :
      {A : Type ℓ} (write : A → Json F) (read : Json F → Option A)
      → ((x : A) → read (write x) ≡ some x)
      → (xs : List A) → read_elements read (array_of write xs) ≡ some xs
  read_elements-array_of write read back [] = refl
  read_elements-array_of write read back (x ∷ xs) =
      rw (back x, read_elements-array_of write read back xs) refl
