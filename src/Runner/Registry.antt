-- ===== src/Runner/Registry.antt =====
-- src/migration_engine/runner/step_registry.py. A step is the name of its class.
use Prim.Native.String.{◌++◌ as ◌+s◌}
use mathlib.Core.Option
use enterprise_vault_migrati.Prelude.{
  ℕ, suc, String, Option, none, some, List, [], ◌∷◌, ◌++◌, if◌then◌else◌, leb, str_eq, text_in,
}
use enterprise_vault_migrati.Errors.{ok, err, Attempt, plain, value_error, ◌>>=◌}

-- _STEP_ORDER.get(name, len(_STEP_ORDER))
unfoldable pub step_order : String → ℕ
step_order s =
    if str_eq s "DiscoverArchivesStep"
    then 0
    else if str_eq s "ExtractItemsStep"
    then 1
    else if str_eq s "TransformItemsStep"
    then 2
    else if str_eq s "UploadItemsStep"
    then 3
    else if str_eq s "VerifyItemsStep"
    then 4
    else if str_eq s "FinalizeMigrationStep"
    then 5
    else 6

module _ {F : Type 0} where
  -- register; `text_in` is _contains_step_type
  unfoldable pub register : String → List String → Attempt F (List String)
  register step steps =
      if text_in step steps
      then err (plain value_error ("Duplicate step registration is not allowed: " +s step))
      else ok (steps ++ step ∷ [])

  -- the loop of __init__
  unfoldable pub register_all : List String → List String → Attempt F (List String)
  unfolding register
  register_all [] steps = ok steps
  register_all (s ∷ ss) steps = register s steps >>= λ more. register_all ss more

-- A step goes before those of the same order that were registered later.
unfoldable pub insert_step : String → List String → List String
insert_step s [] = s ∷ []
insert_step s (x ∷ xs) =
    let rest = insert_step s xs in
    if leb (step_order s) (step_order x) then s ∷ x ∷ xs else x ∷ rest

-- resolve: sorted by _step_sort_key
unfoldable pub resolve : List String → List String
unfolding insert_step
resolve [] = []
resolve (s ∷ ss) = insert_step s (resolve ss)

-- `enumerate` until the name is met
unfoldable pub position : String → List String → Option ℕ
position name [] = none
position name (s ∷ ss) = if str_eq s name then some 0 else Option.map suc (position name ss)

-- index_of
unfoldable pub index_of : String → List String → Option ℕ
unfolding position
index_of name steps = position name (resolve steps)
