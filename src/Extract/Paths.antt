-- ===== src/Extract/Paths.antt =====
-- The folder paths of src/migration_engine/steps/extract_items_step.py, as lists of code points.
use enterprise_vault_migrati.Prelude.{
  is_space, lstrip, rstrip, starts_with, ℕ, ◌==◌, Bool, List, [], ◌∷◌, ◌||◌, map, if◌then◌else◌,
  ltb, length, list_eq, is_empty, ◌++◌,
}

-- `==` of two texts
abbrev pub path_eq : List ℕ → List ℕ → Bool
path_eq = list_eq (λ m n. m == n)

abbrev pub is_slash : ℕ → Bool
is_slash c = c == b'/'

-- folder_path.replace("\\", "/").strip()
unfoldable pub forward : List ℕ → List ℕ
unfolding lstrip rstrip is_space
forward path = rstrip is_space (lstrip is_space (map (λ c. if c == 92 then b'/' else c) path))

abbrev pub root : List ℕ
root = b'/' ∷ []

-- the two tests on a path that is not empty
rooted : List ℕ → List ℕ
rooted path = if starts_with root path then path else b'/' ∷ path

trimmed : List ℕ → List ℕ
trimmed path = if ltb 1 (length path) then rstrip is_slash path else path

-- _normalize_folder_path
unfoldable pub normalize_folder_path : List ℕ → List ℕ
unfolding forward rooted trimmed starts_with
normalize_folder_path path =
    let given = forward path in if is_empty given then root else trimmed (rooted given)

-- _folder_path_matches
unfoldable pub folder_path_matches : List ℕ → List ℕ → Bool
unfolding normalize_folder_path starts_with
folder_path_matches selected item =
    let s = normalize_folder_path selected in
    let i = normalize_folder_path item in path_eq i s || starts_with (s ++ root) i
