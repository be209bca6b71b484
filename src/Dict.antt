-- ===== src/Dict.antt =====
-- Python's `dict` with text keys: an association list in insertion order, one entry for a key.
pub mod Laws
use enterprise_vault_migrati.Prelude.{
  String, Option, none, some, Bool, true, false, List, [], ◌∷◌, ◌++◌, str_eq, if◌then◌else◌,
}

abbrev pub Dict {ℓ} : Type ℓ → Type ℓ
Dict V = List (String × V)

module _ {ℓ} {V : Type ℓ} where
  -- d.get(k)
  unfoldable pub get : String → Dict V → Option V
  get k [] = none
  get k ((j, v) ∷ d) = if str_eq j k then some v else get k d

  -- d[k] = v: a key that is there keeps its place
  unfoldable pub put : String → V → Dict V → Dict V
  put k v [] = (k, v) ∷ []
  put k v ((j, w) ∷ d) = if str_eq j k then (j, v) ∷ d else (j, w) ∷ put k v d

  -- d.pop(k, None)
  unfoldable pub remove : String → Dict V → Dict V
  remove k [] = []
  remove k ((j, w) ∷ d) = let rest = remove k d in if str_eq j k then rest else (j, w) ∷ rest

  -- k in d
  unfoldable pub has : String → Dict V → Bool
  has k [] = false
  has k ((j, w) ∷ d) = if str_eq j k then true else has k d

  -- dict(pairs): later pairs win
  unfoldable pub put_all : List (String × V) → Dict V → Dict V
  unfolding put
  put_all [] d = d
  put_all ((k, v) ∷ pairs) d = put_all pairs (put k v d)

  -- list(d.values())
  unfoldable pub values : Dict V → List V
  values [] = []
  values ((j, w) ∷ d) = w ∷ values d

  unfoldable pub keys : Dict V → List String
  keys [] = []
  keys ((j, w) ∷ d) = j ∷ keys d

module _ {ℓ} {V : Type ℓ} (eq : V → V → Bool) where
  unfoldable pub same_value : Option V → Option V → Bool
  same_value none none = true
  same_value (some v) (some w) = eq v w
  same_value _ _ = false

  unfoldable pub agree_on : List String → Dict V → Dict V → Bool
  unfolding same_value get
  agree_on [] c d = true
  agree_on (k ∷ ks) c d = if same_value (get k c) (get k d) then agree_on ks c d else false

  -- c == d: the same keys with equal values, in any order
  unfoldable pub dict_eq : Dict V → Dict V → Bool
  unfolding agree_on keys
  dict_eq c d = agree_on (keys c ++ keys d) c d
