-- ===== src/Prelude/Texts.antt =====
-- Texts compared whole, lists and sets of texts.
use Prim.Native.String.{String}
use text.Mathlib.Text.{◌==◌ as text_eq}
use text.Mathlib.TextEquality.{eq_iff}
use mathlib.Core.Path.{◌≡◌, refl}
use mathlib.Core.Logic.{◌↔◌, ◌≢◌}
use mathlib.Core.Bool.{Bool, true, false}
use mathlib.Core.Option.{Option, none, some}
use mathlib.Core.List.{List, [], ◌∷◌, ◌++◌}
use native.Mathlib.Omega.{arith}
use enterprise_vault_migrati.Prelude.Tests.{if◌then◌else◌}

-- `a == b` on `str`
abbrev pub str_eq : String → String → Bool
str_eq = text_eq

pub str_eq_iff : (a b : String) → (str_eq a b ≡ true) ↔ (a ≡ b)
str_eq_iff = eq_iff

pub str_eq_refl : (a : String) → str_eq a a ≡ true
str_eq_refl a = (eq_iff a a).1 refl

-- `text or default`: None and the empty text give way
abbrev pub or_text : Option String → String → String
or_text none d = d
or_text (some s) d = if str_eq s "" then d else s

-- `a in xs`, for a tuple, a list or a set of texts
abbrev pub text_in : String → List String → Bool
text_in a [] = false
text_in a (x ∷ xs) = if str_eq x a then true else text_in a xs

pub text_in-append :
    (a : String) (xs ys : List String)
    → text_in a (xs ++ ys) ≡ (if text_in a xs then true else text_in a ys)
text_in-append a [] ys = refl
text_in-append a (x ∷ xs) ys = ground (arith, text_in-append a xs ys)

pub str_eq-false : (a b : String) → str_eq a b ≡ false → a ≢ b
str_eq-false a b h e = ground (arith, str_eq_iff a b)

-- No text stands in the list twice.
abbrev pub AllDistinct : List String → Type 0
AllDistinct [] = Unit
AllDistinct (x ∷ xs) = (text_in x xs ≡ false) × AllDistinct xs
