-- ===== src/Prelude/Text.antt =====
-- Strings of the source as lists of UTF-16 code units, with the tests that the source makes on them.
use Prim.Native.Nat.{ℕ}
use Prim.Native.Char.{code}
use Prim.Native.String.{String}
use mathlib.Core.Path.{◌≡◌, refl}
use mathlib.Core.Logic.{◌↔◌}
use mathlib.Core.Bool.{Bool, true, false, ◌&&◌, ◌||◌}
use mathlib.Core.List.{List, [], ◌∷◌}
use native.Mathlib.Omega.{arith}
use throughline.Prelude.Tests.{◌==◌}

abbrev pub JsString : Type 0
JsString = List ℕ

-- The code units of a text; the constants and tests of the development are ASCII.
abbrev pub units : String → JsString
units String.[] = []
units (String.◌∷◌ c s) = code c ∷ units s

-- `===` on strings
unfoldable pub str_eq : JsString → JsString → Bool
str_eq [] [] = true
str_eq (a ∷ s) (b ∷ t) = a == b && str_eq s t
str_eq _ _ = false

str_eq_sound : (s t : JsString) → str_eq s t ≡ true → s ≡ t
unfolding str_eq
str_eq_sound [] [] h = refl
str_eq_sound [] (b ∷ t) h = cc
str_eq_sound (a ∷ s) [] h = cc
str_eq_sound (a ∷ s) (b ∷ t) h = ground (arith, str_eq_sound s t)

pub str_eq_refl : (s : JsString) → str_eq s s ≡ true
unfolding str_eq
str_eq_refl [] = refl
str_eq_refl (a ∷ s) = ground (arith, str_eq_refl s)

pub str_eq_iff : (s t : JsString) → (str_eq s t ≡ true) ↔ (s ≡ t)
str_eq_iff s t = (str_eq_sound s t, λ e. rw e (str_eq_refl t))

-- `list.includes(s)`, `set.has(s)`
unfoldable pub includes : List JsString → JsString → Bool
includes [] s = false
includes (t ∷ ts) s = str_eq t s || includes ts s
