-- ===== src/Core/Whitespace.antt =====
-- White space and control characters, as the source's string methods and regular expressions of
-- packages/core-types, packages/content and packages/truth-ledger read them.
pub mod Laws
use throughline.Prelude.{
  ℕ, ◌+◌, ◌-◌, ◌*◌, Bool, false, ◌&&◌, ◌||◌, not, [], ◌∷◌, leb, ltb, ◌==◌, JsString, if◌then◌else◌,
}

-- The code units that `\s` matches and `trim` removes, all of them in the basic plane.
unfoldable pub is_space_unit : ℕ → Bool
is_space_unit u =
    (leb 9 u && leb u 13)
    || u == 32
    || u == 0xa0
    || u == 0x1680
    || (leb 0x2000 u && leb u 0x200a)
    || u == 0x2028
    || u == 0x2029
    || u == 0x202f
    || u == 0x205f
    || u == 0x3000
    || u == 0xfeff

-- `/^\s$/u.test(x)`
unfoldable pub is_space : JsString → Bool
unfolding is_space_unit
is_space (u ∷ []) = is_space_unit u
is_space _ = false

trim_start : JsString → JsString
unfolding is_space_unit
trim_start [] = []
trim_start (u ∷ s) = if is_space_unit u then trim_start s else u ∷ s

trim_end : JsString → JsString
unfolding is_space_unit
trim_end [] = []
trim_end (u ∷ s) = elim (trim_end s) [
  | [] ↦ if is_space_unit u then [] else u ∷ []
  | v ∷ t ↦ u ∷ v ∷ t
]

-- `input.trim()`
unfoldable pub trim : JsString → JsString
unfolding trim_start trim_end
trim s = trim_end (trim_start s)

-- `character.codePointAt(0)!` of a string that `Array.from` gives.
unfoldable pub code_point : JsString → ℕ
code_point [] = 0
code_point (u ∷ []) = u
code_point (u ∷ v ∷ s) =
    if leb 0xd800 u && leb u 0xdbff && leb 0xdc00 v && leb v 0xdfff
    then (u - 0xd800) * 0x400 + (v - 0xdc00) + 0x10000
    else u

-- A control character other than tab and line feed, or DEL.
unfoldable pub is_refused_control : JsString → Bool
unfolding code_point
is_refused_control character =
    ltb (code_point character) 32
      && not (code_point character == 9)
      && not (code_point character == 10)
    || code_point character == 127
