-- ===== src/Core/ScalarText.antt =====
-- packages/core-types/src/trust-primitives.ts: strings by Unicode scalar. A string is the list of its
-- UTF-16 code units, and `Array.from` splits it into strings of one or two units.
pub mod Laws
use mathlib.Core.List.{flatten}
use throughline.Prelude.{
  ℕ, ◌-◌, Bool, true, false, ◌&&◌, ◌||◌, not, List, [], ◌∷◌, Result, ok, err, ◌>>=◌, ◌>>◌, throw_if,
  leb, ltb, length, take, drop, JsString,
}

-- A code unit in 0xd800–0xdbff, and one in 0xdc00–0xdfff.
unfoldable pub is_lead : ℕ → Bool
is_lead u = leb 0xd800 u && leb u 0xdbff

unfoldable pub is_trail : ℕ → Bool
is_trail u = leb 0xdc00 u && leb u 0xdfff

unfoldable pub is_unicode_scalar_string : JsString → Bool
unfolding is_lead is_trail
is_unicode_scalar_string [] = true
is_unicode_scalar_string (u ∷ []) = not (is_lead u) && not (is_trail u)
is_unicode_scalar_string (u ∷ next ∷ s) = elim (is_lead u) [
  | true ↦ elim (is_trail next) [ true ↦ is_unicode_scalar_string s | false ↦ false ]
  | false ↦ elim (is_trail u) [ true ↦ false | false ↦ is_unicode_scalar_string (next ∷ s) ]
]

-- `Array.from(value)`
unfoldable pub array_from : JsString → List JsString
unfolding is_lead is_trail
array_from [] = []
array_from (u ∷ []) = (u ∷ []) ∷ []
array_from (u ∷ next ∷ s) = elim (is_lead u && is_trail next) [
  | true ↦ (u ∷ next ∷ []) ∷ array_from s
  | false ↦ (u ∷ []) ∷ array_from (next ∷ s)
]

pub data OffsetError : Type 0 where
  unicode_scalar_offset : OffsetError

unfoldable pub unicode_scalar_length : JsString → Result OffsetError ℕ
unicode_scalar_length value = do
  throw_if (not (is_unicode_scalar_string value)) unicode_scalar_offset
  ok (length (array_from value))

-- `scalars.join("")`
unfoldable pub join : List JsString → JsString
unfolding flatten
join scalars = flatten scalars

abbrev pub slice {ℓ} : {A : Type ℓ} → List A → ℕ → ℕ → List A
slice xs start end = take (end - start) (drop start xs)

-- Offsets are safe integers that are not negative: the parsers that hand them over check it.
unfoldable pub slice_unicode_scalar_span : JsString → ℕ → ℕ → Result OffsetError JsString
slice_unicode_scalar_span text start_offset end_offset = do
  throw_if (not (is_unicode_scalar_string text)) unicode_scalar_offset
  let scalars = array_from text
  throw_if (leb end_offset start_offset || ltb (length scalars) end_offset) unicode_scalar_offset
  ok (join (slice scalars start_offset end_offset))
