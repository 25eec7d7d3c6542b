-- ===== src/Core/ScalarText/Laws.antt =====
-- Well-formed strings, splitting into scalars and joining again (trust-primitives.ts).
use mathlib.Core.List.{flatten, append_assoc}
use throughline.Prelude.{
  ◌≢◌, err, sym, ◌∙◌, ℕ, ◌+◌, ◌-◌, ◌≤◌, ◌<◌, ◌≡◌, refl, ap, ◌↔◌, true, false, List, [], ◌∷◌, ◌++◌,
  ok, err, All, All-take, All-drop, length-take, length-drop, take-add, drop-add, length, take,
  drop, JsString, arith,
}
use throughline.Core.ScalarText.{
  unicode_scalar_offset, is_lead, is_trail, is_unicode_scalar_string, array_from,
  unicode_scalar_length, join, slice, slice_unicode_scalar_span,
}

-- One scalar value: a unit that is no surrogate, or a lead with its trail.
abbrev pub IsScalar : JsString → Type 0
IsScalar [] = ⊥
IsScalar (u ∷ []) = (is_lead u ≡ false) × (is_trail u ≡ false)
IsScalar (u ∷ v ∷ []) = (is_lead u ≡ true) × (is_trail v ≡ true)
IsScalar (u ∷ v ∷ w ∷ s) = ⊥

pub join-array_from : (s : JsString) → join (array_from s) ≡ s
unfolding array_from join flatten
join-array_from [] = refl
join-array_from (u ∷ []) = refl
join-array_from (u ∷ v ∷ s) = ground (arith, join-array_from s, join-array_from (v ∷ s))

pub is_scalar→All : (s : JsString) → is_unicode_scalar_string s ≡ true → All IsScalar (array_from s)
unfolding array_from is_unicode_scalar_string
is_scalar→All [] h = tt
is_scalar→All (u ∷ []) h = ground arith
is_scalar→All (u ∷ v ∷ s) h = ground (arith, is_scalar→All s, is_scalar→All (v ∷ s))

pub IsScalar-of_All :
    (s : JsString) → All IsScalar (array_from s) → is_unicode_scalar_string s ≡ true
unfolding array_from is_unicode_scalar_string
IsScalar-of_All [] h = refl
IsScalar-of_All (u ∷ []) h = ground arith
IsScalar-of_All (u ∷ v ∷ s) h = ground (arith, IsScalar-of_All s, IsScalar-of_All (v ∷ s))

-- A scalar read off in front of a text is a scalar of its own.
pub array_from-scalar : (x s : JsString) → IsScalar x → array_from (x ++ s) ≡ x ∷ array_from s
unfolding array_from
array_from-scalar [] s h = absurd h
array_from-scalar (u ∷ []) [] h = refl
array_from-scalar (u ∷ []) (v ∷ s) h = ground arith
array_from-scalar (u ∷ v ∷ []) s h = ground arith
array_from-scalar (u ∷ v ∷ w ∷ x) s h = absurd h

pub array_from-join : (xs : List JsString) → All IsScalar xs → array_from (join xs) ≡ xs
unfolding join flatten
array_from-join [] h = unfold array_from in refl
array_from-join (x ∷ xs) (p, h) =
    array_from-scalar x (join xs) p ∙ ap (◌∷◌ x) (array_from-join xs h)

pub join-append : (xs ys : List JsString) → join (xs ++ ys) ≡ join xs ++ join ys
unfolding join flatten
join-append [] ys = refl
join-append (x ∷ xs) ys = simp (join-append xs ys, append_assoc)

pub join-cons : (x : JsString) (xs : List JsString) → join (x ∷ xs) ≡ x ++ join xs
unfolding join flatten
join-cons x xs = refl

pub slice_empty {ℓ} : {A : Type ℓ} (xs : List A) (a b : ℕ) → a ≡ b → slice xs a b ≡ []
slice_empty xs a b e = let z : b - a ≡ 0 = omega arith in ap (λ n. take n (drop a xs)) z

pub unicode_scalar_length_of_All :
    (s : JsString)
    → All IsScalar (array_from s)
    → unicode_scalar_length s ≡ ok (length (array_from s))
unfolding unicode_scalar_length
unicode_scalar_length_of_All s h = rw (IsScalar-of_All s h) refl

-- A slice between two positions of the scalars of a well-formed text.
pub slice_unicode_scalar_span_of :
    (text : JsString) (a b : ℕ)
    → is_unicode_scalar_string text ≡ true
    → a < b
    → b ≤ length (array_from text)
    → slice_unicode_scalar_span text a b ≡ ok (join (slice (array_from text) a b))
unfolding slice_unicode_scalar_span
slice_unicode_scalar_span_of text a b w p q = ground arith

pub slice_unicode_scalar_span_illformed :
    (text : JsString) (a b : ℕ)
    → is_unicode_scalar_string text ≡ false
    → slice_unicode_scalar_span text a b ≡ err unicode_scalar_offset
unfolding slice_unicode_scalar_span
slice_unicode_scalar_span_illformed text a b w = ground arith

pub array_from-pos : (s : JsString) → length s ≢ 0 → 0 < length (array_from s)
unfolding array_from
array_from-pos [] h = absurd (omega arith)
array_from-pos (u ∷ []) h = omega arith
array_from-pos (u ∷ v ∷ s) h = ground arith

pub slice_unicode_scalar_span-eq-ok :
    (text : JsString) (a b : ℕ) {s : JsString}
    → slice_unicode_scalar_span text a b ≡ ok s
    → (is_unicode_scalar_string text ≡ true)
      × (a < b)
      × (b ≤ length (array_from text))
      × (s ≡ join (slice (array_from text) a b))
unfolding slice_unicode_scalar_span
slice_unicode_scalar_span-eq-ok text a b h = ground arith

pub array_from-join-slice :
    (xs : List JsString) (a b : ℕ)
    → All IsScalar xs
    → array_from (join (slice xs a b)) ≡ slice xs a b
array_from-join-slice xs a b h =
    array_from-join (slice xs a b) (All-take IsScalar (b - a) _ (All-drop IsScalar a xs h))

pub length-slice {ℓ} :
    {A : Type ℓ} (xs : List A) (a b : ℕ) → b ≤ length xs → length (slice xs a b) ≡ b - a
length-slice xs a b h = omega (arith, length-take (b - a) (drop a xs), length-drop a xs)

pub unicode_scalar_length-join-slice :
    (xs : List JsString) (a b : ℕ)
    → All IsScalar xs
    → b ≤ length xs
    → unicode_scalar_length (join (slice xs a b)) ≡ ok (b - a)
unicode_scalar_length-join-slice xs a b h q =
    let e = array_from-join-slice xs a b h in
    let scalars : All IsScalar (array_from (join (slice xs a b))) =
      rw e (All-take IsScalar (b - a) _ (All-drop IsScalar a xs h)) in
    unicode_scalar_length_of_All _ scalars ∙ ap ok (ap length e ∙ length-slice xs a b q)

-- Slices that meet are one slice.
pub slice-append {ℓ} :
    {A : Type ℓ} (xs : List A) (a b c : ℕ)
    → a ≤ b
    → b ≤ c
    → slice xs a b ++ slice xs b c ≡ slice xs a c
slice-append xs a b c p q =
    let D = drop a xs in
    let to_b : b ≡ a + (b - a) = omega arith in
    let to_c : c - a ≡ (b - a) + (c - b) = omega arith in
    let rest : drop b xs ≡ drop (b - a) D = ap (λ n. drop n xs) to_b ∙ drop-add a (b - a) xs in
    ap (λ ys. take (b - a) D ++ take (c - b) ys) rest
    ∙ sym (ap (λ n. take n D) to_c ∙ take-add (b - a) (c - b) D)

-- A string passes `isUnicodeScalarString` exactly when it is a sequence of scalar values, each one
-- unit that is no surrogate or a lead and its trail, written one after the other; then
-- `Array.from` gives back that sequence.
pub is_unicode_scalar_string_iff :
    (s : JsString)
    → (is_unicode_scalar_string s ≡ true)
      ↔ ((xs : List JsString) × All IsScalar xs × (join xs ≡ s) × (array_from s ≡ xs))
is_unicode_scalar_string_iff s = (
  λ h. (array_from s, is_scalar→All s h, join-array_from s, refl),
  λ w. IsScalar-of_All s (rw w.3 w.1),
)

-- In a well-formed text a span `start < end ≤ length` is returned, has `end - start` scalars, and
-- joined to the span that begins at its end it is the span over both.
pub slice_unicode_scalar_span_lem :
    (text : JsString) (a b c : ℕ)
    → is_unicode_scalar_string text ≡ true
    → a < b
    → b < c
    → c ≤ length (array_from text)
    → (s : JsString) × (t : JsString) × (slice_unicode_scalar_span text a b ≡ ok s)
      × (slice_unicode_scalar_span text b c ≡ ok t)
      × (slice_unicode_scalar_span text a c ≡ ok (s ++ t))
      × (unicode_scalar_length s ≡ ok (b - a))
slice_unicode_scalar_span_lem text a b c w p q r = (
  join (slice xs a b),
  join (slice xs b c),
  slice_unicode_scalar_span_of text a b w p (omega arith),
  slice_unicode_scalar_span_of text b c w q r,
  slice_unicode_scalar_span_of text a c w (omega arith) r
      ∙ ap ok (
          ap join (sym (slice-append xs a b c (omega arith) (omega arith)))
          ∙ join-append (slice xs a b) (slice xs b c)),
  unicode_scalar_length-join-slice xs a b (is_scalar→All text w) (omega arith),
)
  where
    xs : List JsString
    xs = array_from text
