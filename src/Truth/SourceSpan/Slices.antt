-- ===== src/Truth/SourceSpan/Slices.antt =====
-- A span of a chunk as a span of the whole text (source-span.ts).
use throughline.Prelude.{
  ℕ, zero, suc, ◌+◌, ◌-◌, ◌≤◌, ◌≡◌, refl, sym, ap, ◌∙◌, true, List, [], ◌∷◌, ◌++◌, ok, arith,
  length, length-append, take, drop, drop-add, length-drop, JsString,
}
use throughline.Core.ScalarText.{
  array_from, join, slice, is_unicode_scalar_string, slice_unicode_scalar_span,
}
use throughline.Core.ScalarText.Laws.{slice_unicode_scalar_span-eq-ok, slice_unicode_scalar_span_of}
use throughline.Truth.SourceSpan.{ChunkSnapshot, texts_of}
use throughline.Truth.SourceSpan.Chunks.{Located}

drop-prefix {ℓ} : {A : Type ℓ} (before xs : List A) → drop (length before) (before ++ xs) ≡ xs
drop-prefix [] xs = refl
drop-prefix (x ∷ before) xs = drop-prefix before xs

drop-suffix {ℓ} :
    {A : Type ℓ} (n : ℕ) (xs after : List A)
    → n ≤ length xs
    → drop n (xs ++ after) ≡ drop n xs ++ after
drop-suffix zero xs after h = refl
drop-suffix (suc n) [] after h = absurd (omega arith)
drop-suffix (suc n) (x ∷ xs) after h = drop-suffix n xs after (omega arith)

take-suffix {ℓ} :
    {A : Type ℓ} (n : ℕ) (xs after : List A) → n ≤ length xs → take n (xs ++ after) ≡ take n xs
take-suffix zero xs after h = refl
take-suffix (suc n) [] after h = absurd (omega arith)
take-suffix (suc n) (x ∷ xs) after h = ap (◌∷◌ x) (take-suffix n xs after (omega arith))

-- A slice of a list inside another one.
slice-inside {ℓ} :
    {A : Type ℓ} (before xs after : List A) (a b : ℕ)
    → a ≤ b
    → b ≤ length xs
    → slice (before ++ (xs ++ after)) (length before + a) (length before + b) ≡ slice xs a b
slice-inside before xs after a b p q =
    let width : length before + b - (length before + a) ≡ b - a = omega arith in
    let fits : b - a ≤ length (drop a xs) = omega (arith, length-drop a xs) in
    ap (λ n. take n (drop (length before + a) (before ++ (xs ++ after)))) width
    ∙ ap (take (b - a)) (
        drop-add (length before) a (before ++ (xs ++ after))
        ∙ ap (drop a) (drop-prefix before (xs ++ after))
        ∙ drop-suffix a xs after (omega arith))
    ∙ take-suffix (b - a) (drop a xs) after fits

-- A span of a located chunk is a span of the whole text.
pub Located-span :
    (text : JsString) (cs : List ChunkSnapshot) (c : ChunkSnapshot) (a b : ℕ) (excerpt : JsString)
    → is_unicode_scalar_string text ≡ true
    → text ≡ join (texts_of cs)
    → Located 0 cs c
    → slice_unicode_scalar_span c.normalized_text a b ≡ ok excerpt
    → slice_unicode_scalar_span text (c.start_offset + a) (c.start_offset + b) ≡ ok excerpt
Located-span text cs c a b excerpt w same l h =
    let (_, p, q, e) = slice_unicode_scalar_span-eq-ok c.normalized_text a b h in
    let xs = array_from c.normalized_text in
    let whole : array_from text ≡ l.before ++ (xs ++ l.after) = ap array_from same ∙ l.splits in
    let start : c.start_offset ≡ length l.before = omega (arith, l.offset) in
    let size : length (array_from text) ≡ length l.before + (length xs + length l.after) =
      ap length whole
      ∙ length-append l.before (xs ++ l.after)
      ∙ ap (λ n. length l.before + n) (length-append xs l.after) in
    slice_unicode_scalar_span_of text (c.start_offset + a) (c.start_offset + b) w (omega arith)
      (omega (arith, size, start, q))
    ∙ ap ok (
        ap join (
          ap (λ n. slice (array_from text) (n + a) (n + b)) start
          ∙ ap (λ ys. slice ys (length l.before + a) (length l.before + b)) whole
          ∙ slice-inside l.before xs l.after a b (omega (arith, p)) q)
        ∙ sym e)
