-- ===== src/Content/Chunking/Laws.antt =====
-- The chunks of a normalized source (packages/content/src/source-text.ts).
use throughline.Prelude.{
  ℕ, zero, suc, ◌+◌, ◌-◌, ◌≤◌, ◌<◌, ◌≡◌, refl, sym, ap, ◌∙◌, ◌≡⟨◌⟩◌, ◌∎, take_all, ◌≢◌, ◌==◌, inl,
  inr, true, false, ◌||◌, some, List, [], ◌∷◌, ◌++◌, ok, err, length, any, arith, JsString,
  str_eq_iff, Bool-cases, ltb,
}
use throughline.Core.ScalarText.{array_from, is_unicode_scalar_string, join, slice}
use throughline.Core.ScalarText.Laws.{
  slice_unicode_scalar_span_illformed, array_from-pos, slice_unicode_scalar_span_of, slice-append,
  join-append, join-cons, slice_empty, join-array_from,
}
use throughline.Content.Chunking.{
  ValidationError, invalid_source, invalid_offsets, Chunk, source_chunk_max_scalars, chunk_end,
  make_chunk, chunk_from, slice_by_scalar_offsets, check_chunks, chunk_texts,
  assert_chunk_reconstruction, chunk_normalized_source,
}
use throughline.Content.Chunking.Boundary.{chunk_end_bounds}

-- The chunks cut `scalars` from `start` to `end`, one after the other, with running indices, each
-- with one to 2000 scalars, its text and its hash.
module _ (sha256 : JsString → JsString) where
  abbrev pub Cuts : List JsString → ℕ → ℕ → List Chunk → ℕ → Type 0
  Cuts scalars index start [] end = start ≡ end
  Cuts scalars index start (chunk ∷ chunks) end =
      (chunk.chunk_index ≡ index)
      × (chunk.start_offset ≡ start)
      × (start < chunk.end_offset)
      × (chunk.end_offset ≤ start + source_chunk_max_scalars)
      × (chunk.end_offset ≤ length scalars)
      × (chunk.normalized_text ≡ join (slice scalars start chunk.end_offset))
      × (chunk.content_hash ≡ sha256 chunk.normalized_text)
      × Cuts scalars (index + 1) chunk.end_offset chunks end

  -- The loop, given a unit of fuel for each scalar that is left, cuts the rest of the text.
  pub chunk_from-Cuts :
      (fuel : ℕ) (scalars : List JsString) (index start : ℕ)
      → start ≤ length scalars
      → length scalars < start + fuel
      → (chunks : List Chunk) × (chunk_from sha256 fuel scalars index start ≡ some (ok chunks))
        × Cuts scalars index start chunks (length scalars)
  unfolding chunk_from make_chunk
  chunk_from-Cuts zero scalars index start p q = absurd (omega arith)
  chunk_from-Cuts (suc fuel) scalars index start p q =
      elim (Bool-cases (ltb start (length scalars))) [
        | inr done ↦ ([], rw (done, chunk_from) refl, ground arith)
        | inl more ↦
            let bounds = chunk_end_bounds scalars start (ground arith) in
            let (rest, e, cuts) =
              chunk_from-Cuts fuel scalars (index + 1) (chunk_end scalars start) (omega arith)
                (omega arith) in
            (
              make_chunk sha256 scalars index start (chunk_end scalars start) ∷ rest,
              ground (arith, bounds, e),
              (refl, refl, bounds.0, bounds.2, bounds.1, refl, refl, cuts),
            )
      ]

  -- The check follows a cut of a well-formed text to its end.
  pub check_chunks-Cuts :
      (text : JsString) (index start end : ℕ) (chunks : List Chunk)
      → is_unicode_scalar_string text ≡ true
      → Cuts (array_from text) index start chunks end
      → check_chunks sha256 text index start chunks ≡ ok end
  unfolding check_chunks slice_by_scalar_offsets
  check_chunks-Cuts text index start end [] w c = ap ok c
  check_chunks-Cuts text index start end (chunk ∷ chunks) w (i, s, p, q, r, t, h, c) =
      let cut = slice_unicode_scalar_span_of text start chunk.end_offset w p r in
      let rest = check_chunks-Cuts text (index + 1) chunk.end_offset end chunks w c in
      ground (
        arith,
        cut,
        rest,
        str_eq_iff (join (slice (array_from text) start chunk.end_offset)) chunk.normalized_text,
        str_eq_iff (sha256 chunk.normalized_text) chunk.content_hash,
      )

  Cuts-le :
      (scalars : List JsString) (index start end : ℕ) (chunks : List Chunk)
      → Cuts scalars index start chunks end
      → start ≤ end
  Cuts-le scalars index start end [] c = omega arith
  Cuts-le scalars index start end (chunk ∷ chunks) c =
      omega (arith, c.2, Cuts-le scalars (index + 1) chunk.end_offset end chunks c.7)

  -- The texts of a cut, one after the other, are the text that it cuts.
  pub chunk_texts-Cuts :
      (scalars : List JsString) (index start end : ℕ) (chunks : List Chunk)
      → Cuts scalars index start chunks end
      → join (chunk_texts chunks) ≡ join (slice scalars start end)
  unfolding chunk_texts
  chunk_texts-Cuts scalars index start end [] c = sym (ap join (slice_empty scalars start end c))
  chunk_texts-Cuts scalars index start end (chunk ∷ chunks) (i, s, p, q, r, t, h, c) =
      let e = chunk.end_offset in
      let ends = Cuts-le scalars (index + 1) e end chunks c in
      join (chunk.normalized_text ∷ chunk_texts chunks)
      ≡⟨ join-cons chunk.normalized_text (chunk_texts chunks) ⟩
        chunk.normalized_text ++ join (chunk_texts chunks)
      ≡⟨ ap (λ x. x ++ join (chunk_texts chunks)) t ⟩
        join (slice scalars start e) ++ join (chunk_texts chunks)
      ≡⟨ ap (λ x. join (slice scalars start e) ++ x)
          (chunk_texts-Cuts scalars (index + 1) e end chunks c) ⟩
        join (slice scalars start e) ++ join (slice scalars e end)
      ≡⟨ sym (join-append (slice scalars start e) (slice scalars e end)) ⟩
        join (slice scalars start e ++ slice scalars e end)
      ≡⟨ ap join (slice-append scalars start e end (omega arith) ends) ⟩
        join (slice scalars start end) ∎

  slice_whole {ℓ} : {A : Type ℓ} (xs : List A) → slice xs 0 (length xs) ≡ xs
  slice_whole xs = take_all (length xs - 0) xs (omega arith)

  -- What `chunkNormalizedSource` asks of a text before it cuts it.
  abbrev pub IsChunkable : JsString → Type 0
  IsChunkable text =
      (length text ≢ 0) × (any (λ u. u == 0) text ≡ false) × (is_unicode_scalar_string text ≡ true)

  -- A text that is not empty, holds no NUL and is well-formed is cut into chunks: the result passes
  -- the code's own reconstruction check, the fuel suffices, the chunks cover the scalars of the
  -- text from the first to the last without gap or overlap, each of 1 to 2000 scalars with its
  -- running index, text and hash, and their texts joined are the text.
  pub chunk_normalized_source-Cuts :
      (text : JsString)
      → IsChunkable text
      → (chunks : List Chunk) × (chunk_normalized_source sha256 text ≡ some (ok chunks))
        × Cuts (array_from text) 0 0 chunks (length (array_from text))
        × (join (chunk_texts chunks) ≡ text)
  unfolding chunk_normalized_source assert_chunk_reconstruction
  chunk_normalized_source-Cuts text (p, q, w) =
      let (chunks, e, cuts) =
        chunk_from-Cuts (length (array_from text) + 1) (array_from text) 0 0 (omega arith)
          (omega arith) in
      let whole : join (chunk_texts chunks) ≡ text =
        chunk_texts-Cuts (array_from text) 0 0 (length (array_from text)) chunks cuts
        ∙ ap join (slice_whole (array_from text))
        ∙ join-array_from text in
      let checked = check_chunks-Cuts text 0 0 (length (array_from text)) chunks w cuts in
      (
        chunks,
        ground (
          arith,
          whole,
          checked,
          e,
          str_eq_iff (join (chunk_texts chunks)) text,
          str_eq_iff (sha256 (join (chunk_texts chunks))) (sha256 text),
        ),
        cuts,
        whole,
      )

  check_chunks-illformed :
      (text : JsString) (index start end : ℕ) (chunks : List Chunk)
      → is_unicode_scalar_string text ≡ false
      → start < end
      → Cuts (array_from text) index start chunks end
      → check_chunks sha256 text index start chunks ≡ err invalid_offsets
  unfolding check_chunks slice_by_scalar_offsets
  check_chunks-illformed text index start end [] w l c = absurd (omega arith)
  check_chunks-illformed text index start end (chunk ∷ chunks) w l (i, s, p, q, r, t, h, c) =
      ground (arith, slice_unicode_scalar_span_illformed text start chunk.end_offset w)

  -- Every other text is refused: the loop still ends, and the outcome is a validation error.
  pub chunk_normalized_source_refuses :
      (text : JsString)
      → ¬ (IsChunkable text)
      → (e : ValidationError) × (chunk_normalized_source sha256 text ≡ some (err e))
  unfolding chunk_normalized_source assert_chunk_reconstruction
  chunk_normalized_source_refuses text bad =
      elim (Bool-cases (length text == 0 || any (λ u. u == 0) text)) [
        | inl empty ↦ (invalid_source, rw (empty, chunk_normalized_source) refl)
        | inr full ↦
            let (chunks, e, cuts) =
              chunk_from-Cuts (length (array_from text) + 1) (array_from text) 0 0 (omega arith)
                (omega arith) in
            let illformed : is_unicode_scalar_string text ≡ false =
              elim (Bool-cases (is_unicode_scalar_string text)) [
                | inl w ↦ absurd (bad (ground arith))
                | inr w ↦ w
              ] in
            let refused =
              check_chunks-illformed text 0 0 (length (array_from text)) chunks illformed
                (array_from-pos text (ground arith)) cuts in
            (invalid_offsets, ground (arith, full, refused, e))
      ]
