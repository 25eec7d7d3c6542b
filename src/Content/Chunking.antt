-- ===== src/Content/Chunking.antt =====
-- packages/content/src/source-text.ts: cutting a normalized source into chunks of at most 2000
-- scalars, and the check that the chunks give the source back. The SHA-256 of a string's UTF-8 bytes
-- is the parameter `sha256`; the version tags of a chunk, one constant each, are left out.
pub mod Boundary
pub mod Laws
use throughline.Prelude.{
  ℕ, zero, suc, ◌+◌, ◌-◌, ◌<◌, min, Bool, true, false, ◌&&◌, ◌||◌, not, Option, none, some, List,
  [], ◌∷◌, ◌++◌, Result, ok, err, ◌>>=◌, ◌>>◌, throw_if, leb, ltb, ◌==◌, length, get_elem?, any,
  if◌then◌else◌, JsString, str_eq,
}
use throughline.Core.Whitespace.{is_space}
use throughline.Core.ScalarText.{
  array_from, is_unicode_scalar_string, join, slice, slice_unicode_scalar_span,
}

-- SOURCE_CHUNK_MAX_SCALARS
abbrev pub source_chunk_max_scalars : ℕ
source_chunk_max_scalars = 2000

pub record Chunk : Type 0 where
  pub chunk_index : ℕ
  pub start_offset : ℕ
  pub end_offset : ℕ
  pub normalized_text : JsString
  pub content_hash : JsString

pub data ValidationError : Type 0 where
  invalid_source : ValidationError
  invalid_offsets : ValidationError
  reconstruction_failed : ValidationError
  not_lossless : ValidationError

-- `scalars[index] === "\n"`; reading out of range gives `undefined`.
unfoldable pub is_newline_at : List JsString → ℕ → Bool
unfolding str_eq
is_newline_at scalars index = elim (get_elem? scalars index) [
  | none ↦ false
  | some x ↦ str_eq x (10 ∷ [])
]

unfoldable pub is_space_at : List JsString → ℕ → Bool
unfolding is_space
is_space_at scalars index = elim (get_elem? scalars index) [ none ↦ false | some x ↦ is_space x ]

-- A loop `for (let index = start + rounds - 1; index >= start; index -= 1)` that returns `index + 1`
-- where the test holds.
unfoldable pub scan_down : (ℕ → Bool) → ℕ → ℕ → Option ℕ
scan_down test start zero = none
scan_down test start (suc rounds) = elim (test (start + rounds)) [
  | true ↦ some (start + rounds + 1)
  | false ↦ scan_down test start rounds
]

-- The three loops of `chooseBoundary`: a blank line, a line end, any white space.
unfoldable pub choose_boundary : List JsString → ℕ → ℕ → ℕ
choose_boundary scalars start maximum_end =
    elim (scan_down (λ i. is_newline_at scalars (i - 1) && is_newline_at scalars i) (start + 1)
      (maximum_end - 1 - start)) [
        | some e ↦ e
        | none ↦ elim (scan_down (is_newline_at scalars) start (maximum_end - start)) [
          | some e ↦ e
          | none ↦ elim (scan_down (is_space_at scalars) start (maximum_end - start)) [
            | some e ↦ e
            | none ↦ maximum_end
          ]
        ]
      ]

-- The end of the chunk that begins at `start_offset`.
unfoldable pub chunk_end : List JsString → ℕ → ℕ
chunk_end scalars start_offset =
    let maximum_end = min (start_offset + source_chunk_max_scalars) (length scalars) in
    if maximum_end == length scalars
    then maximum_end
    else choose_boundary scalars start_offset maximum_end

-- `chunks.map(({ normalizedText }) => normalizedText)`
unfoldable pub chunk_texts : List Chunk → List JsString
chunk_texts [] = []
chunk_texts (chunk ∷ chunks) = chunk.normalized_text ∷ chunk_texts chunks

module _ (sha256 : JsString → JsString) where
  unfoldable pub make_chunk : List JsString → ℕ → ℕ → ℕ → Chunk
  unfolding join
  make_chunk scalars index start end = record {
    chunk_index = index;
    start_offset = start;
    end_offset = end;
    normalized_text = join (slice scalars start end);
    content_hash = sha256 (join (slice scalars start end));
  }

  -- The `while` loop; `none` means that the fuel ran out.
  unfoldable pub chunk_from :
      ℕ → List JsString → ℕ → ℕ → Option (Result ValidationError (List Chunk))
  unfolding chunk_end make_chunk
  chunk_from zero scalars index start = none
  chunk_from (suc fuel) scalars index start = elim (ltb start (length scalars)) [
    | false ↦ some (ok [])
    | true ↦
        let end = chunk_end scalars start in
        elim (leb end start) [
          | true ↦ some (err invalid_source)
          | false ↦ elim (chunk_from fuel scalars (index + 1) end) [
            | none ↦ none
            | some rest ↦ some do chunks ← rest; ok (make_chunk scalars index start end ∷ chunks)
          ]
        ]
  ]

  -- `sliceByScalarOffsets`
  unfoldable pub slice_by_scalar_offsets : JsString → ℕ → ℕ → Result ValidationError JsString
  unfolding slice_unicode_scalar_span
  slice_by_scalar_offsets text start end = elim (slice_unicode_scalar_span text start end) [
    | ok s ↦ ok s
    | err e ↦ err invalid_offsets
  ]

  -- The loop of `assertChunkReconstruction`: the end of the last chunk.
  unfoldable pub check_chunks : JsString → ℕ → ℕ → List Chunk → Result ValidationError ℕ
  check_chunks text index expected_start [] = ok expected_start
  check_chunks text index expected_start (chunk ∷ chunks) = do
    throw_if
        (not (chunk.chunk_index == index)
          || not (chunk.start_offset == expected_start)
          || leb chunk.end_offset chunk.start_offset)
        reconstruction_failed
    s ← slice_by_scalar_offsets text chunk.start_offset chunk.end_offset
    throw_if
        (not (str_eq s chunk.normalized_text)
          || not (str_eq (sha256 chunk.normalized_text) chunk.content_hash))
        reconstruction_failed
    check_chunks text (index + 1) chunk.end_offset chunks

  unfoldable pub assert_chunk_reconstruction :
      JsString → List Chunk → Result ValidationError (Unit {0})
  assert_chunk_reconstruction text chunks = do
    expected_start ← check_chunks text 0 0 chunks
    throw_if (not (expected_start == length (array_from text))) not_lossless
    let reconstructed = join (chunk_texts chunks)
    throw_if (not (str_eq reconstructed text) || not (str_eq (sha256 reconstructed) (sha256 text)))
        not_lossless

  -- With one unit of fuel for each scalar and one more.
  unfoldable pub chunk_normalized_source : JsString → Option (Result ValidationError (List Chunk))
  chunk_normalized_source text =
      let loop = chunk_from (length (array_from text) + 1) (array_from text) 0 0 in
      if length text == 0 || any (λ u. u == 0) text then some (err invalid_source) else elim loop [
        | none ↦ none
        | some result ↦ some do chunks ← result; assert_chunk_reconstruction text chunks; ok chunks
      ]
