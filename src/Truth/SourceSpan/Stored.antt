-- ===== src/Truth/SourceSpan/Stored.antt =====
-- The chunks that packages/content/src/source-text.ts makes, before the check of
-- packages/truth-ledger/src/source-span.ts.
use mathlib.Core.List.{Memᴰ}
use throughline.Prelude.{
  inl, inr, ℕ, ◌+◌, ◌-◌, ◌≤◌, ◌<◌, ◌≡◌, refl, Bool, true, false, ◌||◌, Option, none, some, List, [],
  ◌∷◌, ok, arith, length, if◌then◌else◌, JsString, str_eq, str_eq_iff, str_eq_refl, includes, All,
}
use throughline.Core.AccessClass.{AccessClass}
use throughline.Core.ScalarText.{array_from, join, slice}
use throughline.Core.ScalarText.Laws.{IsScalar, is_scalar→All, unicode_scalar_length-join-slice}
use throughline.Content.Chunking.{Chunk, source_chunk_max_scalars, chunk_normalized_source}
use throughline.Content.Chunking.Laws.{Cuts, chunk_normalized_source-Cuts, IsChunkable}
use throughline.Truth.Validation.{is_uuid_v7, scalar_length}
use throughline.Truth.SourceSpan.{
  Place, ChunkSnapshot, is_place, same_place, source_normalization_version, source_chunking_version,
}
use throughline.Truth.SourceSpan.Verify.{fits, verify_chunks}
use throughline.Truth.SourceSpan.Chunks.{verify_chunks-Selected}

-- A chunk as it is stored, under an identifier.
abbrev pub stored_chunk : Place → JsString → AccessClass → JsString → Chunk → ChunkSnapshot
stored_chunk place source_id access_class id chunk = record {
  id = id;
  place = place;
  source_artifact_id = source_id;
  version = 1;
  normalization_version = source_normalization_version;
  chunking_version = source_chunking_version;
  chunk_index = chunk.chunk_index;
  start_offset = chunk.start_offset;
  end_offset = chunk.end_offset;
  normalized_text = chunk.normalized_text;
  content_hash = chunk.content_hash;
  access_class = access_class;
}

abbrev pub stored_chunks :
    Place → JsString → AccessClass → List JsString → List Chunk → List ChunkSnapshot
stored_chunks place source_id access_class (id ∷ ids) (chunk ∷ chunks) =
    stored_chunk place source_id access_class id chunk
    ∷ stored_chunks place source_id access_class ids chunks
stored_chunks place source_id access_class _ _ = []

-- Version-7 UUIDs that differ from each other and from the ones seen before.
abbrev pub AreFresh : List JsString → List JsString → Type 0
AreFresh seen [] = Unit
AreFresh seen (id ∷ ids) =
    (is_uuid_v7 id ≡ true) × (includes seen id ≡ false) × AreFresh (id ∷ seen) ids

abbrev is_some : Option ChunkSnapshot → Bool
is_some none = false
is_some (some c) = true

module _ (sha256 : JsString → JsString) (place : Place) (source_id wanted : JsString)
    (access_class : AccessClass) (placed : is_place place ≡ true)
    (valid : is_uuid_v7 source_id ≡ true) where
  stored_chunk-fits :
      (seen : List JsString) (index start : ℕ) (id : JsString) (chunk : Chunk)
      → includes seen id ≡ false
      → chunk.chunk_index ≡ index
      → chunk.start_offset ≡ start
      → start < chunk.end_offset
      → chunk.end_offset ≤ start + source_chunk_max_scalars
      → chunk.content_hash ≡ sha256 chunk.normalized_text
      → fits sha256 place source_id seen index start
          (chunk.end_offset - start)
          (stored_chunk place source_id access_class id chunk)
        ≡ true
  unfolding fits same_place
  stored_chunk-fits seen index start id chunk new i s p q h = ground (
    arith,
    str_eq_refl place.tenant_id,
    str_eq_refl place.workspace_id,
    str_eq_refl place.space_id,
    str_eq_refl source_id,
    str_eq_refl source_normalization_version,
    str_eq_refl source_chunking_version,
    str_eq_iff (sha256 chunk.normalized_text) chunk.content_hash,
  )

  scalar_length-Cuts :
      (scalars : List JsString) (start : ℕ) (chunk : Chunk)
      → All IsScalar scalars
      → start < chunk.end_offset
      → chunk.end_offset ≤ length scalars
      → chunk.normalized_text ≡ join (slice scalars start chunk.end_offset)
      → scalar_length chunk.normalized_text ≡ ok (chunk.end_offset - start)
  unfolding scalar_length
  scalar_length-Cuts scalars start chunk w p q t =
      let n = unicode_scalar_length-join-slice scalars start chunk.end_offset w q in
      rw (t, scalar_length, n) refl

  kept :
      (id : JsString) (ids : List JsString) (selected : Option ChunkSnapshot) (c : ChunkSnapshot)
      → (is_some selected || includes (id ∷ ids) wanted) ≡ true
      → (is_some (if str_eq id wanted then some c else selected) || includes ids wanted) ≡ true
  unfolding includes
  kept id ids selected c h = ground (arith, h)

  -- The loop over the stored chunks of a cut returns a chunk, if one was selected before or one of
  -- the identifiers is the wanted one.
  verify_chunks-Cuts :
      (scalars seen ids : List JsString) (index start end : ℕ) (selected : Option ChunkSnapshot)
      (chunks : List Chunk)
      → All IsScalar scalars
      → Cuts sha256 scalars index start chunks end
      → AreFresh seen ids
      → length ids ≡ length chunks
      → (is_some selected || includes ids wanted) ≡ true
      → (c : ChunkSnapshot) × (verify_chunks sha256 place source_id wanted seen index start selected
            (stored_chunks place source_id access_class ids chunks)
          ≡ ok (some c))
  unfolding verify_chunks includes
  verify_chunks-Cuts scalars seen [] index start end none [] w cuts f l h = cc
  verify_chunks-Cuts scalars seen [] index start end (some c) [] w cuts f l h = (c, refl)
  verify_chunks-Cuts scalars seen [] index start end selected (chunk ∷ chunks) w cuts f l h =
      absurd (omega arith)
  verify_chunks-Cuts scalars seen (id ∷ ids) index start end selected [] w cuts f l h =
      absurd (omega arith)
  verify_chunks-Cuts scalars seen (id ∷ ids) index start end selected (chunk ∷ chunks) w
        (i, s, p, q, r, t, k, cuts) (u, new, f) l h =
      let c = stored_chunk place source_id access_class id chunk in
      let next = if str_eq id wanted then some c else selected in
      let (found, rest) =
        verify_chunks-Cuts scalars (id ∷ seen) ids (index + 1) chunk.end_offset end next chunks w
          cuts f (omega arith) (kept id ids selected c h) in
      (
        found,
        rw
            (
              scalar_length-Cuts scalars start chunk w p r t,
              u,
              placed,
              valid,
              stored_chunk-fits seen index start id chunk new i s p q k,
            )
            rest,
      )

-- The chunks that the chunker makes of a text pass the check of their loop, stored under distinct
-- version-7 UUIDs in a well-formed place; and for each of these identifiers the loop returns the
-- stored chunk that has it.
pub verify_chunks_stored :
    (sha256 : JsString → JsString) (text : JsString) (place : Place) (source_id wanted : JsString)
    (access_class : AccessClass) (ids : List JsString) (chunks : List Chunk)
    → IsChunkable sha256 text
    → chunk_normalized_source sha256 text ≡ some (ok chunks)
    → is_place place ≡ true
    → is_uuid_v7 source_id ≡ true
    → AreFresh [] ids
    → length ids ≡ length chunks
    → includes ids wanted ≡ true
    → (c : ChunkSnapshot) × Memᴰ c (stored_chunks place source_id access_class ids chunks)
      × (c.id ≡ wanted)
      × (verify_chunks sha256 place source_id wanted [] 0 0 none
            (stored_chunks place source_id access_class ids chunks)
          ≡ ok (some c))
verify_chunks_stored sha256 text place source_id wanted access_class ids chunks good made placed
      valid fresh l h =
    let (made_chunks, e, cuts, _) = chunk_normalized_source-Cuts sha256 text good in
    let same : made_chunks ≡ chunks = ground (arith, e, made) in
    let (c, found) =
      verify_chunks-Cuts sha256 place source_id wanted access_class placed valid (array_from text)
        [] ids 0 0 (length (array_from text)) none chunks (is_scalar→All text good.2)
        (rw same at cuts) fresh l h in
    elim (verify_chunks-Selected sha256 place source_id wanted [] 0 0 none
      (stored_chunks place source_id access_class ids chunks) c found) [
        | inl nothing ↦ cc
        | inr selected ↦ (c, selected.member, (str_eq_iff c.id wanted).0 selected.named, found)
      ]
