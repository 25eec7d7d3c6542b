-- ===== src/Truth/SourceSpan/Tests.antt =====
-- A claim on a stored note, and the theorems at it.
use mathlib.Core.List.{flatten, Memᴰ}
use throughline.Prelude.{
  ◌≡◌, refl, true, none, some, [], ◌∷◌, ok, JsString, units, length, str_eq, includes, arith,
}
use throughline.Core.AccessClass.{AccessClass}
use throughline.Core.ScalarText.{
  array_from, join, is_unicode_scalar_string, is_lead, is_trail, slice_unicode_scalar_span,
}
use throughline.Content.Chunking.{
  Chunk, chunk_normalized_source, chunk_from, chunk_end, make_chunk, slice_by_scalar_offsets,
  check_chunks, assert_chunk_reconstruction, chunk_texts,
}
use throughline.Content.Chunking.Laws.{IsChunkable}
use throughline.Truth.Validation.{is_uuid_v7, is_uuid_reference}
use throughline.Truth.SourceSpan.{
  AuthorizedScope, Place, ChunkSnapshot, EvidenceSnapshot, SubjectRef, SubjectType, SpanCandidate,
  VerifiedSpan, is_place,
}
use throughline.Truth.SourceSpan.Verify.{verify_chunks}
use throughline.Truth.SourceSpan.Stored.{
  stored_chunk, stored_chunks, AreFresh, verify_chunks_stored,
}

abbrev toy_hash : JsString → JsString
toy_hash s = length s ∷ []

abbrev toy_nfc : JsString → JsString
toy_nfc s = s

abbrev note : JsString
note = units "Maya: five days."

abbrev tenant : JsString
tenant = units "11111111-1111-4111-8111-111111111111"

abbrev uuid : JsString
uuid = units "01900000-0000-7000-8000-000000000001"

abbrev place : Place
place = record { tenant_id = tenant; workspace_id = tenant; space_id = tenant }

abbrev note_chunk : Chunk
note_chunk = record {
  chunk_index = 0;
  start_offset = 0;
  end_offset = 16;
  normalized_text = note;
  content_hash = 16 ∷ [];
}

note_chunks : chunk_normalized_source toy_hash note ≡ some (ok (note_chunk ∷ []))
unfolding chunk_normalized_source chunk_from chunk_end make_chunk slice_by_scalar_offsets
    check_chunks assert_chunk_reconstruction chunk_texts array_from is_lead is_trail join flatten
    str_eq slice_unicode_scalar_span is_unicode_scalar_string
note_chunks = refl

note-IsChunkable : IsChunkable toy_hash note
unfolding is_unicode_scalar_string
note-IsChunkable = (omega arith, refl, refl)

place_valid : is_place place ≡ true
unfolding is_place is_uuid_reference
place_valid = refl

uuid_valid : is_uuid_v7 uuid ≡ true
unfolding is_uuid_v7
uuid_valid = refl

uuid_fresh : AreFresh [] (uuid ∷ [])
unfolding includes
uuid_fresh = (uuid_valid, refl, tt)

uuid_included : includes (uuid ∷ []) uuid ≡ true
unfolding includes str_eq
uuid_included = refl

verify_chunks_stored_example :
    (c : ChunkSnapshot) × Memᴰ c
      (stored_chunks place uuid AccessClass.workspace (uuid ∷ []) (note_chunk ∷ []))
    × (c.id ≡ uuid)
    × (verify_chunks toy_hash place uuid uuid [] 0 0 none
          (stored_chunks place uuid AccessClass.workspace (uuid ∷ []) (note_chunk ∷ []))
        ≡ ok (some c))
verify_chunks_stored_example =
    verify_chunks_stored toy_hash note place uuid uuid AccessClass.workspace (uuid ∷ [])
      (note_chunk ∷ []) note-IsChunkable note_chunks place_valid uuid_valid uuid_fresh refl
      uuid_included

abbrev evidence : EvidenceSnapshot
evidence = record {
  place = place;
  subject = record {
    type = SubjectType.activity;
    id = uuid;
    place = place;
    version = 3;
    access_class = AccessClass.restricted;
  };
  link = record {
    place = place;
    source_artifact_id = uuid;
    activity_id = uuid;
    governing_initiative_id = none;
  };
  source = record {
    id = uuid;
    place = place;
    version = 2;
    immutable_text = some note;
    content_hash = some (16 ∷ []);
    normalized_content_hash = some (16 ∷ []);
    normalization_version = units "source-normalization.v1";
    chunking_version = units "source-chunking.v1";
    access_class = AccessClass.workspace;
    deleted_at = none;
    successor_source_artifact_id = none;
  };
  chunks = stored_chunk place uuid AccessClass.workspace uuid note_chunk ∷ [];
  explicit_policy_access_class = AccessClass.public;
}

abbrev scope : AuthorizedScope
scope = record { tenant_id = tenant; workspace_id = tenant }

abbrev subject : SubjectRef
subject = record { type = SubjectType.activity; id = uuid; expected_version = 3 }

abbrev candidate : SpanCandidate
candidate = record {
  source_artifact_id = uuid;
  source_chunk_id = uuid;
  expected_source_version = 2;
  expected_chunk_version = 1;
  normalization_version = units "source-normalization.v1";
  chunking_version = units "source-chunking.v1";
  start_offset = 6;
  end_offset = 10;
  excerpt = units "five";
  source_content_hash = 16 ∷ [];
  source_normalized_content_hash = 16 ∷ [];
  chunk_content_hash = 16 ∷ [];
  excerpt_hash = 4 ∷ [];
}

abbrev span : VerifiedSpan
span = record {
  subject = subject;
  place = place;
  source_artifact_id = uuid;
  source_chunk_id = uuid;
  source_version = 2;
  chunk_version = 1;
  start_offset = 6;
  end_offset = 10;
  excerpt = units "five";
  source_content_hash = 16 ∷ [];
  source_normalized_content_hash = 16 ∷ [];
  chunk_content_hash = 16 ∷ [];
  excerpt_hash = 4 ∷ [];
  effective_access_class = AccessClass.restricted;
}
