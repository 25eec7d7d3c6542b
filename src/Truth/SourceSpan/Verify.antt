-- ===== src/Truth/SourceSpan/Verify.antt =====
-- packages/truth-ledger/src/source-span.ts: `verifySnapshot` and the part of `admit` that follows the
-- parsing of its input. The lookup of the snapshot is a parameter.
use throughline.Prelude.{
  ℕ, ◌+◌, Bool, ◌&&◌, ◌||◌, not, Option, none, some, List, [], ◌∷◌, Result, ok, err, ◌>>=◌, ◌>>◌,
  throw_if, leb, ltb, ◌==◌, if◌then◌else◌, JsString, str_eq, includes,
}
use throughline.Core.AccessClass.{AccessClass, max_access_class}
use throughline.Core.ScalarText.{join, slice_unicode_scalar_span}
use throughline.Core.StoredText.{normalize_stored_source_text}
use throughline.Content.Chunking.{source_chunk_max_scalars}
use throughline.Truth.Validation.{
  Fault, contract, scalar_offset, source_text, source_span, is_uuid_v7, is_uuid_reference,
  scalar_length,
}
use throughline.Truth.SourceSpan.{
  AuthorizedScope, Place, ChunkSnapshot, EvidenceSnapshot, SourceSnapshot, SubjectRef, SubjectType,
  SpanCandidate, VerifiedSpan, same_place, is_place, is_well_formed, is_bound, sort_chunks,
  texts_of, source_normalization_version, source_chunking_version,
}

-- `if (value === null) throw`, and `if (!selected) throw`
abbrev pub required {ℓ} : {A : Type ℓ} → Option A → Result Fault A
required none = err source_span
required (some a) = ok a

module _ (sha256 : JsString → JsString) where
  -- The condition on one chunk of the loop, negated.
  unfoldable pub fits : Place → JsString → (seen : List JsString) → ℕ → ℕ → ℕ → ChunkSnapshot → Bool
  unfolding same_place includes
  fits place source_id seen index start scalars c =
      not (includes seen c.id)
      && same_place c.place place
      && str_eq c.source_artifact_id source_id
      && c.version == 1
      && str_eq c.normalization_version source_normalization_version
      && str_eq c.chunking_version source_chunking_version
      && c.chunk_index == index
      && c.start_offset == start
      && c.end_offset == c.start_offset + scalars
      && leb 1 scalars
      && leb scalars source_chunk_max_scalars
      && str_eq (sha256 c.normalized_text) c.content_hash

  -- The loop over the sorted chunks: the last one with the wanted identifier.
  unfoldable pub verify_chunks :
      Place
      → (source_id wanted : JsString) → (seen : List JsString) → ℕ
      → ℕ
      → Option ChunkSnapshot
      → List ChunkSnapshot
      → Result Fault (Option ChunkSnapshot)
  unfolding fits is_place
  verify_chunks place source_id wanted seen index start selected [] = ok selected
  verify_chunks place source_id wanted seen index start selected (c ∷ cs) = do
    scalars ← scalar_length c.normalized_text
    throw_if (not (is_uuid_v7 c.id && is_place c.place && is_uuid_v7 c.source_artifact_id)) contract
    throw_if (not (fits place source_id seen index start scalars c)) source_span
    verify_chunks place source_id wanted (c.id ∷ seen) (index + 1) c.end_offset
        (if str_eq c.id wanted then some c else selected) cs

  -- The condition of the last rejection, negated, but for the length of the excerpt.
  unfoldable pub hashes_match :
      SpanCandidate
      → ChunkSnapshot
      → (content_hash normalized_content_hash raw normalized excerpt : JsString) → Bool
  hashes_match candidate c content_hash normalized_content_hash raw normalized excerpt =
      candidate.expected_chunk_version == c.version
      && str_eq candidate.source_content_hash content_hash
      && str_eq candidate.source_content_hash (sha256 raw)
      && str_eq candidate.source_normalized_content_hash normalized_content_hash
      && str_eq candidate.source_normalized_content_hash (sha256 normalized)
      && str_eq candidate.chunk_content_hash c.content_hash
      && str_eq candidate.chunk_content_hash (sha256 c.normalized_text)
      && str_eq candidate.excerpt excerpt
      && str_eq candidate.excerpt_hash (sha256 excerpt)

  -- The calls of the primitives, whose errors pass through.
  abbrev slice_span : JsString → ℕ → ℕ → Result Fault JsString
  slice_span text start end = elim (slice_unicode_scalar_span text start end) [
    | ok s ↦ ok s
    | err e ↦ err scalar_offset
  ]

  abbrev normalize_source : (nfc : JsString → JsString) → JsString → Result Fault JsString
  normalize_source nfc text = elim (normalize_stored_source_text nfc text) [
    | ok s ↦ ok s
    | err e ↦ err source_text
  ]

  -- Of four classes: the error of an empty list does not occur.
  abbrev effective_access_class : List AccessClass → Result Fault AccessClass
  effective_access_class classes = elim (max_access_class classes) [
    | ok c ↦ ok c
    | err e ↦ err contract
  ]

  unfoldable pub make_span :
      Place
      → SubjectRef
      → SpanCandidate
      → SourceSnapshot
      → ChunkSnapshot
      → (raw normalized excerpt : JsString) → AccessClass
      → VerifiedSpan
  make_span place subject candidate source c raw normalized excerpt access_class = record {
    subject = subject;
    place = place;
    source_artifact_id = source.id;
    source_chunk_id = c.id;
    source_version = source.version;
    chunk_version = c.version;
    start_offset = candidate.start_offset;
    end_offset = candidate.end_offset;
    excerpt = excerpt;
    source_content_hash = sha256 raw;
    source_normalized_content_hash = sha256 normalized;
    chunk_content_hash = c.content_hash;
    excerpt_hash = sha256 excerpt;
    effective_access_class = access_class;
  }

  -- The second half of `verifySnapshot`, once the chunk is found.
  unfoldable pub verify_excerpt :
      (nfc : JsString → JsString)
      → EvidenceSnapshot
      → SubjectRef
      → SpanCandidate
      → (raw content_hash normalized_content_hash : JsString) → ChunkSnapshot
      → Result Fault VerifiedSpan
  verify_excerpt nfc s subject candidate raw content_hash normalized_content_hash chunk = do
    let normalized_text = join (texts_of (sort_chunks s.chunks))
    renormalized ← normalize_source nfc raw
    throw_if (not (str_eq renormalized normalized_text)) source_span
    throw_if (not (str_eq content_hash (sha256 raw))) source_span
    excerpt ← slice_span chunk.normalized_text candidate.start_offset candidate.end_offset
    n ← scalar_length excerpt
    throw_if
        (not (
            hashes_match candidate chunk content_hash normalized_content_hash raw normalized_text
              excerpt)
          || ltb source_chunk_max_scalars n)
        source_span
    access_class ← effective_access_class (
        s.source.access_class ∷ chunk.access_class ∷ s.subject.access_class
        ∷ s.explicit_policy_access_class ∷ [])
    ok (make_span s.place subject candidate s.source chunk raw normalized_text excerpt access_class)

  -- The order of the first errors does not show: `admit` gives one error for all of them.
  unfoldable pub verify_snapshot :
      (nfc : JsString → JsString)
      → EvidenceSnapshot
      → AuthorizedScope
      → SubjectRef
      → SpanCandidate
      → Result Fault VerifiedSpan
  verify_snapshot nfc s scope subject candidate = do
    throw_if (not (is_well_formed s)) contract
    throw_if (not (is_bound scope subject candidate s)) source_span
    raw ← required s.source.immutable_text
    content_hash ← required s.source.content_hash
    normalized_content_hash ← required s.source.normalized_content_hash
    found ←
        verify_chunks s.place s.source.id candidate.source_chunk_id [] 0 0 none
          (sort_chunks s.chunks)
    chunk ← required found
    verify_excerpt nfc s subject candidate raw content_hash normalized_content_hash chunk

-- VerifiedClaimSourceSpanError and VerifiedClaimSourceSpanOperationalError
pub data AdmissionError : Type 0 where
  unavailable operational : AdmissionError

-- What `getAuthorizedClaimEvidenceSnapshot` is asked for.
pub record LookupKey : Type 0 where
  pub tenant_id : JsString
  pub workspace_id : JsString
  pub subject_type : SubjectType
  pub subject_id : JsString
  pub source_artifact_id : JsString
  pub source_chunk_id : JsString

-- `admit` of a parsed candidate; a lookup that throws has an error.
unfoldable pub admit_candidate :
    (sha256 nfc : JsString → JsString)
    → (lookup : LookupKey → Result (Unit {0}) (Option EvidenceSnapshot)) → AuthorizedScope
    → SubjectRef
    → SpanCandidate
    → Result AdmissionError VerifiedSpan
admit_candidate sha256 nfc lookup scope subject candidate = do
  throw_if (not (is_uuid_reference scope.tenant_id && is_uuid_reference scope.workspace_id))
      operational
  found ←
      elim (lookup (record {
        tenant_id = scope.tenant_id;
        workspace_id = scope.workspace_id;
        subject_type = subject.type;
        subject_id = subject.id;
        source_artifact_id = candidate.source_artifact_id;
        source_chunk_id = candidate.source_chunk_id;
      })) [ ok snapshot ↦ ok snapshot | err e ↦ err operational ]
  snapshot ← elim found [ none ↦ err unavailable | some s ↦ ok s ]
  elim (verify_snapshot sha256 nfc snapshot scope subject candidate) [
    | ok span ↦ ok span
    | err e ↦ err unavailable
  ]
