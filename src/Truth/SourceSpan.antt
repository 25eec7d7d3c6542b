-- ===== src/Truth/SourceSpan.antt =====
-- packages/truth-ledger/src/source-span.ts: the check that a claim's excerpt is a span of a stored
-- source (`verifySnapshot`). The SHA-256 of a text's UTF-8 bytes and the normal form NFC are the
-- parameters `sha256` and `nfc`. An access class is one by its type.
pub mod Verify
pub mod Chunks
pub mod Slices
pub mod Excerpt
pub mod Stored
pub mod Laws
mod Tests
use throughline.Prelude.{
  ℕ, zero, suc, ◌+◌, Bool, true, false, ◌&&◌, ◌||◌, not, Option, none, some, List, [], ◌∷◌, Result,
  ok, err, ◌>>=◌, ◌>>◌, throw_if, leb, ltb, ◌==◌, if◌then◌else◌, JsString, units, str_eq, includes,
  length,
}
use throughline.Core.AccessClass.{AccessClass, max_access_class}
use throughline.Core.ScalarText.{array_from, join, slice_unicode_scalar_span}
use throughline.Core.StoredText.{normalize_stored_source_text}
use throughline.Content.Chunking.{source_chunk_max_scalars}
use throughline.Truth.Validation.{
  Fault, contract, scalar_offset, source_text, source_span, is_uuid_v7, is_uuid_reference,
  scalar_length,
}

abbrev pub source_normalization_version : JsString
source_normalization_version = units "source-normalization.v1"

abbrev pub source_chunking_version : JsString
source_chunking_version = units "source-chunking.v1"

pub data SubjectType : Type 0 where
  activity initiative : SubjectType

unfoldable pub same_type : SubjectType → SubjectType → Bool
same_type activity activity = true
same_type initiative initiative = true
same_type _ _ = false

pub record AuthorizedScope : Type 0 where
  pub tenant_id : JsString
  pub workspace_id : JsString

-- The three identifiers that every record of a snapshot repeats.
pub record Place : Type 0 where
  pub tenant_id : JsString
  pub workspace_id : JsString
  pub space_id : JsString

pub record ChunkSnapshot : Type 0 where
  pub id : JsString
  pub place : Place
  pub source_artifact_id : JsString
  pub version : ℕ
  pub normalization_version : JsString
  pub chunking_version : JsString
  pub chunk_index : ℕ
  pub start_offset : ℕ
  pub end_offset : ℕ
  pub normalized_text : JsString
  pub content_hash : JsString
  pub access_class : AccessClass

pub record SubjectSnapshot : Type 0 where
  pub type : SubjectType
  pub id : JsString
  pub place : Place
  pub version : ℕ
  pub access_class : AccessClass

pub record LinkSnapshot : Type 0 where
  pub place : Place
  pub source_artifact_id : JsString
  pub activity_id : JsString
  pub governing_initiative_id : Option JsString

pub record SourceSnapshot : Type 0 where
  pub id : JsString
  pub place : Place
  pub version : ℕ
  pub immutable_text : Option JsString
  pub content_hash : Option JsString
  pub normalized_content_hash : Option JsString
  pub normalization_version : JsString
  pub chunking_version : JsString
  pub access_class : AccessClass
  pub deleted_at : Option JsString
  pub successor_source_artifact_id : Option JsString

pub record EvidenceSnapshot : Type 0 where
  pub place : Place
  pub subject : SubjectSnapshot
  pub link : LinkSnapshot
  pub source : SourceSnapshot
  pub chunks : List ChunkSnapshot
  pub explicit_policy_access_class : AccessClass

pub record SubjectRef : Type 0 where
  pub type : SubjectType
  pub id : JsString
  pub expected_version : ℕ

pub record SpanCandidate : Type 0 where
  pub source_artifact_id : JsString
  pub source_chunk_id : JsString
  pub expected_source_version : ℕ
  pub expected_chunk_version : ℕ
  pub normalization_version : JsString
  pub chunking_version : JsString
  pub start_offset : ℕ
  pub end_offset : ℕ
  pub excerpt : JsString
  pub source_content_hash : JsString
  pub source_normalized_content_hash : JsString
  pub chunk_content_hash : JsString
  pub excerpt_hash : JsString

pub record VerifiedSpan : Type 0 where
  pub subject : SubjectRef
  pub place : Place
  pub source_artifact_id : JsString
  pub source_chunk_id : JsString
  pub source_version : ℕ
  pub chunk_version : ℕ
  pub start_offset : ℕ
  pub end_offset : ℕ
  pub excerpt : JsString
  pub source_content_hash : JsString
  pub source_normalized_content_hash : JsString
  pub chunk_content_hash : JsString
  pub excerpt_hash : JsString
  pub effective_access_class : AccessClass

unfoldable pub same_place : Place → Place → Bool
same_place a b =
    str_eq a.tenant_id b.tenant_id
    && str_eq a.workspace_id b.workspace_id
    && str_eq a.space_id b.space_id

unfoldable pub is_place : Place → Bool
is_place p =
    is_uuid_reference p.tenant_id
    && is_uuid_reference p.workspace_id
    && is_uuid_reference p.space_id

abbrev pub is_none {ℓ} : {A : Type ℓ} → Option A → Bool
is_none none = true
is_none (some a) = false

-- `value === text` for a value that may be null.
abbrev pub is_text : Option JsString → JsString → Bool
is_text none s = false
is_text (some t) s = str_eq t s

abbrev pub is_uuid_or_null : Option JsString → Bool
is_uuid_or_null none = true
is_uuid_or_null (some s) = is_uuid_v7 s

-- The calls of `requireUuidV7` and `requireCanonicalUuidReference` before the comparison.
unfoldable pub is_well_formed : EvidenceSnapshot → Bool
unfolding is_place
is_well_formed s =
    is_place s.place
    && is_uuid_v7 s.subject.id
    && is_place s.subject.place
    && is_place s.link.place
    && is_uuid_v7 s.link.source_artifact_id
    && is_uuid_v7 s.link.activity_id
    && is_uuid_or_null s.link.governing_initiative_id
    && is_uuid_v7 s.source.id
    && is_place s.source.place

-- `(subject.type === "activity" && link.activityId !== subject.id) || …`, negated.
unfoldable pub is_linked : LinkSnapshot → SubjectType → JsString → Bool
is_linked link activity id = str_eq link.activity_id id
is_linked link initiative id = is_text link.governing_initiative_id id

-- The condition of the first rejection, negated; whether the nullable fields of the source are there
-- is read in `verify_snapshot`.
unfoldable pub is_bound : AuthorizedScope → SubjectRef → SpanCandidate → EvidenceSnapshot → Bool
unfolding same_place same_type is_linked
is_bound scope subject candidate s =
    str_eq s.place.tenant_id scope.tenant_id
    && str_eq s.place.workspace_id scope.workspace_id
    && same_type s.subject.type subject.type
    && str_eq s.subject.id subject.id
    && s.subject.version == subject.expected_version
    && same_place s.subject.place s.place
    && same_place s.link.place s.place
    && str_eq s.link.source_artifact_id candidate.source_artifact_id
    && str_eq s.source.id candidate.source_artifact_id
    && same_place s.source.place s.place
    && s.source.version == candidate.expected_source_version
    && is_none s.source.deleted_at
    && is_none s.source.successor_source_artifact_id
    && str_eq s.source.normalization_version source_normalization_version
    && str_eq s.source.chunking_version source_chunking_version
    && str_eq candidate.normalization_version source_normalization_version
    && str_eq candidate.chunking_version source_chunking_version
    && is_linked s.link subject.type subject.id

-- `[...chunks].sort((left, right) => left.chunkIndex - right.chunkIndex)`, which is stable.
unfoldable pub insert_chunk : ChunkSnapshot → List ChunkSnapshot → List ChunkSnapshot
insert_chunk c [] = c ∷ []
insert_chunk c (d ∷ ds) =
    if leb c.chunk_index d.chunk_index then c ∷ d ∷ ds else d ∷ insert_chunk c ds

unfoldable pub sort_chunks : List ChunkSnapshot → List ChunkSnapshot
unfolding insert_chunk
sort_chunks [] = []
sort_chunks (c ∷ cs) = insert_chunk c (sort_chunks cs)

unfoldable pub texts_of : List ChunkSnapshot → List JsString
texts_of [] = []
texts_of (c ∷ cs) = c.normalized_text ∷ texts_of cs
