-- ===== src/Truth/SourceSpan/Laws.antt =====
-- What a verified span is (source-span.ts).
use mathlib.Core.List.{Memᴰ}
use throughline.Prelude.{◌+◌, ◌≡◌, none, some, [], ◌∷◌, ok, List, ◌∷◌, JsString, All}
use throughline.Core.AccessClass.{AccessClass}
use throughline.Core.ScalarText.{slice_unicode_scalar_span}
use throughline.Core.AccessClass.Laws.{IsBelow}
use throughline.Core.StoredText.{normalize_stored_source_text}
use throughline.Truth.SourceSpan.{
  AuthorizedScope, ChunkSnapshot, EvidenceSnapshot, SpanCandidate, VerifiedSpan,
}

-- What a verified span is of a snapshot.
pub record IsVerified (sha256 nfc : JsString → JsString) (s : EvidenceSnapshot)
    (scope : AuthorizedScope) (candidate : SpanCandidate) (span : VerifiedSpan) : Type 0 where
  pub raw : JsString
  pub text : JsString
  pub chunk : ChunkSnapshot
  pub stored : s.source.immutable_text ≡ some raw
  pub normalized : normalize_stored_source_text nfc raw ≡ ok text
  pub chosen : Memᴰ chunk s.chunks × (chunk.id ≡ candidate.source_chunk_id)
  pub quotes :
      slice_unicode_scalar_span chunk.normalized_text candidate.start_offset candidate.end_offset
      ≡ ok span.excerpt
  pub spans :
      slice_unicode_scalar_span text
        (chunk.start_offset + candidate.start_offset)
        (chunk.start_offset + candidate.end_offset)
      ≡ ok span.excerpt
  pub quoted : candidate.excerpt ≡ span.excerpt
  pub hashes :
      (span.source_content_hash ≡ sha256 raw)
      × (span.source_normalized_content_hash ≡ sha256 text)
      × (span.excerpt_hash ≡ sha256 span.excerpt)
  pub current : (s.source.deleted_at ≡ none) × (s.source.successor_source_artifact_id ≡ none)
  pub scoped :
      (span.place.tenant_id ≡ scope.tenant_id) × (span.place.workspace_id ≡ scope.workspace_id)
  pub guarded : All (IsBelow span.effective_access_class) (
      s.source.access_class ∷ chunk.access_class ∷ s.subject.access_class
      ∷ s.explicit_policy_access_class ∷ [])
