-- ===== src/Truth/SourceSpan/Excerpt.antt =====
-- The second half of `verifySnapshot`: the normalized text, the excerpt and the hashes (source-span.ts).
use throughline.Prelude.{
  ℕ, ◌≡◌, refl, ap, ◌∙◌, true, false, ◌||◌, not, Option, none, some, [], ◌∷◌, Result, ok, err,
  throw_if, throw_if_ok, bind_value, check_value, ok_injective, arith, ltb, JsString, str_eq,
  str_eq_iff,
}
use throughline.Core.AccessClass.{AccessClass, max_access_class}
use throughline.Core.ScalarText.{join, slice_unicode_scalar_span}
use throughline.Core.StoredText.{normalize_stored_source_text}
use throughline.Content.Chunking.{source_chunk_max_scalars}
use throughline.Truth.Validation.{contract, scalar_offset, source_text, source_span, scalar_length}
use throughline.Truth.SourceSpan.{
  ChunkSnapshot, EvidenceSnapshot, SubjectRef, SpanCandidate, VerifiedSpan, sort_chunks, texts_of,
}
use throughline.Truth.SourceSpan.Verify.{verify_excerpt, required, hashes_match, make_span}

pub required_ok {ℓ} : {A : Type ℓ} (o : Option A) {a : A} → required o ≡ ok a → o ≡ some a
required_ok none h = cc
required_ok (some x) h = cc

relabel_ok {ℓ δ ε} :
    {A : Type ℓ} {D : Type δ} {E : Type ε} (e : E) (r : Result D A) {a : A}
    → ◌≡◌ {A = Result E A} (elim r [ ok x ↦ ok x | err d ↦ err e ]) (ok a)
    → r ≡ ok a
relabel_ok e (ok x) h = cc
relabel_ok e (err d) h = cc

-- The text that the chunks make.
abbrev pub chunked_text : EvidenceSnapshot → JsString
chunked_text s = join (texts_of (sort_chunks s.chunks))

-- What the second half of a verification has found.
pub record IsExcerpt (sha256 nfc : JsString → JsString) (s : EvidenceSnapshot)
    (subject : SubjectRef) (candidate : SpanCandidate) (raw : JsString) (chunk : ChunkSnapshot)
    (span : VerifiedSpan) : Type 0 where
  pub normalized : normalize_stored_source_text nfc raw ≡ ok (chunked_text s)
  pub excerpt :
      slice_unicode_scalar_span chunk.normalized_text candidate.start_offset candidate.end_offset
      ≡ ok span.excerpt
  pub hashes :
      (candidate.source_content_hash ≡ sha256 raw)
      × (candidate.source_normalized_content_hash ≡ sha256 (chunked_text s))
      × (candidate.excerpt ≡ span.excerpt)
      × (candidate.excerpt_hash ≡ sha256 span.excerpt)
  pub access :
      max_access_class (
        s.source.access_class ∷ chunk.access_class ∷ s.subject.access_class
        ∷ s.explicit_policy_access_class ∷ [])
      ≡ ok span.effective_access_class
  pub made :
      span
      ≡ make_span sha256 s.place subject candidate s.source chunk raw
          (chunked_text s)
          span.excerpt
          span.effective_access_class

hashes_matched :
    (sha256 : JsString → JsString) (candidate : SpanCandidate) (c : ChunkSnapshot)
    (content_hash normalized_hash raw normalized excerpt : JsString)
    → hashes_match sha256 candidate c content_hash normalized_hash raw normalized excerpt ≡ true
    → (candidate.source_content_hash ≡ sha256 raw)
      × (candidate.source_normalized_content_hash ≡ sha256 normalized)
      × (candidate.excerpt ≡ excerpt)
      × (candidate.excerpt_hash ≡ sha256 excerpt)
unfolding hashes_match
hashes_matched sha256 candidate c content_hash normalized_hash raw normalized excerpt h = ground (
  arith,
  str_eq_iff candidate.source_content_hash (sha256 raw),
  str_eq_iff candidate.source_normalized_content_hash (sha256 normalized),
  str_eq_iff candidate.excerpt excerpt,
  str_eq_iff candidate.excerpt_hash (sha256 excerpt),
)

-- The steps of the second half, with what they returned.
IsExcerpt-steps :
    (sha256 nfc : JsString → JsString) (s : EvidenceSnapshot) (subject : SubjectRef)
    (candidate : SpanCandidate) (raw content_hash normalized_hash renormalized excerpt : JsString)
    (n : ℕ) (chunk : ChunkSnapshot) (access_class : AccessClass) (span : VerifiedSpan)
    → normalize_stored_source_text nfc raw ≡ ok renormalized
    → not (str_eq renormalized (chunked_text s)) ≡ false
    → slice_unicode_scalar_span chunk.normalized_text candidate.start_offset candidate.end_offset
      ≡ ok excerpt
    → (not (
          hashes_match sha256 candidate chunk content_hash normalized_hash raw
            (chunked_text s)
            excerpt)
        || ltb source_chunk_max_scalars n)
      ≡ false
    → max_access_class (
        s.source.access_class ∷ chunk.access_class ∷ s.subject.access_class
        ∷ s.explicit_policy_access_class ∷ [])
      ≡ ok access_class
    → make_span sha256 s.place subject candidate s.source chunk raw
        (chunked_text s)
        excerpt
        access_class
      ≡ span
    → IsExcerpt sha256 nfc s subject candidate raw chunk span
unfolding make_span
IsExcerpt-steps sha256 nfc s subject candidate raw content_hash normalized_hash renormalized excerpt
      n chunk access_class span normal same cut matches access made =
    rw (← made) (record {
      normalized = normal ∙ ap ok (ground (arith, str_eq_iff renormalized (chunked_text s)));
      excerpt = cut;
      hashes =
          hashes_matched sha256 candidate chunk content_hash normalized_hash raw (chunked_text s)
            excerpt (ground arith);
      access = access;
      made = refl;
    })

pub verify_excerpt-IsExcerpt :
    (sha256 nfc : JsString → JsString) (s : EvidenceSnapshot) (subject : SubjectRef)
    (candidate : SpanCandidate) (raw content_hash normalized_hash : JsString)
    (chunk : ChunkSnapshot) (span : VerifiedSpan)
    → verify_excerpt sha256 nfc s subject candidate raw content_hash normalized_hash chunk ≡ ok span
    → IsExcerpt sha256 nfc s subject candidate raw chunk span
unfolding verify_excerpt
verify_excerpt-IsExcerpt sha256 nfc s subject candidate raw content_hash normalized_hash chunk span
      h =
    let (renormalized, normal, h1) = bind_value _ _ h in
    let (same, h2) = check_value (throw_if _ source_span) _ h1 in
    let (_, h3) = check_value (throw_if _ source_span) _ h2 in
    let (excerpt, cut, h4) = bind_value _ _ h3 in
    let (n, _, h5) = bind_value (scalar_length excerpt) _ h4 in
    let (matches, h6) = check_value (throw_if _ source_span) _ h5 in
    let (access_class, access, h7) = bind_value _ _ h6 in
    IsExcerpt-steps sha256 nfc s subject candidate raw content_hash normalized_hash renormalized
      excerpt n chunk access_class span (relabel_ok source_text _ normal)
      (throw_if_ok _ source_span same) (relabel_ok scalar_offset _ cut)
      (throw_if_ok _ source_span matches) (relabel_ok contract _ access) (ok_injective h7)
