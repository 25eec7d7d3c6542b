-- ===== src/Truth/SourceSpan/Chunks.antt =====
-- The loop over the chunks of a snapshot (source-span.ts).
use mathlib.Core.List.{append_assoc, flatten, Memᴰ}
use throughline.Prelude.{
  ℕ, ◌+◌, ◌≤◌, ◌≡◌, refl, sym, ap, ◌∙◌, ◌⊎◌, inl, inr, true, ◌&&◌, not, Option, some, List, [], ◌∷◌,
  ◌++◌, Result, ok, throw_if, bind_value, check_value, ok_injective, arith, Bool-cases, length,
  length-append, if◌then◌else◌, JsString, str_eq, str_eq_iff, All, All-append,
}
use throughline.Core.ScalarText.{array_from, join, is_unicode_scalar_string, unicode_scalar_length}
use throughline.Core.ScalarText.Laws.{
  IsScalar, is_scalar→All, join-array_from, join-cons, array_from-scalar,
}
use throughline.Content.Chunking.{source_chunk_max_scalars}
use throughline.Truth.Validation.{Fault, contract, source_span, is_uuid_v7, scalar_length}
use throughline.Truth.SourceSpan.{Place, ChunkSnapshot, texts_of, is_place}
use throughline.Truth.SourceSpan.Verify.{fits, verify_chunks}

array_from-All :
    (xs : List JsString) (t : JsString)
    → All IsScalar xs
    → array_from (join xs ++ t) ≡ xs ++ array_from t
array_from-All [] t h = unfold join in refl
array_from-All (x ∷ xs) t (p, h) =
    ap array_from (ap (λ u. u ++ t) (join-cons x xs) ∙ append_assoc x (join xs) t)
    ∙ array_from-scalar x (join xs ++ t) p
    ∙ ap (◌∷◌ x) (array_from-All xs t h)

-- The scalars of a well-formed text with another text behind it.
pub array_from-append :
    (s t : JsString)
    → is_unicode_scalar_string s ≡ true
    → array_from (s ++ t) ≡ array_from s ++ array_from t
array_from-append s t h =
    ap (λ u. array_from (u ++ t)) (sym (join-array_from s))
    ∙ array_from-All (array_from s) t (is_scalar→All s h)

pub scalar_length_ok :
    (s : JsString) {n : ℕ}
    → scalar_length s ≡ ok n
    → (is_unicode_scalar_string s ≡ true) × (length (array_from s) ≡ n)
unfolding scalar_length unicode_scalar_length
scalar_length_ok s h = ground arith

-- Where a chunk stands: its text is a part of the joined texts, at its start offset counted from
-- `start`.
pub record Located (start : ℕ) (cs : List ChunkSnapshot) (c : ChunkSnapshot) : Type 0 where
  pub before : List JsString
  pub after : List JsString
  pub splits : array_from (join (texts_of cs)) ≡ before ++ (array_from c.normalized_text ++ after)
  pub offset : c.start_offset ≡ start + length before

module _ (sha256 : JsString → JsString) (place : Place) (source_id wanted : JsString) where
  -- What one round has checked, and what the rest of the loop starts from.
  round :
      (seen : List JsString) (index start : ℕ) (selected : Option ChunkSnapshot) (c : ChunkSnapshot)
      (cs : List ChunkSnapshot) (found : Option ChunkSnapshot)
      → verify_chunks sha256 place source_id wanted seen index start selected (c ∷ cs) ≡ ok found
      → (is_unicode_scalar_string c.normalized_text ≡ true)
        × (fits sha256 place source_id seen index start (length (array_from c.normalized_text)) c
            ≡ true)
        × (verify_chunks sha256 place source_id wanted
              (c.id ∷ seen)
              (index + 1)
              c.end_offset
              (if str_eq c.id wanted then some c else selected)
              cs
            ≡ ok found)
  unfolding verify_chunks
  round seen index start selected c cs found h =
      let (n, scalars, h1) = bind_value (scalar_length c.normalized_text) _ h in
      let (ids, h2) =
        check_value
          (throw_if (not (is_uuid_v7 c.id && is_place c.place && is_uuid_v7 c.source_artifact_id))
            contract)
          _ h1 in
      let (fit, h3) =
        check_value (throw_if (not (fits sha256 place source_id seen index start n c)) source_span)
          _ h2 in
      let (w, e) = scalar_length_ok c.normalized_text scalars in (w, rw e (ground (arith, fit)), h3)

  fits_bounds :
      (seen : List JsString) (index start n : ℕ) (c : ChunkSnapshot)
      → fits sha256 place source_id seen index start n c ≡ true
      → (c.start_offset ≡ start)
        × (c.end_offset ≡ start + n)
        × (c.content_hash ≡ sha256 c.normalized_text)
        × (1 ≤ n)
        × (n ≤ source_chunk_max_scalars)
  unfolding fits
  fits_bounds seen index start n c h =
      ground (arith, str_eq_iff (sha256 c.normalized_text) c.content_hash)

  scalars_cons :
      (c : ChunkSnapshot) (cs : List ChunkSnapshot)
      → is_unicode_scalar_string c.normalized_text ≡ true
      → array_from (join (texts_of (c ∷ cs)))
        ≡ array_from c.normalized_text ++ array_from (join (texts_of cs))
  unfolding texts_of
  scalars_cons c cs w =
      ap array_from (join-cons c.normalized_text (texts_of cs))
      ∙ array_from-append c.normalized_text (join (texts_of cs)) w

  -- A chunk that the loop has selected: a good hash, well-formed, the wanted one, and at its place.
  pub record Selected (start : ℕ) (cs : List ChunkSnapshot) (c : ChunkSnapshot) : Type 0 where
    pub located : Located start cs c
    pub member : Memᴰ c cs
    pub scalars : is_unicode_scalar_string c.normalized_text ≡ true
    pub hash : c.content_hash ≡ sha256 c.normalized_text
    pub named : str_eq c.id wanted ≡ true

  Selected-later :
      (start : ℕ) (c d : ChunkSnapshot) (cs : List ChunkSnapshot)
      → is_unicode_scalar_string d.normalized_text ≡ true
      → d.end_offset ≡ start + length (array_from d.normalized_text)
      → Selected d.end_offset cs c
      → Selected start (d ∷ cs) c
  Selected-later start c d cs w e s = record {
    located = record {
      before = array_from d.normalized_text ++ s.located.before;
      after = s.located.after;
      splits =
          scalars_cons d cs w
          ∙ ap (λ xs. array_from d.normalized_text ++ xs) s.located.splits
          ∙ sym (append_assoc (array_from d.normalized_text) s.located.before _);
      offset = omega (
        arith,
        s.located.offset,
        e,
        length-append (array_from d.normalized_text) s.located.before,
      );
    };
    member = Memᴰ.tail s.member;
    scalars = s.scalars;
    hash = s.hash;
    named = s.named;
  }

  Selected-now :
      (start : ℕ) (c : ChunkSnapshot) (cs : List ChunkSnapshot)
      → is_unicode_scalar_string c.normalized_text ≡ true
      → c.start_offset ≡ start
      → c.content_hash ≡ sha256 c.normalized_text
      → str_eq c.id wanted ≡ true
      → Selected start (c ∷ cs) c
  Selected-now start c cs w o h n = record {
    located = record {
      before = [];
      after = array_from (join (texts_of cs));
      splits = scalars_cons c cs w;
      offset = omega arith;
    };
    member = Memᴰ.head refl;
    scalars = w;
    hash = h;
    named = n;
  }

  no_chunks :
      (seen : List JsString) (index start : ℕ) (selected : Option ChunkSnapshot)
      {found : Option ChunkSnapshot}
      → verify_chunks sha256 place source_id wanted seen index start selected [] ≡ ok found
      → ◌≡◌ {A = Result Fault (Option ChunkSnapshot)} (ok selected) (ok found)
  unfolding verify_chunks
  no_chunks seen index start selected h = h

  -- The selected chunk is the one that was selected before the loop, or one of the loop's.
  pub verify_chunks-Selected :
      (seen : List JsString) (index start : ℕ) (selected : Option ChunkSnapshot)
      (cs : List ChunkSnapshot) (c : ChunkSnapshot)
      → verify_chunks sha256 place source_id wanted seen index start selected cs ≡ ok (some c)
      → (selected ≡ some c) ⊎ Selected start cs c
  verify_chunks-Selected seen index start selected [] c h =
      inl (ok_injective {E = Fault} (no_chunks seen index start selected h))
  verify_chunks-Selected seen index start selected (d ∷ cs) c h =
      let (w, fit, h1) = round seen index start selected d cs (some c) h in
      let (o, e, hash, _, _) = fits_bounds seen index start _ d fit in
      elim (verify_chunks-Selected (d.id ∷ seen) (index + 1) d.end_offset
        (if str_eq d.id wanted then some d else selected) cs c h1) [
          | inr later ↦ inr (Selected-later start c d cs w e later)
          | inl before ↦ elim (Bool-cases (str_eq d.id wanted)) [
            | inl here ↦
                let same : d ≡ c = ground (arith, here, before) in
                inr (rw (← same) (Selected-now start d cs w o hash here))
            | inr not_here ↦ inl (rw not_here at before)
          ]
        ]

  -- The loop lets only well-formed texts pass.
  pub verify_chunks-scalars :
      (cs : List ChunkSnapshot) (seen : List JsString) (index start : ℕ)
      (selected : Option ChunkSnapshot) (found : Option ChunkSnapshot)
      → verify_chunks sha256 place source_id wanted seen index start selected cs ≡ ok found
      → All IsScalar (array_from (join (texts_of cs)))
  unfolding texts_of array_from join flatten
  verify_chunks-scalars [] seen index start selected found h = tt
  verify_chunks-scalars (c ∷ cs) seen index start selected found h =
      let (w, fit, h1) = round seen index start selected c cs found h in
      rw (scalars_cons c cs w) (
        All-append IsScalar (array_from c.normalized_text) _ (is_scalar→All c.normalized_text w)
          (verify_chunks-scalars cs (c.id ∷ seen) (index + 1) c.end_offset _ found h1))
