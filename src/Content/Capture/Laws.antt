-- ===== src/Content/Capture/Laws.antt =====
-- Captured sources and their chunks (source-text.ts).
use throughline.Prelude.{
  ◌≡◌, ◌≢◌, ap, ◌∙◌, inl, inr, some, List, [], ◌∷◌, ok, bind_value, ok_injective, Result-cases,
  JsString, arith, length,
}
use throughline.Core.ScalarText.{join}
use throughline.Core.StoredText.{normalize_stored_source_text}
use throughline.Core.StoredText.Laws.{NormalForm, normalize_stored_source_text_clean}
use throughline.Core.Whitespace.{trim}
use throughline.Content.Chunking.{Chunk, chunk_normalized_source, chunk_texts}
use throughline.Content.Chunking.Laws.{chunk_normalized_source-Cuts}
use throughline.Content.Capture.{
  Platform, SourceInput, NormalizedSourceText, input_bytes, decode_bytes, normalize_captured,
  normalize_source_text,
}

normalize_captured_ok :
    (p : Platform) (s : JsString) {n : JsString}
    → normalize_captured p s ≡ ok n
    → normalize_stored_source_text p.nfc s ≡ ok n
unfolding normalize_captured
normalize_captured_ok p s h = elim (Result-cases (normalize_stored_source_text p.nfc s)) [
  | inl (n, e) ↦ cc
  | inr (e, failed) ↦ cc
]

trim_empty : (s : JsString) → length (trim s) ≢ 0 → length s ≢ 0
unfolding trim
trim_empty [] h = h
trim_empty (u ∷ s) h = omega arith

-- Given the documented behaviour of NFC, every source that is normalized can be chunked, and its
-- chunks joined are its normalized text.
pub normalize_source_text_chunked :
    (sha256 : JsString → JsString) (p : Platform) (input : SourceInput) (n : NormalizedSourceText)
    → NormalForm p.nfc
    → normalize_source_text p input ≡ ok n
    → (chunks : List Chunk) × (chunk_normalized_source sha256 n.normalized_text ≡ some (ok chunks))
      × (join (chunk_texts chunks) ≡ n.normalized_text)
unfolding normalize_source_text
normalize_source_text_chunked sha256 p input n form h =
    let (b, _, h1) = bind_value (input_bytes p input) _ h in
    let (captured, _, h2) = bind_value (decode_bytes p b) _ h1 in
    let (normalized, normal, h3) = bind_value (normalize_captured p captured) _ h2 in
    let same : normalized ≡ n.normalized_text =
      ap (λ (x : NormalizedSourceText). x.normalized_text) (ok_injective h3) in
    let stored : normalize_stored_source_text p.nfc captured ≡ ok n.normalized_text =
      normalize_captured_ok p captured normal ∙ ap ok same in
    let (scalars, nul, _, full) =
      normalize_stored_source_text_clean p.nfc captured n.normalized_text form stored in
    let (chunks, cut, _, whole) =
      chunk_normalized_source-Cuts sha256 n.normalized_text
        (trim_empty n.normalized_text full, nul, scalars) in
    (chunks, cut, whole)
