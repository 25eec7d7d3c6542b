-- ===== src/Content/Capture.antt =====
-- packages/content/src/source-text.ts: `normalizeSourceText`. The UTF-8 codec (`Buffer.from` of a
-- string, `toString`, and the fatal `TextDecoder`, `none` where it throws), the SHA-256 of bytes and
-- the normal form NFC are the fields of `Platform`.
pub mod Laws
use throughline.Prelude.{
  ℕ, not, Option, none, some, List, Result, ok, err, ◌>>=◌, ◌>>◌, throw_if, JsString, str_eq,
}
use throughline.Core.StoredText.{normalize_stored_source_text}
use throughline.Content.Chunking.{ValidationError, invalid_source}

pub record Platform : Type 0 where
  pub encode : JsString → List ℕ
  pub decode : List ℕ → JsString
  pub decode_fatal : List ℕ → Option JsString
  pub sha256_bytes : List ℕ → JsString
  pub nfc : JsString → JsString

-- `string | Uint8Array`
pub data SourceInput : Type 0 where
  text : JsString → SourceInput
  bytes : List ℕ → SourceInput

pub record NormalizedSourceText : Type 0 where
  pub captured_text : JsString
  pub normalized_text : JsString
  pub content_hash : JsString
  pub normalized_content_hash : JsString

-- The bytes of the input; a string that does not survive UTF-8 is refused.
unfoldable pub input_bytes : Platform → SourceInput → Result ValidationError (List ℕ)
input_bytes p (bytes b) = ok b
input_bytes p (text s) = do
  throw_if (not (str_eq (p.decode (p.encode s)) s)) invalid_source
  ok (p.encode s)

unfoldable pub decode_bytes : Platform → List ℕ → Result ValidationError JsString
decode_bytes p b = elim (p.decode_fatal b) [ none ↦ err invalid_source | some s ↦ ok s ]

unfoldable pub normalize_captured : Platform → JsString → Result ValidationError JsString
normalize_captured p s = elim (normalize_stored_source_text p.nfc s) [
  | ok n ↦ ok n
  | err e ↦ err invalid_source
]

unfoldable pub normalize_source_text :
    Platform → SourceInput → Result ValidationError NormalizedSourceText
unfolding input_bytes decode_bytes normalize_captured
normalize_source_text p input = do
  b ← input_bytes p input
  captured ← decode_bytes p b
  normalized ← normalize_captured p captured
  ok (record {
    captured_text = captured;
    normalized_text = normalized;
    content_hash = p.sha256_bytes b;
    normalized_content_hash = p.sha256_bytes (p.encode normalized);
  })
