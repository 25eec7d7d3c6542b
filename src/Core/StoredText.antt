-- ===== src/Core/StoredText.antt =====
-- packages/core-types/src/trust-primitives.ts: `normalizeStoredSourceText`. The Unicode normal form
-- NFC is the parameter `nfc`.
pub mod Laws
use throughline.Prelude.{
  Bool, true, false, ◌||◌, not, List, [], ◌∷◌, Result, ok, err, ◌>>=◌, ◌>>◌, throw_if, length, ◌==◌,
  any, JsString, if◌then◌else◌,
}
use throughline.Core.ScalarText.{is_unicode_scalar_string}
use throughline.Core.Whitespace.{trim}

pub data SourceTextError : Type 0 where
  unsupported_source : SourceTextError

-- `input.startsWith("\uFEFF") ? input.slice(1) : input`
unfoldable pub without_bom : JsString → JsString
without_bom [] = []
without_bom (u ∷ s) = if u == 0xfeff then s else u ∷ s

-- `replace(/\r\n?/g, "\n")`
unfoldable pub unify_newlines : JsString → JsString
unify_newlines [] = []
unify_newlines (u ∷ []) = (if u == 13 then 10 else u) ∷ []
unify_newlines (u ∷ v ∷ s) =
    let after_pair = unify_newlines s in
    let after_one = unify_newlines (v ∷ s) in
    if u == 13 then 10 ∷ (if v == 10 then after_pair else after_one) else u ∷ after_one

unfoldable pub normalize_stored_source_text :
    (nfc : JsString → JsString) → JsString → Result SourceTextError JsString
normalize_stored_source_text nfc input = do
  throw_if (not (is_unicode_scalar_string input) || any (λ u. u == 0) input) unsupported_source
  let normalized = nfc (unify_newlines (without_bom input))
  throw_if (length (trim normalized) == 0) unsupported_source
  ok normalized
