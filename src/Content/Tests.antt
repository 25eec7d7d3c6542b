-- ===== src/Content/Tests.antt =====
-- Runs of the chunker, and its theorems at concrete inputs.
use throughline.Prelude.{
  ◌≡◌, ◌<◌, ◌≤◌, refl, List, [], ◌∷◌, ok, err, some, arith, JsString, units, true, length,
}
use throughline.Core.ScalarText.{is_unicode_scalar_string, array_from, join}
use throughline.Core.ScalarText.{is_lead, is_trail}
use throughline.Core.StoredText.{normalize_stored_source_text, without_bom, unify_newlines}
use throughline.Core.StoredText.Laws.{NormalForm}
use throughline.Core.Whitespace.{trim}
use throughline.Content.Capture.{
  Platform, SourceInput, NormalizedSourceText, input_bytes, decode_bytes, normalize_captured,
  normalize_source_text,
}
use throughline.Content.Capture.Laws.{normalize_source_text_chunked}
use throughline.Content.Chunking.{
  Chunk, ValidationError, chunk_texts, chunk_normalized_source, choose_boundary, scan_down,
  is_newline_at, is_space_at,
}
use throughline.Content.Chunking.Boundary.{IsPreferred, choose_boundary-IsPreferred}
use throughline.Content.Chunking.Laws.{
  Cuts, chunk_normalized_source-Cuts, chunk_normalized_source_refuses,
}

abbrev toy_hash : JsString → JsString
toy_hash s = length s ∷ []

abbrev note : JsString
note = units "Maya: five days."

note_wellformed : is_unicode_scalar_string note ≡ true
unfolding is_unicode_scalar_string
note_wellformed = refl

chunk_normalized_source-Cuts_example :
    (chunks : List Chunk) × (chunk_normalized_source toy_hash note ≡ some (ok chunks))
    × Cuts toy_hash (array_from note) 0 0 chunks (length (array_from note))
    × (join (chunk_texts chunks) ≡ note)
chunk_normalized_source-Cuts_example =
    chunk_normalized_source-Cuts toy_hash note (omega arith, refl, note_wellformed)

chunk_normalized_source_refuses_example :
    (e : ValidationError) × (chunk_normalized_source toy_hash [] ≡ some (err e))
chunk_normalized_source_refuses_example =
    chunk_normalized_source_refuses toy_hash [] (λ h. h.0 refl)

abbrev two_lines : List JsString
two_lines = units "a" ∷ (10 ∷ []) ∷ units "b" ∷ units " " ∷ units "c" ∷ []

choose_boundary-IsPreferred_example :
    (0 < choose_boundary two_lines 0 4)
    × (choose_boundary two_lines 0 4 ≤ 4)
    × IsPreferred two_lines 0 4 (choose_boundary two_lines 0 4)
choose_boundary-IsPreferred_example = choose_boundary-IsPreferred two_lines 0 4 (omega arith)

choose_boundary_runs : choose_boundary two_lines 0 4 ≡ 2
unfolding choose_boundary scan_down is_newline_at is_space_at
choose_boundary_runs = refl

-- A platform for ASCII texts.
abbrev ascii : Platform
ascii = record {
  encode = λ s. s;
  decode = λ b. b;
  decode_fatal = λ b. some b;
  sha256_bytes = toy_hash;
  nfc = λ s. s;
}

ascii-NormalForm : NormalForm ascii.nfc
ascii-NormalForm = record {
  idempotent = λ s. refl;
  scalars = λ s h. h;
  no_nul = λ s h. h;
  no_return = λ s h. h;
}

abbrev captured_note : NormalizedSourceText
captured_note = record {
  captured_text = note;
  normalized_text = note;
  content_hash = 16 ∷ [];
  normalized_content_hash = 16 ∷ [];
}

capture_run : normalize_source_text ascii (SourceInput.bytes note) ≡ ok captured_note
unfolding normalize_source_text input_bytes decode_bytes normalize_captured
    normalize_stored_source_text is_unicode_scalar_string is_lead is_trail without_bom
    unify_newlines trim
capture_run = refl

normalize_source_text_chunked_example :
    (chunks : List Chunk) × (chunk_normalized_source toy_hash note ≡ some (ok chunks))
    × (join (chunk_texts chunks) ≡ note)
normalize_source_text_chunked_example =
    normalize_source_text_chunked toy_hash ascii (SourceInput.bytes note) captured_note
      ascii-NormalForm capture_run
