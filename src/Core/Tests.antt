-- ===== src/Core/Tests.antt =====
-- Runs of the trust primitives, and their theorems at concrete inputs.
use mathlib.Core.List.{Memᴰ}
use throughline.Prelude.{
  ◌++◌, ◌≡◌, ◌≢◌, length, false, refl, ◌↔◌, List, [], ◌∷◌, ok, All, all, arith, JsString, true,
}
use throughline.Core.StoredText.{normalize_stored_source_text, without_bom, unify_newlines}
use throughline.Core.StoredText.Laws.{
  NormalForm, has_nul, has_return, normalize_stored_source_text_clean,
  normalize_stored_source_text_again,
}
use throughline.Core.Whitespace.{trim}
use throughline.Core.AccessClass.{
  AccessClass, public, workspace, restricted, max_access_class, can_read_access_class,
}
use throughline.Core.AccessClass.Laws.{IsBelow, max_access_class_lem}
use throughline.Core.ScalarText.{
  is_lead, is_trail, is_unicode_scalar_string, array_from, join, slice_unicode_scalar_span,
  unicode_scalar_length,
}
use throughline.Core.ScalarText.Laws.{
  IsScalar, is_unicode_scalar_string_iff, slice_unicode_scalar_span_lem,
}

max_access_class_example :
    (top : AccessClass) × (max_access_class (workspace ∷ restricted ∷ public ∷ []) ≡ ok top)
    × Memᴰ top (workspace ∷ restricted ∷ public ∷ [])
    × All (IsBelow top) (workspace ∷ restricted ∷ public ∷ [])
    × ((ceiling : AccessClass)
        → can_read_access_class ceiling top
          ≡ all (can_read_access_class ceiling) (workspace ∷ restricted ∷ public ∷ []))
max_access_class_example = max_access_class_lem workspace (restricted ∷ public ∷ [])

max_access_class_runs : max_access_class (workspace ∷ restricted ∷ public ∷ []) ≡ ok restricted
unfolding max_access_class
max_access_class_runs = refl

-- "a", U+1F600 as a surrogate pair, "b"
abbrev smile : JsString
smile = 97 ∷ 0xd83d ∷ 0xde00 ∷ 98 ∷ []

smile_wellformed : is_unicode_scalar_string smile ≡ true
unfolding is_unicode_scalar_string
smile_wellformed = refl

lone_surrogate : is_unicode_scalar_string (97 ∷ 0xd83d ∷ 98 ∷ []) ≡ false
unfolding is_unicode_scalar_string
lone_surrogate = refl

is_unicode_scalar_string_example :
    (is_unicode_scalar_string smile ≡ true)
    ↔ ((xs : List JsString) × All IsScalar xs × (join xs ≡ smile) × (array_from smile ≡ xs))
is_unicode_scalar_string_example = is_unicode_scalar_string_iff smile

slice_unicode_scalar_span_example :
    (s : JsString) × (t : JsString) × (slice_unicode_scalar_span smile 0 2 ≡ ok s)
    × (slice_unicode_scalar_span smile 2 3 ≡ ok t)
    × (slice_unicode_scalar_span smile 0 3 ≡ ok (s ++ t))
    × (unicode_scalar_length s ≡ ok 2)
unfolding array_from
slice_unicode_scalar_span_example =
    slice_unicode_scalar_span_lem smile 0 2 3 smile_wellformed (omega arith) (omega arith)
      (omega arith)

-- A text with a Windows line end, and a normal form that changes nothing.
abbrev two_lines : JsString
two_lines = 97 ∷ 13 ∷ 10 ∷ 98 ∷ []

abbrev plain_form : JsString → JsString
plain_form s = s

plain-NormalForm : NormalForm plain_form
plain-NormalForm = record {
  idempotent = λ s. refl;
  scalars = λ s h. h;
  no_nul = λ s h. h;
  no_return = λ s h. h;
}

two_lines_run : normalize_stored_source_text plain_form two_lines ≡ ok (97 ∷ 10 ∷ 98 ∷ [])
unfolding normalize_stored_source_text is_unicode_scalar_string is_lead is_trail without_bom
    unify_newlines trim
two_lines_run = refl

normalize_stored_source_text_clean_example :
    (is_unicode_scalar_string (97 ∷ 10 ∷ 98 ∷ []) ≡ true)
    × (has_nul (97 ∷ 10 ∷ 98 ∷ []) ≡ false)
    × (has_return (97 ∷ 10 ∷ 98 ∷ []) ≡ false)
    × (length (trim (97 ∷ 10 ∷ 98 ∷ [])) ≢ 0)
normalize_stored_source_text_clean_example =
    normalize_stored_source_text_clean plain_form two_lines (97 ∷ 10 ∷ 98 ∷ []) plain-NormalForm
      two_lines_run

normalize_stored_source_text_again_example :
    normalize_stored_source_text plain_form (97 ∷ 10 ∷ 98 ∷ []) ≡ ok (97 ∷ 10 ∷ 98 ∷ [])
normalize_stored_source_text_again_example =
    normalize_stored_source_text_again plain_form two_lines (97 ∷ 10 ∷ 98 ∷ []) plain-NormalForm
      two_lines_run refl
