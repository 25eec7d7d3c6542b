-- ===== src/Truth/PredicateRegistry/Tests.antt =====
-- packages/truth-ledger/src/predicate-registry.ts at small inputs, with a normal form that changes
-- nothing.
use throughline.Prelude.{◌≡◌, refl, ok, err, JsString, ◌∷◌, []}
use throughline.Core.ScalarText.{array_from, is_unicode_scalar_string, unicode_scalar_length}
use throughline.Core.Whitespace.{is_refused_control, trim}
use throughline.Core.StoredText.{unify_newlines}
use throughline.Core.StoredText.Laws.{NormalForm}
use throughline.Truth.Validation.{predicate_registry, scalar_length}
use throughline.Truth.PredicateRegistry.{
  canonicalize_predicate_text, parse_canonical_predicate_text,
}
use throughline.Truth.PredicateRegistry.Laws.{IsCanonical, PartsNormal, canonicalize-parse}

abbrev nfc : JsString → JsString
nfc s = s

form : NormalForm nfc
form = record {
  idempotent = λ s. refl;
  scalars = λ s h. h;
  no_nul = λ s h. h;
  no_return = λ s h. h;
}

parts : PartsNormal nfc
parts = record { trimmed = λ s h. refl }

trims : canonicalize_predicate_text nfc (32 ∷ 97 ∷ 13 ∷ 98 ∷ 32 ∷ []) ≡ ok (97 ∷ 10 ∷ 98 ∷ [])
unfolding canonicalize_predicate_text is_unicode_scalar_string scalar_length trim unify_newlines
    array_from is_refused_control unicode_scalar_length
trims = refl

blank : canonicalize_predicate_text nfc (32 ∷ []) ≡ err predicate_registry
unfolding canonicalize_predicate_text is_unicode_scalar_string scalar_length trim unify_newlines
    array_from is_refused_control unicode_scalar_length
blank = refl

canonicalize-parse_example :
    IsCanonical nfc (97 ∷ 10 ∷ 98 ∷ [])
    × (parse_canonical_predicate_text nfc (97 ∷ 10 ∷ 98 ∷ []) ≡ ok (97 ∷ 10 ∷ 98 ∷ []))
canonicalize-parse_example =
    canonicalize-parse nfc form parts (32 ∷ 97 ∷ 13 ∷ 98 ∷ 32 ∷ []) (97 ∷ 10 ∷ 98 ∷ []) trims
