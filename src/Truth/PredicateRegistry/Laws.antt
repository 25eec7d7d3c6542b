-- ===== src/Truth/PredicateRegistry/Laws.antt =====
-- Canonical texts and the assertions that are made of them
-- (packages/truth-ledger/src/predicate-registry.ts).
use mathlib.Core.Path.{subst}
use throughline.Prelude.{
  ℕ, ◌≤◌, ◌≡◌, refl, sym, ap, ◌∙◌, Bool, true, false, ◌||◌, not, ok, throw_if, throw_if_ok,
  check_value, bind_value, ok_injective, ltb, ◌==◌, any, length, JsString, str_eq, str_eq_iff,
  str_eq_refl, arith, Bool-cases, inl, inr,
}
use throughline.Core.ScalarText.{array_from, is_unicode_scalar_string, unicode_scalar_length}
use throughline.Core.Whitespace.{is_refused_control, trim}
use throughline.Core.Whitespace.Laws.{trim-any, trim_idem}
use throughline.Core.StoredText.{unify_newlines}
use throughline.Core.StoredText.Laws.{
  NormalForm, has_return, unify_newlines-returns, unify_newlines-same,
}
use throughline.Truth.Validation.{predicate_registry, scalar_length}
use throughline.Truth.PredicateRegistry.{
  canonicalize_predicate_text, canonical_predicate_text_max_scalars, parse_canonical_predicate_text,
  text_equals,
}

-- A part of a text in normal form is in normal form, by Unicode's stability of substrings.
pub record PartsNormal (nfc : JsString → JsString) : Type 0 where
  pub trimmed : (s : JsString) → nfc s ≡ s → nfc (trim s) ≡ trim s

module _ (nfc : JsString → JsString) where
  -- What a canonical text is.
  pub record IsCanonical (text : JsString) : Type 0 where
    pub scalars : is_unicode_scalar_string text ≡ true
    pub no_return : has_return text ≡ false
    pub normal : nfc text ≡ text
    pub is_trimmed : trim text ≡ text
    pub min_length : 1 ≤ length (array_from text)
    pub max_length : length (array_from text) ≤ 2000
    pub no_control : any is_refused_control (array_from text) ≡ false

  scalar_length_lem :
      (s : JsString) {n : ℕ}
      → scalar_length s ≡ ok n
      → (is_unicode_scalar_string s ≡ true) × (n ≡ length (array_from s))
  unfolding scalar_length unicode_scalar_length
  scalar_length_lem s h = elim (Bool-cases (is_unicode_scalar_string s)) [
    | inl e ↦ (e, ground (arith, e, h))
    | inr e ↦ absurd (ground (arith, e, h))
  ]

  -- The test of the length and of the characters.
  abbrev is_bad : ℕ → JsString → Bool
  is_bad n text =
      ltb n 1
      || (ltb canonical_predicate_text_max_scalars n || any is_refused_control (array_from text))

  good_parts :
      (n : ℕ) (text : JsString)
      → is_bad n text ≡ false
      → (1 ≤ n) × (n ≤ 2000) × (any is_refused_control (array_from text) ≡ false)
  unfolding canonical_predicate_text_max_scalars
  good_parts n text h = (ground (arith, h), ground (arith, h), ground (arith, h))

  canonicalize_parts :
      (input : JsString) {text : JsString}
      → canonicalize_predicate_text nfc input ≡ ok text
      → (text ≡ trim (nfc (unify_newlines input)))
        × (n : ℕ) × (scalar_length text ≡ ok n)
        × (is_bad n text ≡ false)
  unfolding canonicalize_predicate_text
  canonicalize_parts input h =
      let canonical = trim (nfc (unify_newlines input)) in
      let (valid, h1) =
        check_value (throw_if (not (is_unicode_scalar_string input)) predicate_registry) _ h in
      let (n, at_n, h2) = bind_value (scalar_length canonical) _ h1 in
      let (good, h3) = check_value (throw_if (is_bad n canonical) predicate_registry) _ h2 in
      let same = ok_injective h3 in
      (
        sym same,
        n,
        subst (λ t. scalar_length t ≡ ok n) same at_n,
        subst (λ t. is_bad n t ≡ false) same
            (throw_if_ok (is_bad n canonical) predicate_registry good),
      )

  scalar_length-of :
      (s : JsString)
      → is_unicode_scalar_string s ≡ true
      → scalar_length s ≡ ok (length (array_from s))
  unfolding scalar_length unicode_scalar_length
  scalar_length-of s e = ground (arith, e)

  is_bad-of : (text : JsString) → IsCanonical text → is_bad (length (array_from text)) text ≡ false
  unfolding canonical_predicate_text_max_scalars
  is_bad-of text c = ground (arith, c.min_length, c.max_length, c.no_control)

  canonicalize_at :
      (input text : JsString)
      → is_unicode_scalar_string input ≡ true
      → trim (nfc (unify_newlines input)) ≡ text
      → scalar_length text ≡ ok (length (array_from text))
      → is_bad (length (array_from text)) text ≡ false
      → canonicalize_predicate_text nfc input ≡ ok text
  unfolding canonicalize_predicate_text
  canonicalize_at input text valid same at_n good = rw (valid, same, at_n, good) refl

  -- A canonical text passes as it is.
  pub parse_canonical-of :
      (text : JsString) → IsCanonical text → parse_canonical_predicate_text nfc text ≡ ok text
  unfolding parse_canonical_predicate_text
  parse_canonical-of text c =
      rw
        (
          canonicalize_at text text c.scalars
              (ap trim (ap nfc (unify_newlines-same text c.no_return) ∙ c.normal) ∙ c.is_trimmed)
              (scalar_length-of text c.scalars) (is_bad-of text c),
          str_eq_refl text,
        )
        refl

  module _ (form : NormalForm nfc) (parts : PartsNormal nfc) where
    canonicalize-IsCanonical :
        (input text : JsString) → canonicalize_predicate_text nfc input ≡ ok text → IsCanonical text
    canonicalize-IsCanonical input text h =
        let (same, n, at_n, good) = canonicalize_parts input h in
        let (scalars, length_n) = scalar_length_lem text at_n in
        let (low, high, controls) = good_parts n text good in
        let lines = nfc (unify_newlines input) in
        record {
          scalars = scalars;
          no_return =
              subst (λ t. has_return t ≡ false) (sym same)
                (trim-any (λ u. u == 13) lines (form.no_return _ (unify_newlines-returns input)));
          normal = subst (λ t. nfc t ≡ t) (sym same) (parts.trimmed lines (form.idempotent _));
          is_trimmed = subst (λ t. trim t ≡ t) (sym same) (trim_idem lines);
          min_length = omega (arith, low, length_n);
          max_length = omega (arith, high, length_n);
          no_control = controls;
        }

    -- Given that behaviour of NFC, and that a trimmed text in normal form is in normal form, what
    -- `canonicalizePredicateText` returns has well-formed scalars, 1 to 2,000 of them, no carriage
    -- return and no refused control character, is in normal form and trimmed; and
    -- `parseCanonicalPredicateText` accepts it unchanged.
    pub canonicalize-parse :
        (input text : JsString)
        → canonicalize_predicate_text nfc input ≡ ok text
        → IsCanonical text × (parse_canonical_predicate_text nfc text ≡ ok text)
    canonicalize-parse input text h =
        let c = canonicalize-IsCanonical input text h in (c, parse_canonical-of text c)

  -- What parses as canonical is returned as it is.
  pub parse_canonical-same :
      (input : JsString) {text : JsString}
      → parse_canonical_predicate_text nfc input ≡ ok text
      → text ≡ input
  unfolding parse_canonical_predicate_text
  parse_canonical-same input h =
      let (canonical, at_canonical, h1) = bind_value (canonicalize_predicate_text nfc input) _ h in
      let (same, h2) =
        check_value (throw_if (not (str_eq canonical input)) predicate_registry) _ h1 in
      let differs = throw_if_ok (not (str_eq canonical input)) predicate_registry same in
      sym (ok_injective h2) ∙ (str_eq_iff canonical input).0 (ground (arith, differs))

  -- The comparison of two texts parses both, and says whether they are equal.
  pub text_equals_lem :
      (left right : JsString) {same : Bool}
      → text_equals nfc left right ≡ ok same
      → same ≡ str_eq left right
  unfolding text_equals
  text_equals_lem left right h =
      let (a, at_a, h1) = bind_value (parse_canonical_predicate_text nfc left) _ h in
      let (b, at_b, h2) = bind_value (parse_canonical_predicate_text nfc right) _ h1 in
      sym (ok_injective h2)
      ∙ ap (λ x. str_eq x b) (parse_canonical-same left at_a)
      ∙ ap (str_eq left) (parse_canonical-same right at_b)
