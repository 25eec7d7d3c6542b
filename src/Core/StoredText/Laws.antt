-- ===== src/Core/StoredText/Laws.antt =====
-- Line ends and byte order marks of stored texts (trust-primitives.ts).
use throughline.Prelude.{
  ℕ, ◌⊎◌, inl, inr, ◌≡◌, ◌≢◌, refl, sym, ap, ◌∙◌, true, false, Bool, [], ◌∷◌, ok, any, JsString,
  arith, ◌==◌, if◌then◌else◌, Bool-cases, not, ◌||◌, length, check_value, throw_if, throw_if_ok,
  ok_injective,
}
use throughline.Core.ScalarText.{is_unicode_scalar_string, is_lead, is_trail}
use throughline.Core.Whitespace.{trim}
use throughline.Core.StoredText.{
  unsupported_source, without_bom, unify_newlines, normalize_stored_source_text,
}

abbrev pub starts_with_bom : JsString → Bool
starts_with_bom [] = false
starts_with_bom (u ∷ s) = u == 0xfeff

-- A carriage return.
abbrev pub has_return : JsString → Bool
has_return s = any (λ u. u == 13) s

pub unify_newlines-returns : (s : JsString) → has_return (unify_newlines s) ≡ false
unfolding unify_newlines
unify_newlines-returns [] = refl
unify_newlines-returns (u ∷ []) = ground arith
unify_newlines-returns (u ∷ v ∷ s) =
    ground (arith, unify_newlines-returns s, unify_newlines-returns (v ∷ s))

pub unify_newlines-same : (s : JsString) → has_return s ≡ false → unify_newlines s ≡ s
unfolding unify_newlines
unify_newlines-same [] h = refl
unify_newlines-same (u ∷ []) h = ground arith
unify_newlines-same (u ∷ v ∷ s) h = ground (arith, unify_newlines-same (v ∷ s))

abbrev pub has_nul : JsString → Bool
has_nul s = any (λ u. u == 0) s

unify_newlines-nul : (s : JsString) → has_nul s ≡ false → has_nul (unify_newlines s) ≡ false
unfolding unify_newlines
unify_newlines-nul [] h = refl
unify_newlines-nul (u ∷ []) h = ground arith
unify_newlines-nul (u ∷ v ∷ s) h = ground (arith, unify_newlines-nul s, unify_newlines-nul (v ∷ s))

without_bom-nul : (s : JsString) → has_nul s ≡ false → has_nul (without_bom s) ≡ false
unfolding without_bom
without_bom-nul [] h = refl
without_bom-nul (u ∷ s) h = ground arith

without_bom-scalars :
    (s : JsString)
    → is_unicode_scalar_string s ≡ true
    → is_unicode_scalar_string (without_bom s) ≡ true
unfolding without_bom is_unicode_scalar_string is_lead is_trail
without_bom-scalars [] h = refl
without_bom-scalars (u ∷ []) h = ground arith
without_bom-scalars (u ∷ v ∷ s) h = ground arith

plain_cons :
    (u : ℕ) (s : JsString)
    → is_lead u ≡ false
    → is_trail u ≡ false
    → is_unicode_scalar_string (u ∷ s) ≡ is_unicode_scalar_string s
unfolding is_unicode_scalar_string
plain_cons u [] l t = ground (arith, l, t)
plain_cons u (v ∷ s) l t = ground (arith, l, t)

pair_cons :
    (u v : ℕ) (s : JsString)
    → is_lead u ≡ true
    → is_trail v ≡ true
    → is_unicode_scalar_string (u ∷ v ∷ s) ≡ is_unicode_scalar_string s
unfolding is_unicode_scalar_string
pair_cons u v s l t = ground (arith, l, t)

unify_cons :
    (u : ℕ) (s : JsString) → (u == 13) ≡ false → unify_newlines (u ∷ s) ≡ u ∷ unify_newlines s
unfolding unify_newlines
unify_cons u [] h = ground arith
unify_cons u (v ∷ s) h = ground arith

unify_return :
    (u v : ℕ) (s : JsString)
    → (u == 13) ≡ true
    → unify_newlines (u ∷ v ∷ s)
      ≡ 10 ∷ (if v == 10 then unify_newlines s else unify_newlines (v ∷ s))
unfolding unify_newlines
unify_return u v s h = ground arith

-- A well-formed text begins with a scalar of one unit or of two.
split_scalars :
    (u v : ℕ) (s : JsString)
    → is_unicode_scalar_string (u ∷ v ∷ s) ≡ true
    → ((is_lead u ≡ true) × (is_trail v ≡ true)) ⊎ ((is_lead u ≡ false) × (is_trail u ≡ false))
unfolding is_unicode_scalar_string
split_scalars u v s h = ground arith

surrogate_no_return : (u : ℕ) → (is_lead u || is_trail u) ≡ true → (u == 13) ≡ false
unfolding is_lead is_trail
surrogate_no_return u h = ground arith

return_plain : (u : ℕ) → (u == 13) ≡ true → (is_lead u ≡ false) × (is_trail u ≡ false)
unfolding is_lead is_trail
return_plain u h = ground arith

newline_plain : (u : ℕ) → (u == 10) ≡ true → (is_lead u ≡ false) × (is_trail u ≡ false)
unfolding is_lead is_trail
newline_plain u h = ground arith

one_return : (u : ℕ) → (u == 13) ≡ true → is_unicode_scalar_string (unify_newlines (u ∷ [])) ≡ true
unfolding unify_newlines is_unicode_scalar_string is_lead is_trail
one_return u h = ground arith

unify_newlines-scalars :
    (s : JsString)
    → is_unicode_scalar_string s ≡ true
    → is_unicode_scalar_string (unify_newlines s) ≡ true
unify_newlines-scalars [] h = unfold unify_newlines in h
unify_newlines-scalars (u ∷ []) h = elim (Bool-cases (u == 13)) [
  | inl ret ↦ one_return u ret
  | inr other ↦ rw (unify_cons u [] other) unfold unify_newlines in h
]
unify_newlines-scalars (u ∷ v ∷ s) h = elim (split_scalars u v s h) [
  | inl (l, t) ↦
      rw
        (
          unify_cons u (v ∷ s) (surrogate_no_return u (ground (arith, l))),
          unify_cons v s (surrogate_no_return v (ground (arith, t))),
          pair_cons u v (unify_newlines s) l t,
        )
        (unify_newlines-scalars s (sym (pair_cons u v s l t) ∙ h))
  | inr (l, t) ↦
      let tail = sym (plain_cons u (v ∷ s) l t) ∙ h in
      elim (Bool-cases (u == 13)) [
        | inr other ↦
            rw (unify_cons u (v ∷ s) other, plain_cons u (unify_newlines (v ∷ s)) l t)
              (unify_newlines-scalars (v ∷ s) tail)
        | inl ret ↦ elim (Bool-cases (v == 10)) [
          | inl lf ↦
              let (lv, tv) = newline_plain v lf in
              rw
                (
                  unify_return u v s ret,
                  lf,
                  plain_cons 10 (unify_newlines s) (newline_plain 10 refl).0
                      (newline_plain 10 refl).1,
                )
                (unify_newlines-scalars s (sym (plain_cons v s lv tv) ∙ tail))
          | inr no_lf ↦
              rw
                (
                  unify_return u v s ret,
                  no_lf,
                  plain_cons 10 (unify_newlines (v ∷ s)) (newline_plain 10 refl).0
                      (newline_plain 10 refl).1,
                )
                (unify_newlines-scalars (v ∷ s) tail)
        ]
      ]
]

without_bom-same : (s : JsString) → starts_with_bom s ≡ false → without_bom s ≡ s
unfolding without_bom
without_bom-same [] h = refl
without_bom-same (u ∷ s) h = ground arith

-- What is relied on of the normal form NFC: it is idempotent, and it makes no ill-formed text, no
-- NUL and no carriage return out of a text without them.
pub record NormalForm (nfc : JsString → JsString) : Type 0 where
  pub idempotent : (s : JsString) → nfc (nfc s) ≡ nfc s
  pub scalars :
      (s : JsString) → is_unicode_scalar_string s ≡ true → is_unicode_scalar_string (nfc s) ≡ true
  pub no_nul : (s : JsString) → has_nul s ≡ false → has_nul (nfc s) ≡ false
  pub no_return : (s : JsString) → has_return s ≡ false → has_return (nfc s) ≡ false

normalize_parts :
    (nfc : JsString → JsString) (input : JsString) {text : JsString}
    → normalize_stored_source_text nfc input ≡ ok text
    → (is_unicode_scalar_string input ≡ true)
      × (has_nul input ≡ false)
      × (text ≡ nfc (unify_newlines (without_bom input)))
      × ((length (trim text) == 0) ≡ false)
unfolding normalize_stored_source_text
normalize_parts nfc input {text} h =
    let (valid, h1) =
      check_value
        (throw_if (not (is_unicode_scalar_string input) || has_nul input) unsupported_source) _ h in
    let done = nfc (unify_newlines (without_bom input)) in
    let (full, h2) = check_value (throw_if (length (trim done) == 0) unsupported_source) _ h1 in
    let same = ok_injective h2 in
    let f = throw_if_ok (length (trim done) == 0) unsupported_source full in
    (ground (arith, valid), ground (arith, valid), sym same, rw same at f)

normalize_of :
    (nfc : JsString → JsString) (input : JsString)
    → is_unicode_scalar_string input ≡ true
    → has_nul input ≡ false
    → nfc (unify_newlines (without_bom input)) ≡ input
    → (length (trim input) == 0) ≡ false
    → normalize_stored_source_text nfc input ≡ ok input
unfolding normalize_stored_source_text
normalize_of nfc input scalars nul same full = rw (scalars, nul, same, full) refl

-- Given that behaviour of NFC, a normalized text is well-formed, has no NUL and no carriage return,
-- and is not all white space.
pub normalize_stored_source_text_clean :
    (nfc : JsString → JsString) (input text : JsString)
    → NormalForm nfc
    → normalize_stored_source_text nfc input ≡ ok text
    → (is_unicode_scalar_string text ≡ true)
      × (has_nul text ≡ false)
      × (has_return text ≡ false)
      × (length (trim text) ≢ 0)
normalize_stored_source_text_clean nfc input text form h =
    let (valid, nul, same, full) = normalize_parts nfc input h in
    let s = without_bom input in
    (
      rw same (form.scalars _ (unify_newlines-scalars s (without_bom-scalars input valid))),
      rw same (form.no_nul _ (unify_newlines-nul s (without_bom-nul input nul))),
      rw same (form.no_return _ (unify_newlines-returns s)),
      ground (arith, full),
    )

-- Given that behaviour of NFC, normalizing a normalized text again gives it back, unless it begins
-- with another byte order mark.
pub normalize_stored_source_text_again :
    (nfc : JsString → JsString) (input text : JsString)
    → NormalForm nfc
    → normalize_stored_source_text nfc input ≡ ok text
    → starts_with_bom text ≡ false
    → normalize_stored_source_text nfc text ≡ ok text
normalize_stored_source_text_again nfc input text form h no_bom =
    let (valid, nul, same, full) = normalize_parts nfc input h in
    let (scalars, clean, lines, _) = normalize_stored_source_text_clean nfc input text form h in
    normalize_of nfc text scalars clean
      (ap nfc (ap unify_newlines (without_bom-same text no_bom) ∙ unify_newlines-same text lines)
        ∙ ap nfc same
        ∙ form.idempotent _
        ∙ sym same)
      full
