-- ===== src/Truth/Validation.antt =====
-- packages/truth-ledger/src/validation.ts: the formats of identifiers, hashes and rationales. The
-- Unicode normal form NFC is the parameter `nfc`.
use throughline.Prelude.{
  arith, ◌≡◌, ℕ, zero, suc, Bool, true, false, ◌&&◌, ◌||◌, not, List, [], ◌∷◌, Result, ok, err,
  ◌>>=◌, ◌>>◌, throw_if, leb, ltb, ◌==◌, any, JsString, str_eq,
}
use throughline.Core.ScalarText.{array_from, unicode_scalar_length}
use throughline.Core.Whitespace.{trim, is_refused_control}

-- The errors that the package throws: TruthContractValidationError, PredicateRegistryError,
-- UnicodeScalarOffsetError, SourceTextPrimitiveError and VerifiedClaimSourceSpanError.
pub data Fault : Type 0 where
  contract predicate_registry scalar_offset source_text source_span : Fault

-- A regular expression of fixed width, `^[…][…]…$`, as the tests of its characters.
abbrev pub Template : Type 0
Template = List (ℕ → Bool)

unfoldable pub matches : Template → JsString → Bool
matches [] [] = true
matches (p ∷ ps) (u ∷ s) = p u && matches ps s
matches _ _ = false

unfoldable pub times : ℕ → (ℕ → Bool) → Template → Template
times zero p rest = rest
times (suc n) p rest = p ∷ times n p rest

unfoldable pub is_lower_hex : ℕ → Bool
is_lower_hex u = (leb b'0' u && leb u b'9') || (leb b'a' u && leb u b'f')

is_dash : ℕ → Bool
is_dash u = u == b'-'

is_variant : ℕ → Bool
is_variant u = u == b'8' || u == b'9' || u == b'a' || u == b'b'

-- A canonical lower-case UUID whose version digit passes the test.
unfoldable pub uuid_template : (ℕ → Bool) → Template
unfolding times is_lower_hex is_dash is_variant
uuid_template version = times 8 is_lower_hex (
    times 1 is_dash (
      times 4 is_lower_hex (
        times 1 is_dash (
          times 1 version (
            times 3 is_lower_hex (
              times 1 is_dash (
                times 1 is_variant
                  (times 3 is_lower_hex (times 1 is_dash (times 12 is_lower_hex []))))))))))

-- UUID_V7_PATTERN
unfoldable pub is_uuid_v7 : JsString → Bool
unfolding matches uuid_template
is_uuid_v7 s = matches (uuid_template (λ u. u == b'7')) s

-- CANONICAL_UUID_REFERENCE_PATTERN
unfoldable pub is_uuid_reference : JsString → Bool
unfolding matches uuid_template
is_uuid_reference s = matches (uuid_template (λ u. leb b'1' u && leb u b'8')) s

-- SHA256_PATTERN
unfoldable pub is_sha256 : JsString → Bool
unfolding matches times is_lower_hex
is_sha256 s = matches (times 64 is_lower_hex []) s

unfoldable pub require_uuid_v7 : JsString → Result Fault JsString
require_uuid_v7 input = do throw_if (not (is_uuid_v7 input)) contract; ok input

unfoldable pub require_uuid_reference : JsString → Result Fault JsString
require_uuid_reference input = do throw_if (not (is_uuid_reference input)) contract; ok input

unfoldable pub require_sha256 : JsString → Result Fault JsString
require_sha256 input = do throw_if (not (is_sha256 input)) contract; ok input

-- `unicodeScalarLength` where its error passes through the package.
unfoldable pub scalar_length : JsString → Result Fault ℕ
scalar_length s = elim (unicode_scalar_length s) [ ok n ↦ ok n | err e ↦ err scalar_offset ]

unfoldable pub require_canonical_rationale :
    (nfc : JsString → JsString) → JsString → Result Fault JsString
require_canonical_rationale nfc input = do
  throw_if (not (str_eq input (nfc input)) || not (str_eq (trim input) input)) contract
  n ← scalar_length input
  throw_if (ltb n 1 || ltb 2000 n || any is_refused_control (array_from input)) contract
  ok input

-- The requests that pass a `require` are those of its format.
pub require_uuid_v7-eq-ok :
    (s : JsString) {t : JsString} → require_uuid_v7 s ≡ ok t → (is_uuid_v7 s ≡ true) × (t ≡ s)
unfolding require_uuid_v7
require_uuid_v7-eq-ok s h = ground arith

pub require_uuid_reference-eq-ok :
    (s : JsString) {t : JsString}
    → require_uuid_reference s ≡ ok t
    → (is_uuid_reference s ≡ true) × (t ≡ s)
unfolding require_uuid_reference
require_uuid_reference-eq-ok s h = ground arith
