-- ===== src/Truth/AcceptedFact/Supports.antt =====
-- What the loop over the claims of a fact asks of them (packages/truth-ledger/src/types.ts).
use throughline.Prelude.{
  ℕ, ◌≡◌, true, false, not, Option, List, [], ◌∷◌, ok, throw_if, throw_if_ok, check_value,
  bind_value, All, JsString, includes, str_eq, str_eq_iff, arith, List,
}
use throughline.Truth.Validation.{contract}
use throughline.Truth.SourceSpan.{same_place, same_type}
use throughline.Truth.PredicateRegistry.{same_predicate, text_equals}
use throughline.Truth.PredicateRegistry.Laws.{text_equals_lem}
use throughline.Truth.AcceptedFact.{Claim, has_open_status, same_time}
use throughline.Truth.AcceptedFact.Construct.{
  check_claim, check_claims, check_texts, has_claim_formats, is_alike, is_spanned,
}

-- No claim has the identifier of an earlier one, or one of those already seen.
abbrev pub Fresh : List JsString → List Claim → Type 0
Fresh seen [] = Unit
Fresh seen (c ∷ cs) = (includes seen c.id ≡ false) × Fresh (c.id ∷ seen) cs

module _ (nfc : JsString → JsString) (parse_date : JsString → Option ℕ) where
  -- A claim that supports the same fact as the first one.
  pub record Supports (first claim : Claim) : Type 0 where
    pub formats : has_claim_formats nfc parse_date claim ≡ true
    pub is_open_claim : has_open_status claim.status ≡ true
    pub place : same_place claim.place first.place ≡ true
    pub subject_type : same_type claim.subject_type first.subject_type ≡ true
    pub subject_id : claim.subject_id ≡ first.subject_id
    pub predicate : same_predicate claim.predicate first.predicate ≡ true
    pub canonical_value : claim.canonical_value ≡ first.canonical_value
    pub normalized_text : claim.normalized_text ≡ first.normalized_text
    pub valid_from : same_time claim.valid_from first.valid_from ≡ true
    pub valid_to : same_time claim.valid_to first.valid_to ≡ true
    pub span_type : same_type claim.source_span.subject.type claim.subject_type ≡ true
    pub span_subject : claim.source_span.subject.id ≡ claim.subject_id
    pub span_place : same_place claim.source_span.place claim.place ≡ true

  check_texts-same :
      (first claim : Claim)
      → check_texts nfc parse_date first claim ≡ ok tt
      → (claim.canonical_value ≡ first.canonical_value)
        × (claim.normalized_text ≡ first.normalized_text)
  unfolding check_texts
  check_texts-same first claim h =
      let (a, at_a, h1) =
        bind_value (text_equals nfc claim.canonical_value first.canonical_value) _ h in
      let (same_a, h2) = check_value (throw_if (not a) contract) _ h1 in
      let (b, at_b, h3) =
        bind_value (text_equals nfc claim.normalized_text first.normalized_text) _ h2 in
      let is_a = throw_if_ok (not a) contract same_a in
      let is_b = throw_if_ok (not b) contract h3 in
      let eq_a = text_equals_lem nfc claim.canonical_value first.canonical_value at_a in
      let eq_b = text_equals_lem nfc claim.normalized_text first.normalized_text at_b in
      (
        (str_eq_iff claim.canonical_value first.canonical_value).0 (ground (arith, is_a, eq_a)),
        (str_eq_iff claim.normalized_text first.normalized_text).0 (ground (arith, is_b, eq_b)),
      )

  alike_parts :
      (first claim : Claim) (seen : List JsString)
      → not (is_alike first seen claim) ≡ false
      → (includes seen claim.id ≡ false)
        × (has_open_status claim.status ≡ true)
        × (same_place claim.place first.place ≡ true)
        × (same_type claim.subject_type first.subject_type ≡ true)
        × (str_eq claim.subject_id first.subject_id ≡ true)
        × (same_predicate claim.predicate first.predicate ≡ true)
  unfolding is_alike
  alike_parts first claim seen h = (
    ground (arith, h),
    ground (arith, h),
    ground (arith, h),
    ground (arith, h),
    ground (arith, h),
    ground (arith, h),
  )

  spanned_parts :
      (first claim : Claim)
      → not (is_spanned first claim) ≡ false
      → (same_time claim.valid_from first.valid_from ≡ true)
        × (same_time claim.valid_to first.valid_to ≡ true)
        × (same_type claim.source_span.subject.type claim.subject_type ≡ true)
        × (str_eq claim.source_span.subject.id claim.subject_id ≡ true)
        × (same_place claim.source_span.place claim.place ≡ true)
  unfolding is_spanned
  spanned_parts first claim h = (
    ground (arith, h),
    ground (arith, h),
    ground (arith, h),
    ground (arith, h),
    ground (arith, h),
  )

  check_claim-Supports :
      (first : Claim) (seen : List JsString) (claim : Claim)
      → check_claim nfc parse_date first seen claim ≡ ok tt
      → (includes seen claim.id ≡ false) × Supports first claim
  unfolding check_claim
  check_claim-Supports first seen claim h =
      let (formats, h1) =
        check_value (throw_if (not (has_claim_formats nfc parse_date claim)) contract) _ h in
      let (alike, h2) = check_value (throw_if (not (is_alike first seen claim)) contract) _ h1 in
      let (texts, h3) = check_value (check_texts nfc parse_date first claim) _ h2 in
      let (spanned, h4) = check_value (throw_if (not (is_spanned first claim)) contract) _ h3 in
      let is_formed = throw_if_ok (not (has_claim_formats nfc parse_date claim)) contract formats in
      let (new, open_status, place, type, id, predicate) =
        alike_parts first claim seen
          (throw_if_ok (not (is_alike first seen claim)) contract alike) in
      let (from, to, span_type, span_id, span_place) =
        spanned_parts first claim (throw_if_ok (not (is_spanned first claim)) contract spanned) in
      let (value, text) = check_texts-same first claim texts in
      (
        new,
        record {
          formats = ground (arith, is_formed);
          is_open_claim = open_status;
          place = place;
          subject_type = type;
          subject_id = (str_eq_iff claim.subject_id first.subject_id).0 id;
          predicate = predicate;
          canonical_value = value;
          normalized_text = text;
          valid_from = from;
          valid_to = to;
          span_type = span_type;
          span_subject = (str_eq_iff claim.source_span.subject.id claim.subject_id).0 span_id;
          span_place = span_place;
        },
      )

  pub check_claims-All :
      (first : Claim) (seen : List JsString) (claims : List Claim)
      → check_claims nfc parse_date first seen claims ≡ ok tt
      → Fresh seen claims × All (Supports first) claims
  unfolding check_claims
  check_claims-All first seen [] h = (tt, tt)
  check_claims-All first seen (claim ∷ claims) h =
      let (one, rest) = check_value (check_claim nfc parse_date first seen claim) _ h in
      let (new, supports) = check_claim-Supports first seen claim one in
      let (fresh, all_rest) = check_claims-All first (claim.id ∷ seen) claims rest in
      ((new, fresh), (supports, all_rest))
