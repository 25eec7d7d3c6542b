-- ===== src/Truth/AcceptedFact/Construct.antt =====
-- packages/truth-ledger/src/types.ts: `constructAcceptedFactAtTrustedBoundary`.
use throughline.Prelude.{
  ℕ, Bool, true, false, ◌&&◌, not, Option, none, some, List, [], ◌∷◌, map, Result, ok, err, ◌>>=◌,
  ◌>>◌, throw_if, ltb, length, JsString, str_eq, includes, sort, if◌then◌else◌,
}
use throughline.Core.AccessClass.{AccessClass, max_access_class}
use throughline.Truth.Validation.{Fault, contract, is_uuid_v7, is_uuid_reference}
use throughline.Truth.Confidence.{
  ConfidenceResult, SelectedClaim, calculate_accepted_fact_confidence,
}
use throughline.Truth.SourceSpan.{
  SubjectType, activity, initiative, is_place, same_place, same_type,
}
use throughline.Truth.Timestamp.{is_domain_notification_timestamp}
use throughline.Truth.PredicateRegistry.{
  AuthorityBasis, activity_owner, initiative_owner, parse_canonical_predicate_text,
  resolve_predicate_definition, same_predicate, text_equals,
}
use throughline.Truth.AcceptedFact.{
  AcceptanceScope, AcceptedFact, Claim, FactInput, FactStatus, engagement, has_open_status,
  is_positive_integer, is_safe_reference, passes, same_time,
}

-- `acceptanceScope` and `authorityBasis` are those of the type of subject.
unfoldable pub is_authorized : SubjectType → AcceptanceScope → AuthorityBasis → Bool
is_authorized activity engagement activity_owner = true
is_authorized initiative AcceptanceScope.initiative initiative_owner = true
is_authorized _ _ _ = false

-- The conditions of a claim before its texts are compared: it is new, open, and about the same.
unfoldable pub is_alike : Claim → List JsString → Claim → Bool
is_alike first seen claim =
    not (includes seen claim.id)
    && (has_open_status claim.status
        && (same_place claim.place first.place
            && (same_type claim.subject_type first.subject_type
                && (str_eq claim.subject_id first.subject_id
                    && same_predicate claim.predicate first.predicate))))

-- The conditions after that: the same time of validity, and a span about the claim's subject.
unfoldable pub is_spanned : Claim → Claim → Bool
is_spanned first claim =
    same_time claim.valid_from first.valid_from
    && (same_time claim.valid_to first.valid_to
        && (same_type claim.source_span.subject.type claim.subject_type
            && (str_eq claim.source_span.subject.id claim.subject_id
                && same_place claim.source_span.place claim.place)))

-- The claims as `calculateAcceptedFactConfidence` takes them.
unfoldable pub selected : List Claim → List SelectedClaim
selected claims =
    map (λ (c : Claim). record { claim_id = c.id; confidence = c.confidence; valid = true }) claims

unfoldable pub supporting_ids : List Claim → List JsString
supporting_ids claims = map (λ (c : Claim). c.id) claims

-- `claims.flatMap(({ accessClass, sourceSpan }) => [accessClass, sourceSpan.effectiveAccessClass])`
unfoldable pub claim_classes : List Claim → List AccessClass
claim_classes [] = []
claim_classes (c ∷ cs) = c.access_class ∷ c.source_span.effective_access_class ∷ claim_classes cs

-- `maxAccessClass` of values that are never none
unfoldable pub fact_class : FactInput → Result Fault AccessClass
unfolding claim_classes
fact_class input =
    elim (max_access_class (
      input.subject_access_class
      ∷ input.explicit_policy_access_class
      ∷ claim_classes input.claims)) [ ok top ↦ ok top | err e ↦ err contract ]

-- `supersedesFactId === factId`
unfoldable pub supersedes_itself : Option JsString → JsString → Bool
supersedes_itself none id = false
supersedes_itself (some other) id = str_eq other id

-- The parameters are NFC and `Date.parse`.
module _ (nfc : JsString → JsString) (parse_date : JsString → Option ℕ) where
  abbrev is_timestamp : JsString → Bool
  is_timestamp = is_domain_notification_timestamp parse_date

  unfoldable pub has_claim_formats : Claim → Bool
  has_claim_formats claim =
      is_uuid_v7 claim.id
      && (is_positive_integer claim.version
          && (is_place claim.place
              && (is_uuid_v7 claim.subject_id
                  && (is_uuid_reference claim.asserted_by_id && is_timestamp claim.created_at))))

  unfoldable pub has_optional_formats : Claim → Bool
  has_optional_formats claim =
      passes is_timestamp claim.valid_from
      && (passes is_timestamp claim.valid_to
          && (passes is_timestamp claim.observed_at && passes is_uuid_v7 claim.conflict_group_id))

  unfoldable pub check_texts : Claim → Claim → Result Fault (Unit {0})
  check_texts first claim = do
    same_value ← text_equals nfc claim.canonical_value first.canonical_value
    throw_if (not same_value) contract
    same_text ← text_equals nfc claim.normalized_text first.normalized_text
    throw_if (not same_text) contract

  -- One round of the loop over the claims.
  unfoldable pub check_claim : Claim → List JsString → Claim → Result Fault (Unit {0})
  unfolding check_texts
  check_claim first seen claim = do
    throw_if (not (has_claim_formats claim)) contract
    throw_if (not (is_alike first seen claim)) contract
    check_texts first claim
    throw_if (not (is_spanned first claim)) contract
    throw_if (not (has_optional_formats claim)) contract

  unfoldable pub check_claims : Claim → List JsString → List Claim → Result Fault (Unit {0})
  unfolding check_claim
  check_claims first seen [] = ok tt
  check_claims first seen (claim ∷ claims) = do
    check_claim first seen claim
    check_claims first (claim.id ∷ seen) claims

  -- The definition of the first claim's predicate, and its texts.
  unfoldable pub check_first : Claim → Result Fault (Unit {0})
  check_first first = do
    definition ← resolve_predicate_definition (some first.predicate) (some first.subject_type)
    value ← parse_canonical_predicate_text nfc first.canonical_value
    text ← parse_canonical_predicate_text nfc first.normalized_text
    same ← text_equals nfc first.canonical_value first.normalized_text
    throw_if (not same) contract

  -- `Date.parse(validTo) < Date.parse(validFrom)`
  unfoldable pub ends_early : Option JsString → Option JsString → Bool
  ends_early none valid_to = false
  ends_early (some from) none = false
  ends_early (some from) (some to) = elim (parse_date to) [
    | none ↦ false
    | some end ↦ elim (parse_date from) [ none ↦ false | some start ↦ ltb end start ]
  ]

  -- The formats of the fields that the fact takes from the input.
  unfoldable pub has_fact_formats : FactInput → Bool
  has_fact_formats input =
      is_timestamp input.recorded_at
      && (is_uuid_reference input.accepted_by_user_id
          && (is_uuid_reference input.accepted_by_membership_id
              && (is_safe_reference input.policy_version && is_timestamp input.created_at)))

  unfoldable pub fact_of : FactInput → Claim → ConfidenceResult → AccessClass → AcceptedFact
  fact_of input first decision access_class = record {
    id = input.id;
    version = 1;
    place = first.place;
    subject_type = first.subject_type;
    subject_id = first.subject_id;
    predicate = first.predicate;
    canonical_value = first.canonical_value;
    normalized_text = first.normalized_text;
    supporting_claim_ids = sort (supporting_ids input.claims);
    confidence_decision = decision;
    valid_from = first.valid_from;
    valid_to = first.valid_to;
    recorded_at = input.recorded_at;
    status = FactStatus.current;
    supersedes_fact_id = input.supersedes_fact_id;
    access_class = access_class;
    accepted_by_user_id = input.accepted_by_user_id;
    accepted_by_membership_id = input.accepted_by_membership_id;
    acceptance_scope = input.acceptance_scope;
    authority_basis = input.authority_basis;
    policy_version = input.policy_version;
    created_at = input.created_at;
  }

  unfoldable pub construct_from : FactInput → Claim → Result Fault AcceptedFact
  unfolding check_first check_claims ends_early fact_class fact_of supersedes_itself
  construct_from input first = do
    throw_if (not (is_uuid_v7 input.id)) contract
    throw_if (not (passes is_uuid_v7 input.supersedes_fact_id)) contract
    throw_if (supersedes_itself input.supersedes_fact_id input.id) contract
    check_first first
    check_claims first [] input.claims
    throw_if (ends_early first.valid_from first.valid_to) contract
    throw_if (not (is_authorized first.subject_type input.acceptance_scope input.authority_basis))
        contract
    decision ←
        calculate_accepted_fact_confidence nfc (selected input.claims) input.confidence_lowering
    access_class ← fact_class input
    throw_if (not (has_fact_formats input)) contract
    ok (fact_of input first decision access_class)

  unfoldable pub construct_accepted_fact : FactInput → Result Fault AcceptedFact
  unfolding construct_from
  construct_accepted_fact input = elim input.claims [
    | [] ↦ err contract
    | first ∷ rest ↦
        if ltb 100 (length input.claims) then err contract else construct_from input first
  ]
