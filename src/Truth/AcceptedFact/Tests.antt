-- ===== src/Truth/AcceptedFact/Tests.antt =====
-- packages/truth-ledger/src/types.ts: a fact made of two claims.
use throughline.Prelude.{
  ℕ, ◌≡◌, refl, true, false, All, ◌↔◌, Option, none, some, [], ◌∷◌, ok, JsString, units, str_eq,
  includes, sort,
}
use throughline.Core.AccessClass.{
  can_read_access_class, max_access_class, public, restricted, workspace,
}
use throughline.Core.ScalarText.{array_from, is_unicode_scalar_string, unicode_scalar_length}
use throughline.Core.Whitespace.{is_refused_control, trim}
use throughline.Core.StoredText.{unify_newlines}
use throughline.Truth.Validation.{is_uuid_reference, is_uuid_v7, require_uuid_v7, scalar_length}
use throughline.Truth.Timestamp.{is_domain_notification_timestamp}
use throughline.Truth.Confidence.{
  Confidence, strong, weak, calculate_accepted_fact_confidence, validate_claims, validate_each,
  valid_claims, invalid_claims, strongest_rank, confidence_at_rank, confidence_rank, ids_at,
  apply_lowering, unlowered,
}
use throughline.Truth.SourceSpan.{Place, SubjectType, VerifiedSpan, is_place, same_place, same_type}
use throughline.Truth.PredicateRegistry.{
  AuthorityBasis, Predicate, canonicalize_predicate_text, parse_canonical_predicate_text,
  resolve_predicate_definition, same_predicate, text_equals,
}
use throughline.Truth.AcceptedFact.{
  AcceptanceScope, AcceptedFact, Claim, ClaimStatus, FactInput, FactStatus, has_open_status,
  is_positive_integer, is_safe_reference, passes, same_time,
}
use throughline.Truth.AcceptedFact.Construct.{
  construct_accepted_fact, has_claim_formats, has_fact_formats, has_optional_formats, is_alike,
  is_authorized, is_spanned, selected, supporting_ids,
}
use throughline.Truth.AcceptedFact.Laws.{IsFactOf, ReadsClaim, construct-IsFactOf, construct-reads}

abbrev nfc : JsString → JsString
nfc s = s

abbrev parse_date : JsString → Option ℕ
parse_date s = some 0

abbrev first_id : JsString
first_id = units "00000000-0000-7000-8000-000000000001"

abbrev second_id : JsString
second_id = units "00000000-0000-7000-8000-000000000002"

abbrev subject_id : JsString
subject_id = units "00000000-0000-7000-8000-000000000003"

abbrev fact_id : JsString
fact_id = units "00000000-0000-7000-8000-000000000004"

abbrev place : Place
place = record { tenant_id = first_id; workspace_id = first_id; space_id = first_id }

abbrev now : JsString
now = units "2026-02-28T10:00:00.5Z"

abbrev span : VerifiedSpan
span = record {
  subject = record { type = SubjectType.initiative; id = subject_id; expected_version = 1 };
  place = place;
  source_artifact_id = first_id;
  source_chunk_id = second_id;
  source_version = 1;
  chunk_version = 1;
  start_offset = 0;
  end_offset = 2;
  excerpt = units "Go";
  source_content_hash = units "h";
  source_normalized_content_hash = units "h";
  chunk_content_hash = units "h";
  excerpt_hash = units "h";
  effective_access_class = restricted;
}

abbrev claim : JsString → Confidence → Claim
claim id confidence = record {
  id = id;
  version = 1;
  place = place;
  subject_type = SubjectType.initiative;
  subject_id = subject_id;
  predicate = Predicate.initiative_primary_objective;
  canonical_value = units "Go";
  normalized_text = units "Go";
  source_span = span;
  asserted_by_id = first_id;
  confidence = confidence;
  valid_from = none;
  valid_to = none;
  observed_at = some now;
  status = ClaimStatus.proposed;
  conflict_group_id = none;
  access_class = workspace;
  created_at = now;
}

abbrev input : FactInput
input = record {
  id = fact_id;
  claims = claim second_id weak ∷ claim first_id strong ∷ [];
  subject_access_class = public;
  explicit_policy_access_class = workspace;
  accepted_by_user_id = first_id;
  accepted_by_membership_id = second_id;
  acceptance_scope = AcceptanceScope.initiative;
  authority_basis = AuthorityBasis.initiative_owner;
  policy_version = units "policy.v1";
  recorded_at = now;
  created_at = now;
  supersedes_fact_id = none;
  confidence_lowering = none;
}

abbrev fact : AcceptedFact
fact = record {
  id = fact_id;
  version = 1;
  place = place;
  subject_type = SubjectType.initiative;
  subject_id = subject_id;
  predicate = Predicate.initiative_primary_objective;
  canonical_value = units "Go";
  normalized_text = units "Go";
  supporting_claim_ids = first_id ∷ second_id ∷ [];
  confidence_decision = record {
    confidence = strong;
    strongest_supporting_confidence = strong;
    strongest_supporting_claim_ids = first_id ∷ [];
    selected_valid_claim_ids = first_id ∷ second_id ∷ [];
    excluded_invalid_claim_ids = [];
    valid_support_count = 2;
    human_lowered = false;
    lowering = none;
  };
  valid_from = none;
  valid_to = none;
  recorded_at = now;
  status = FactStatus.current;
  supersedes_fact_id = none;
  access_class = restricted;
  accepted_by_user_id = first_id;
  accepted_by_membership_id = second_id;
  acceptance_scope = AcceptanceScope.initiative;
  authority_basis = AuthorityBasis.initiative_owner;
  policy_version = units "policy.v1";
  created_at = now;
}

accepts : construct_accepted_fact nfc parse_date input ≡ ok fact
unfolding construct_accepted_fact is_uuid_v7 passes resolve_predicate_definition same_type
    parse_canonical_predicate_text canonicalize_predicate_text is_unicode_scalar_string
    scalar_length unicode_scalar_length trim unify_newlines array_from is_refused_control str_eq
    text_equals has_claim_formats is_positive_integer is_place is_uuid_reference
    is_domain_notification_timestamp is_alike includes has_open_status same_place same_predicate
    is_spanned same_time has_optional_formats is_authorized selected supporting_ids sort
    max_access_class has_fact_formats is_safe_reference calculate_accepted_fact_confidence
    validate_claims validate_each require_uuid_v7 valid_claims invalid_claims strongest_rank
    confidence_at_rank confidence_rank ids_at apply_lowering unlowered
accepts = refl

construct-IsFactOf_example : IsFactOf nfc parse_date input fact
construct-IsFactOf_example = construct-IsFactOf nfc parse_date input fact accepts

construct-reads_example : (can_read_access_class workspace restricted ≡ true) ↔ (
    (can_read_access_class workspace public ≡ true)
    × (can_read_access_class workspace workspace ≡ true)
    × All (ReadsClaim workspace) (claim second_id weak ∷ claim first_id strong ∷ []))
construct-reads_example = construct-reads nfc parse_date input fact workspace accepts
