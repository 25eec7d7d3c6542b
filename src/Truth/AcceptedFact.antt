-- ===== src/Truth/AcceptedFact.antt =====
-- packages/truth-ledger/src/types.ts: claims, and the construction of an accepted fact from them
-- (`constructAcceptedFactAtTrustedBoundary`). NFC and what `Date.parse` gives are the parameters `nfc`
-- and `parse_date`. The values of an enumeration, and that a claim's span was verified, hold by type.
pub mod Construct
pub mod Supports
pub mod Laws
mod Tests
use throughline.Prelude.{
  ℕ, Bool, true, false, ◌&&◌, ◌||◌, not, Option, none, some, List, [], ◌∷◌, ◌++◌, map, Result, ok,
  err, ◌>>=◌, ◌>>◌, throw_if, leb, ltb, ◌==◌, ◌^◌, length, JsString, str_eq, includes, sort, all,
  if◌then◌else◌,
}
use throughline.Core.AccessClass.{AccessClass, max_access_class}
use throughline.Truth.Validation.{Fault, contract, is_uuid_v7, is_uuid_reference, require_uuid_v7}
use throughline.Truth.Confidence.{
  Confidence, ConfidenceResult, LoweringRequest, SelectedClaim, calculate_accepted_fact_confidence,
}
use throughline.Truth.SourceSpan.{Place, SubjectType, VerifiedSpan}
use throughline.Truth.Timestamp.{is_digit, is_domain_notification_timestamp}
use throughline.Truth.PredicateRegistry.{
  AuthorityBasis, Predicate, parse_canonical_predicate_text, resolve_predicate_definition,
  same_predicate, text_equals,
}

pub data ClaimStatus : Type 0 where
  proposed accepted rejected conflicted superseded : ClaimStatus

pub data FactStatus : Type 0 where
  current contested superseded revoked : FactStatus

pub data AcceptanceScope : Type 0 where
  engagement initiative : AcceptanceScope

pub record Claim : Type 0 where
  pub id : JsString
  pub version : ℕ
  pub place : Place
  pub subject_type : SubjectType
  pub subject_id : JsString
  pub predicate : Predicate
  pub canonical_value : JsString
  pub normalized_text : JsString
  pub source_span : VerifiedSpan
  pub asserted_by_id : JsString
  pub confidence : Confidence
  pub valid_from : Option JsString
  pub valid_to : Option JsString
  pub observed_at : Option JsString
  pub status : ClaimStatus
  pub conflict_group_id : Option JsString
  pub access_class : AccessClass
  pub created_at : JsString

pub record FactInput : Type 0 where
  pub id : JsString
  pub claims : List Claim
  pub subject_access_class : AccessClass
  pub explicit_policy_access_class : AccessClass
  pub accepted_by_user_id : JsString
  pub accepted_by_membership_id : JsString
  pub acceptance_scope : AcceptanceScope
  pub authority_basis : AuthorityBasis
  pub policy_version : JsString
  pub recorded_at : JsString
  pub created_at : JsString
  pub supersedes_fact_id : Option JsString
  pub confidence_lowering : Option LoweringRequest

pub record AcceptedFact : Type 0 where
  pub id : JsString
  pub version : ℕ
  pub place : Place
  pub subject_type : SubjectType
  pub subject_id : JsString
  pub predicate : Predicate
  pub canonical_value : JsString
  pub normalized_text : JsString
  pub supporting_claim_ids : List JsString
  pub confidence_decision : ConfidenceResult
  pub valid_from : Option JsString
  pub valid_to : Option JsString
  pub recorded_at : JsString
  pub status : FactStatus
  pub supersedes_fact_id : Option JsString
  pub access_class : AccessClass
  pub accepted_by_user_id : JsString
  pub accepted_by_membership_id : JsString
  pub acceptance_scope : AcceptanceScope
  pub authority_basis : AuthorityBasis
  pub policy_version : JsString
  pub created_at : JsString

-- `Number.isSafeInteger(input) && input >= 1`
unfoldable pub is_positive_integer : ℕ → Bool
is_positive_integer n = leb 1 n && ltb n (2 ^ 53)

-- SAFE_REFERENCE_PATTERN
unfoldable pub is_reference_start : ℕ → Bool
unfolding is_digit
is_reference_start u = is_digit u || ((leb b'A' u && leb u b'Z') || (leb b'a' u && leb u b'z'))

unfoldable pub is_safe_reference : JsString → Bool
unfolding is_reference_start
is_safe_reference [] = false
is_safe_reference (u ∷ s) =
    is_reference_start u
    && (leb (length s) 199
        && all
            (λ c.
              is_reference_start c
              || (c == b'.' || (c == b'_' || (c == b':' || (c == b'/' || c == b'-')))))
            s)

unfoldable pub same_time : Option JsString → Option JsString → Bool
same_time none none = true
same_time (some a) (some b) = str_eq a b
same_time _ _ = false

-- `["proposed", "conflicted"].includes(claim.status)`
unfoldable pub has_open_status : ClaimStatus → Bool
has_open_status ClaimStatus.proposed = true
has_open_status ClaimStatus.conflicted = true
has_open_status _ = false

-- A format that is required of an optional value.
unfoldable pub passes : (JsString → Bool) → Option JsString → Bool
passes test none = true
passes test (some s) = test s
