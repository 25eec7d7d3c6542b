-- ===== src/Truth/PredicateRegistry.antt =====
-- packages/truth-ledger/src/predicate-registry.ts: the predicates of the truth ledger and the
-- canonical texts that are their values. The Unicode normal form NFC is the parameter `nfc`. The
-- treatment of a predicate in views, which is data for their renderer, is left out.
pub mod Laws
mod Tests
use throughline.Prelude.{
  ℕ, Bool, true, false, ◌||◌, not, Option, none, some, Result, ok, err, ◌>>=◌, ◌>>◌, throw_if, ltb,
  any, JsString, units, str_eq, if◌then◌else◌,
}
use throughline.Core.ScalarText.{array_from, is_unicode_scalar_string}
use throughline.Core.Whitespace.{is_refused_control, trim}
use throughline.Core.StoredText.{unify_newlines}
use throughline.Truth.Validation.{Fault, predicate_registry, scalar_length}
use throughline.Truth.SourceSpan.{SubjectType, activity, initiative, same_type}

pub data Predicate : Type 0 where
  activity_outcome initiative_primary_objective : Predicate

unfoldable pub same_predicate : Predicate → Predicate → Bool
same_predicate activity_outcome activity_outcome = true
same_predicate initiative_primary_objective initiative_primary_objective = true
same_predicate _ _ = false

pub data ProposalSlotPolicy : Type 0 where
  multiple_open single_open : ProposalSlotPolicy

pub data AuthorityBasis : Type 0 where
  activity_owner initiative_owner : AuthorityBasis

pub record PredicateDefinition : Type 0 where
  pub predicate : Predicate
  pub allowed_subject_kind : SubjectType
  pub proposal_slot_policy : ProposalSlotPolicy
  pub authority_scope : AuthorityBasis

unfoldable pub registry : Predicate → PredicateDefinition
registry activity_outcome = record {
  predicate = activity_outcome;
  allowed_subject_kind = activity;
  proposal_slot_policy = multiple_open;
  authority_scope = activity_owner;
}
registry initiative_primary_objective = record {
  predicate = initiative_primary_objective;
  allowed_subject_kind = initiative;
  proposal_slot_policy = single_open;
  authority_scope = initiative_owner;
}

-- `B2_TRUTH_PREDICATES.includes(predicate)`
unfoldable pub predicate_of : JsString → Option Predicate
predicate_of text =
    if str_eq text (units "activity.outcome")
    then some activity_outcome
    else if str_eq text (units "initiative.primary_objective")
    then some initiative_primary_objective
    else none

-- `subjectKind !== undefined && definition.allowedSubjectKind !== subjectKind`
unfoldable pub is_other_kind : SubjectType → Option SubjectType → Bool
is_other_kind allowed none = false
is_other_kind allowed (some kind) = not (same_type allowed kind)

unfoldable pub resolve_predicate_definition :
    Option Predicate → Option SubjectType → Result Fault PredicateDefinition
unfolding registry is_other_kind
resolve_predicate_definition none subject_kind = err predicate_registry
resolve_predicate_definition (some predicate) subject_kind = do
  let definition = registry predicate
  throw_if (is_other_kind definition.allowed_subject_kind subject_kind) predicate_registry
  ok definition

unfoldable pub canonical_predicate_text_max_scalars : ℕ
canonical_predicate_text_max_scalars = 2000

-- The parameter is NFC.
module _ (nfc : JsString → JsString) where
  unfoldable pub canonicalize_predicate_text : JsString → Result Fault JsString
  unfolding canonical_predicate_text_max_scalars
  canonicalize_predicate_text input = do
    throw_if (not (is_unicode_scalar_string input)) predicate_registry
    let canonical = trim (nfc (unify_newlines input))
    n ← scalar_length canonical
    throw_if
        (ltb n 1
          || (ltb canonical_predicate_text_max_scalars n
              || any is_refused_control (array_from canonical)))
        predicate_registry
    ok canonical

  unfoldable pub parse_canonical_predicate_text : JsString → Result Fault JsString
  parse_canonical_predicate_text input = do
    canonical ← canonicalize_predicate_text input
    throw_if (not (str_eq canonical input)) predicate_registry
    ok canonical

  unfoldable pub text_equals : JsString → JsString → Result Fault Bool
  text_equals left right = do
    a ← parse_canonical_predicate_text left
    b ← parse_canonical_predicate_text right
    ok (str_eq a b)

  unfoldable pub text_conflicts : JsString → JsString → Result Fault Bool
  text_conflicts left right = do same ← text_equals left right; ok (not same)

  pub record PredicateAssertion : Type 0 where
    pub predicate : Predicate
    pub canonical_value : JsString
    pub normalized_text : JsString

  unfoldable pub parse_predicate_assertion :
      JsString → SubjectType → JsString → JsString → Result Fault PredicateAssertion
  unfolding predicate_of
  parse_predicate_assertion predicate subject_kind canonical_value normalized_text = do
    definition ← resolve_predicate_definition (predicate_of predicate) (some subject_kind)
    value ← parse_canonical_predicate_text canonical_value
    text ← parse_canonical_predicate_text normalized_text
    same ← text_equals value text
    throw_if (not same) predicate_registry
    ok (record {
      predicate = definition.predicate;
      canonical_value = value;
      normalized_text = text;
    })
