-- ===== src/Db/ProductOutbox/Examples.antt =====
-- A product outbox event that is claimed, whose publication fails and succeeds, for the tests.
use throughline.Prelude.{
  str_eq, str_leb, ◌≡◌, refl, true, false, none, some, [], ◌∷◌, ok, JsString, units,
}
use throughline.Db.ProductOutbox.{
  Codec, Envelope, Scope, Handle, Row, PublicationState, is_claim_token, is_safe_owner, is_alnum,
  is_owner_char, is_lower_alnum, head_tail, in_scope, update_where, count_where, is_safe_code,
  validate_handle, is_malformed, validate_message_id, has_control_characters,
}
use throughline.Db.ProductOutbox.Claim.{
  ClaimOptions, ClaimEnv, claim_next, to_milliseconds, validate_scope, is_uuid,
  validate_claim_options, claim_statements, first_eligible, is_eligible, is_interrupted,
  create_claim_handle, is_chosen, claim_row, give_up, is_before,
}
use throughline.Truth.Validation.{matches, times}
use throughline.Core.ScalarText.{array_from, is_lead, is_trail}
use throughline.Core.Whitespace.{code_point}
use throughline.Db.ProductOutbox.Publish.{
  PublishEnv, PublishResult, Commit, publish_claimed, acknowledged, context_for_handle, send,
  locked_row, find_row, holds_claim, is_claim_of, row_matches_handle, end_transaction, finish,
  is_published, is_published_row, mark, mark_published, resolve,
}
use throughline.Db.ProductOutbox.Failure.{
  Failed, FailureKind, Recorded, record_failure, fail_claim, retry_delay_seconds, recorded,
  retry_row,
}
use throughline.Db.ProductOutbox.Contract.{
  row_checks, claim_check, publication_check, terminal_check, pending_retry_check,
}
use throughline.Db.ProductOutbox.Frame.{IsChecked, HasUniqueKeys}

abbrev pub tenant : JsString
tenant = units "11111111-1111-4111-8111-111111111111"

abbrev pub event : JsString
event = units "22222222-2222-4222-8222-222222222222"

abbrev pub plain_codec : Codec
plain_codec = record { parse = λ e. some e; serialize = λ e. e.content }

abbrev pub envelope : Envelope
envelope = record {
  event_id = event;
  tenant_id = tenant;
  workspace_id = tenant;
  space_id = tenant;
  event_type = units "trusted_objective.created";
  aggregate_type = units "objective";
  aggregate_id = tenant;
  aggregate_version = 1;
  causation_command_id = tenant;
  content = units "{}";
}

abbrev pub scope : Scope
scope = record {
  tenant_id = tenant;
  workspace_id = tenant;
  space_id = tenant;
  relay_service_principal_id = tenant;
  policy_version_id = units "policy-1";
}

abbrev pub new_row : Row
new_row = record {
  columns = envelope;
  relay_service_principal_id = tenant;
  policy_version_id = units "policy-1";
  created_at = 1000;
  publication_state = PublicationState.pending;
  publication_attempt = 0;
  next_attempt_at = 1000;
  claimed_at = none;
  claimed_by = none;
  claim_token = none;
  claim_expires_at = none;
  last_outcome_code = none;
  published_at = none;
  published_message_id = none;
  terminal_at = none;
}

abbrev pub token : JsString
token = units "abcdefghijklmnopqrstuvwxyzABCDEFGHIJKLMNOPQ"

abbrev pub options : ClaimOptions
options = record { claimed_by = units "relay-1"; lease_seconds = 30 }

abbrev pub claim_env : ClaimEnv
claim_env = record { role_ok = true; token = token; now = 2000500; locked = λ id. false }

abbrev pub handle : Handle
handle = record {
  event_id = event;
  scope = scope;
  event_type = units "trusted_objective.created";
  aggregate_type = units "objective";
  aggregate_id = tenant;
  aggregate_version = 1;
  causation_command_id = tenant;
  envelope = envelope;
  canonical_envelope = units "{}";
  publication_attempt = 1;
  claimed_by = units "relay-1";
  claim_token = token;
  claimed_at = 2000000;
  claim_expires_at = 32000000;
}

abbrev pub claimed_row : Row
claimed_row = record new_row {
  publication_state = PublicationState.claimed;
  publication_attempt = 1;
  claimed_at = some 2000000;
  claimed_by = some (units "relay-1");
  claim_token = some token;
  claim_expires_at = some 32000000;
}

abbrev pub publish_env : PublishEnv
publish_env = record {
  owned = true;
  date_now = 3000000;
  context_now = 3000010;
  role_ok = true;
  lock_now = 3000100;
  allowed = true;
  publish = ok (units "m-1");
  mark_now = 3000200;
  commit = Commit.reply_lost;
  probe_ok = true;
}

abbrev pub failure : Failed
failure = record { kind = FailureKind.ambiguous; code = units "publisher_timeout" }

abbrev pub retry_wait_row : Row
retry_wait_row = record new_row {
  publication_state = PublicationState.retry_wait;
  publication_attempt = 1;
  next_attempt_at = 5000000;
  last_outcome_code = some (units "publisher_timeout");
}

abbrev pub published_row : Row
published_row = record new_row {
  publication_state = PublicationState.published;
  publication_attempt = 1;
  published_at = some 3000200;
  published_message_id = some (units "m-1");
}

pub claim_run :
    claim_next plain_codec scope options claim_env (new_row ∷ [])
    ≡ ok (claimed_row ∷ [], some handle)
unfolding claim_next validate_scope is_uuid validate_claim_options is_safe_owner is_alnum
    is_owner_char claim_statements first_eligible update_where is_eligible in_scope str_eq
    is_interrupted to_milliseconds create_claim_handle is_chosen claim_row give_up is_before
    head_tail str_leb matches times
claim_run = refl

pub publish_run :
    publish_claimed plain_codec handle publish_env (claimed_row ∷ [])
    ≡ (published_row ∷ [], ok (PublishResult.was_published event (units "m-1")))
unfolding publish_claimed acknowledged context_for_handle validate_handle is_malformed
    is_claim_token is_safe_owner is_owner_char str_eq send locked_row find_row holds_claim
    is_claim_of in_scope row_matches_handle validate_message_id has_control_characters array_from
    is_lead is_trail code_point end_transaction finish is_published is_published_row mark
    mark_published resolve count_where head_tail is_alnum update_where
publish_run = refl

pub failure_run :
    record_failure plain_codec true true handle failure 4000000 (claimed_row ∷ [])
    ≡ ok (retry_wait_row ∷ [], Recorded.in_state PublicationState.retry_wait)
unfolding record_failure validate_handle is_malformed is_claim_token is_safe_owner is_owner_char
    str_eq is_safe_code fail_claim retry_delay_seconds update_where recorded is_claim_of count_where
    in_scope retry_row head_tail is_alnum is_lower_alnum
failure_run = refl

pub new_row-IsChecked : IsChecked (new_row ∷ [])
unfolding row_checks claim_check publication_check terminal_check pending_retry_check
new_row-IsChecked = (refl, tt)

pub claimed_row-IsChecked : IsChecked (claimed_row ∷ [])
unfolding row_checks claim_check publication_check terminal_check pending_retry_check
    has_control_characters array_from is_lead is_trail code_point is_claim_token is_alnum
claimed_row-IsChecked = (refl, tt)

pub token_valid : is_claim_token token ≡ true
unfolding is_claim_token is_alnum
token_valid = refl

abbrev pub one_key : (row : Row) → HasUniqueKeys (row ∷ [])
one_key row = (tt, tt)
