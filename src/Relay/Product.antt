-- ===== src/Relay/Product.antt =====
-- apps/outbox-relay/src/product-relay.ts: `ProductOutboxRelay` over the operations of the product
-- outbox. The queue client is the publisher of the repository's operations.
pub mod Recording
pub mod Traces
pub mod Settling
pub mod Laws
mod Tests
use throughline.Prelude.{ℕ, Bool, true, false, Option, none, some, Result, ok, err, JsString, units}
use throughline.Db.ProductOutbox.{
  Codec, Scope, Handle, Table, RelayError, claim_rejected, unauthorized, wrong_role,
  invalid_envelope, missing_message_id, publisher_failed,
}
use throughline.Db.ProductOutbox.Claim.{ClaimOptions, ClaimEnv, claim_next}
use throughline.Db.ProductOutbox.Publish.{
  PublishEnv, PublishResult, was_published, unresolved, publish_claimed,
}
use throughline.Db.ProductOutbox.Failure.{Failed, Recorded, ambiguous, record_failure}
use throughline.Relay.Errors.{classify_product_sqs_error}

-- The errors of a run: one that passes through, ProductPublicationUnresolvedError, and
-- ProductPublicationFailedError with the failure that was recorded.
pub data RunError : Type 0 where
  passed_on : RelayError → RunError
  publication_unresolved : RunError
  publication_failed : Failed → RunError

pub data RunResult : Type 0 where
  idle : RunResult
  run_published : (event_id message_id : JsString) → RunResult

-- What a call of `recordFailure` meets.
pub record FailureEnv : Type 0 where
  pub owned : Bool
  pub role_ok : Bool
  pub now : ℕ

-- `readErrorName`; the name of an envelope error is the notification parser's.
unfoldable pub read_error_name : (envelope_error : JsString) → RelayError → JsString
read_error_name envelope_error claim_rejected = units "ProductRelayClaimRejectedError"
read_error_name envelope_error unauthorized = units "ProductRelayAuthorizationError"
read_error_name envelope_error wrong_role = units "Error"
read_error_name envelope_error invalid_envelope = envelope_error
read_error_name envelope_error missing_message_id = units "MissingMessageId"
read_error_name envelope_error (publisher_failed name) = name

abbrev accepted_marker_unresolved : Failed
accepted_marker_unresolved = record { kind = ambiguous; code = units "accepted_marker_unresolved" }

module _ (codec : Codec) (envelope_error : JsString) where
  unfoldable pub record_error :
      Handle → FailureEnv → RelayError → Table → Table × Result RunError RunResult
  record_error handle env error table =
      let failure = classify_product_sqs_error (read_error_name envelope_error error) in
      elim (record_failure codec env.owned env.role_ok handle failure env.now table) [
        | err e ↦ (table, err (passed_on e))
        | ok recorded ↦ (recorded.0, err (publication_failed failure))
      ]

  -- The `catch`.
  unfoldable pub handle_error :
      Handle → FailureEnv → RelayError → Table → Table × Result RunError RunResult
  handle_error handle env claim_rejected table = (table, err (passed_on claim_rejected))
  handle_error handle env unauthorized table = (table, err (passed_on unauthorized))
  handle_error handle env error table = record_error handle env error table

  -- `first` is met by the call of `recordFailure` in the `try`, `second` by the one in the `catch`.
  unfoldable pub settle_unresolved :
      Handle → (first second : FailureEnv) → Table → Table × Result RunError RunResult
  settle_unresolved handle first second table =
      elim (record_failure codec first.owned first.role_ok handle accepted_marker_unresolved
        first.now table) [
          | err e ↦ handle_error handle second e table
          | ok recorded ↦ (recorded.0, err publication_unresolved)
        ]

  unfoldable pub settle :
      Handle
      → (first second : FailureEnv) → Table × Result RelayError PublishResult
      → Table × Result RunError RunResult
  settle handle first second (table, err e) = handle_error handle second e table
  settle handle first second (table, ok (was_published id m)) = (table, ok (run_published id m))
  settle handle first second (table, ok (unresolved id m)) =
      settle_unresolved handle first second table

  -- `publishClaimed` of the relay.
  unfoldable pub relay_claimed :
      Handle → PublishEnv → (first second : FailureEnv) → Table → Table × Result RunError RunResult
  relay_claimed handle env first second table =
      settle handle first second (publish_claimed codec handle env table)

  unfoldable pub publish_next :
      Scope
      → ClaimOptions
      → ClaimEnv
      → PublishEnv
      → (first second : FailureEnv) → Table
      → Table × Result RunError RunResult
  publish_next scope options claim_env env first second table =
      elim (claim_next codec scope options claim_env table) [
        | err e ↦ (table, err (passed_on e))
        | ok (claimed_table, none) ↦ (claimed_table, ok idle)
        | ok (claimed_table, some handle) ↦ relay_claimed handle env first second claimed_table
      ]
