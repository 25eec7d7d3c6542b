-- ===== src/Relay/Product/Traces.antt =====
-- A run of the relay as operations of the product outbox (product-relay.ts).
use throughline.Prelude.{
  ◌≡◌, refl, inl, inr, true, none, some, Result, ok, err, JsString, Result-cases,
}
use throughline.Db.ProductOutbox.{Codec, Scope, Handle, Table, RelayError, is_claim_token}
use throughline.Db.ProductOutbox.Claim.{ClaimOptions, ClaimEnv, claim_next}
use throughline.Db.ProductOutbox.Publish.{PublishEnv, PublishResult, publish_claimed}
use throughline.Db.ProductOutbox.Failure.{record_failure}
use throughline.Db.ProductOutbox.History.{History}
use throughline.Relay.Errors.{classify_product_sqs_error}
use throughline.Relay.Product.{
  FailureEnv, read_error_name, record_error, handle_error, settle_unresolved, settle, relay_claimed,
  publish_next, accepted_marker_unresolved,
}

module _ (codec : Codec) (envelope_error : JsString) (start : Table) where
  record_error-History :
      (handle : Handle) (env : FailureEnv) (error : RelayError) (table : Table)
      → History codec start table
      → History codec start (record_error codec envelope_error handle env error table).0
  unfolding record_error
  record_error-History handle env error table past =
      let failure = classify_product_sqs_error (read_error_name envelope_error error) in
      elim (Result-cases
        (record_failure codec env.owned env.role_ok handle failure env.now table)) [
          | inr (e, failed) ↦ rw (failed, record_error) past
          | inl ((t, r), recorded) ↦
              rw (recorded, record_error)
                (History.recorded_failure env.owned env.role_ok handle failure env.now r past
                  recorded)
        ]

  handle_error-History :
      (handle : Handle) (env : FailureEnv) (error : RelayError) (table : Table)
      → History codec start table
      → History codec start (handle_error codec envelope_error handle env error table).0
  unfolding handle_error
  handle_error-History handle env RelayError.claim_rejected table past = past
  handle_error-History handle env RelayError.unauthorized table past = past
  handle_error-History handle env RelayError.wrong_role table past =
      record_error-History handle env RelayError.wrong_role table past
  handle_error-History handle env RelayError.invalid_envelope table past =
      record_error-History handle env RelayError.invalid_envelope table past
  handle_error-History handle env RelayError.missing_message_id table past =
      record_error-History handle env RelayError.missing_message_id table past
  handle_error-History handle env (RelayError.publisher_failed name) table past =
      record_error-History handle env (RelayError.publisher_failed name) table past

  settle_unresolved-History :
      (handle : Handle) (first second : FailureEnv) (table : Table)
      → History codec start table
      → History codec start (settle_unresolved codec envelope_error handle first second table).0
  unfolding settle_unresolved
  settle_unresolved-History handle first second table past =
      elim (Result-cases (
        record_failure codec first.owned first.role_ok handle accepted_marker_unresolved first.now
          table)) [
            | inr (e, failed) ↦
                rw (failed, settle_unresolved) (handle_error-History handle second e table past)
            | inl ((t, r), recorded) ↦
                rw (recorded, settle_unresolved)
                  (History.recorded_failure first.owned first.role_ok handle
                    accepted_marker_unresolved first.now r past recorded)
          ]

  settle-History :
      (handle : Handle) (first second : FailureEnv) (table : Table)
      (r : Result RelayError PublishResult)
      → History codec start table
      → History codec start (settle codec envelope_error handle first second (table, r)).0
  unfolding settle
  settle-History handle first second table (err e) past =
      handle_error-History handle second e table past
  settle-History handle first second table (ok (PublishResult.was_published id m)) past = past
  settle-History handle first second table (ok (PublishResult.unresolved id m)) past =
      settle_unresolved-History handle first second table past

  relay_claimed-History :
      (handle : Handle) (env : PublishEnv) (first second : FailureEnv) (table : Table)
      → History codec start table
      → History codec start (relay_claimed codec envelope_error handle env first second table).0
  unfolding relay_claimed
  relay_claimed-History handle env first second table past =
      settle-History handle first second (publish_claimed codec handle env table).0
        (publish_claimed codec handle env table).1 (History.published_claim handle env past refl)

  pub publish_next-History :
      (scope : Scope) (options : ClaimOptions) (claim_env : ClaimEnv) (env : PublishEnv)
      (first second : FailureEnv)
      → is_claim_token claim_env.token ≡ true
      → History codec start
          (publish_next codec envelope_error scope options claim_env env first second start).0
  unfolding publish_next
  publish_next-History scope options claim_env env first second token =
      elim (Result-cases (claim_next codec scope options claim_env start)) [
        | inr (e, failed) ↦ rw (failed, publish_next) History.started
        | inl ((t, none), done) ↦
            rw (done, publish_next)
              (History.claimed_next scope options claim_env none History.started token done)
        | inl ((t, some handle), done) ↦
            rw (done, publish_next)
              (relay_claimed-History handle env first second t (
                History.claimed_next scope options claim_env (some handle) History.started token
                  done))
      ]
