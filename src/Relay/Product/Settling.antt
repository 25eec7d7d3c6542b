-- ===== src/Relay/Product/Settling.antt =====
-- How a run of the relay leaves a claimed event (product-relay.ts).
use throughline.Prelude.{◌≡◌, ◌≢◌, refl, ◌⊎◌, inl, inr, Result, ok, err, JsString, Result-cases}
use throughline.Db.ProductOutbox.{
  Codec, Handle, Table, RelayError, claim_rejected, unauthorized, wrong_role,
}
use throughline.Db.ProductOutbox.Publish.{
  PublishEnv, PublishResult, publish_claimed, unresolved, was_published,
}
use throughline.Db.ProductOutbox.Failure.{record_failure}
use throughline.Relay.Errors.{classify_product_sqs_error}
use throughline.Relay.Product.{
  FailureEnv, RunError, RunResult, accepted_marker_unresolved, handle_error, idle, passed_on,
  publication_failed, publication_unresolved, read_error_name, record_error, relay_claimed,
  run_published, settle, settle_unresolved,
}
use throughline.Relay.Product.Recording.{
  IsPassed, RecordedAs, record_failure-IsPassed, record_failure-RecordedAs,
}

-- The publication ended in this error, or in no decision on whether the message was accepted.
abbrev pub Origin : RelayError → Result RelayError PublishResult → Type 0
Origin e r = (r ≡ err e) ⊎ ((id : JsString) × (m : JsString) × (r ≡ ok (unresolved id m)))

-- The error that is passed on is the one of the publication; or the publication ended otherwise, but
-- with no rejected claim and no denied authorization, and a failure could not be recorded.
abbrev pub CausePassed : RelayError → Result RelayError PublishResult → Type 0
CausePassed e r =
    (r ≡ err e)
    ⊎ ((cause : RelayError) × Origin cause r × (cause ≢ claim_rejected) × (cause ≢ unauthorized))

CausePassed-of :
    (e : RelayError) (r : Result RelayError PublishResult) → Origin e r → CausePassed e r
CausePassed-of e r (inl same) = inl same
CausePassed-of e r (inr open_) = inr (wrong_role, inr open_, λ h. cc, λ h. cc)

-- What a run leaves of a table `table` on which the publication of a claimed event gave `r`: the
-- table, with no failure recorded, where it reports the event as published or passes an error on; and
-- the failure recorded, where it reports the publication as unresolved or failed.
abbrev pub Leaves :
    JsString
    → Handle
    → Table
    → Result RelayError PublishResult
    → Table
    → Result RunError RunResult
    → Type 0
Leaves envelope_error handle table r after (ok idle) = ⊥
Leaves envelope_error handle table r after (ok (run_published id m)) =
    (r ≡ ok (was_published id m)) × (after ≡ table)
Leaves envelope_error handle table r after (err (passed_on e)) =
    IsPassed e × CausePassed e r × (after ≡ table)
Leaves envelope_error handle table r after (err publication_unresolved) =
    ((id : JsString) × (m : JsString) × (r ≡ ok (unresolved id m)))
    × RecordedAs handle accepted_marker_unresolved table after
Leaves envelope_error handle table r after (err (publication_failed failure)) =
    (e : RelayError) × Origin e r
    × (e ≢ claim_rejected)
    × (e ≢ unauthorized)
    × (failure ≡ classify_product_sqs_error (read_error_name envelope_error e))
    × RecordedAs handle failure table after

module _ (codec : Codec) (envelope_error : JsString) where
  record_error-Leaves :
      (handle : Handle) (env : FailureEnv) (error : RelayError) (table : Table)
      (r : Result RelayError PublishResult)
      → Origin error r
      → error ≢ claim_rejected
      → error ≢ unauthorized
      → Leaves envelope_error handle table r
          (record_error codec envelope_error handle env error table).0
          (record_error codec envelope_error handle env error table).1
  unfolding record_error
  record_error-Leaves handle env error table r origin p q =
      let failure = classify_product_sqs_error (read_error_name envelope_error error) in
      elim (Result-cases
        (record_failure codec env.owned env.role_ok handle failure env.now table)) [
          | inr (e, failed) ↦
              rw (failed, record_error)
                (
                  record_failure-IsPassed codec env.owned env.role_ok handle failure env.now table e
                      failed,
                  inr (error, origin, p, q),
                  refl,
                )
          | inl ((t, done), recorded) ↦
              rw (recorded, record_error)
                (
                  error,
                  origin,
                  p,
                  q,
                  refl,
                  record_failure-RecordedAs codec env.owned env.role_ok handle failure env.now table
                      t done recorded,
                )
        ]

  handle_error-Leaves :
      (handle : Handle) (env : FailureEnv) (error : RelayError) (table : Table)
      (r : Result RelayError PublishResult)
      → Origin error r
      → Leaves envelope_error handle table r
          (handle_error codec envelope_error handle env error table).0
          (handle_error codec envelope_error handle env error table).1
  unfolding handle_error
  handle_error-Leaves handle env RelayError.claim_rejected table r o =
      (inl refl, CausePassed-of RelayError.claim_rejected r o, refl)
  handle_error-Leaves handle env RelayError.unauthorized table r o =
      (inr (inl refl), CausePassed-of RelayError.unauthorized r o, refl)
  handle_error-Leaves handle env RelayError.wrong_role table r o =
      record_error-Leaves handle env RelayError.wrong_role table r o (λ e. cc) (λ e. cc)
  handle_error-Leaves handle env RelayError.invalid_envelope table r o =
      record_error-Leaves handle env RelayError.invalid_envelope table r o (λ e. cc) (λ e. cc)
  handle_error-Leaves handle env RelayError.missing_message_id table r o =
      record_error-Leaves handle env RelayError.missing_message_id table r o (λ e. cc) (λ e. cc)
  handle_error-Leaves handle env (RelayError.publisher_failed name) table r o =
      record_error-Leaves handle env (RelayError.publisher_failed name) table r o (λ e. cc)
        (λ e. cc)

  settle_unresolved-Leaves :
      (handle : Handle) (first second : FailureEnv) (table : Table) (id m : JsString)
      → Leaves envelope_error handle table
          (ok (unresolved id m))
          (settle_unresolved codec envelope_error handle first second table).0
          (settle_unresolved codec envelope_error handle first second table).1
  unfolding settle_unresolved
  settle_unresolved-Leaves handle first second table id m =
      elim (Result-cases (
        record_failure codec first.owned first.role_ok handle accepted_marker_unresolved first.now
          table)) [
            | inr (e, failed) ↦
                rw (failed, settle_unresolved)
                  (handle_error-Leaves handle second e table (ok (unresolved id m))
                    (inr (id, m, refl)))
            | inl ((t, done), recorded) ↦
                rw (recorded, settle_unresolved)
                  (
                    (id, m, refl),
                    record_failure-RecordedAs codec first.owned first.role_ok handle
                        accepted_marker_unresolved first.now table t done recorded,
                  )
          ]

  settle-Leaves :
      (handle : Handle) (first second : FailureEnv) (table : Table)
      (r : Result RelayError PublishResult)
      → Leaves envelope_error handle table r
          (settle codec envelope_error handle first second (table, r)).0
          (settle codec envelope_error handle first second (table, r)).1
  unfolding settle
  settle-Leaves handle first second table (err e) =
      handle_error-Leaves handle second e table (err e) (inl refl)
  settle-Leaves handle first second table (ok (was_published id m)) = (refl, refl)
  settle-Leaves handle first second table (ok (unresolved id m)) =
      settle_unresolved-Leaves handle first second table id m

  pub relay_claimed-Leaves :
      (handle : Handle) (env : PublishEnv) (first second : FailureEnv) (table : Table)
      → Leaves envelope_error handle
          (publish_claimed codec handle env table).0
          (publish_claimed codec handle env table).1
          (relay_claimed codec envelope_error handle env first second table).0
          (relay_claimed codec envelope_error handle env first second table).1
  unfolding relay_claimed
  relay_claimed-Leaves handle env first second table =
      settle-Leaves handle first second (publish_claimed codec handle env table).0
        (publish_claimed codec handle env table).1
