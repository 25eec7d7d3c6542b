-- ===== src/Relay/Product/Laws.antt =====
-- What a run of the relay does, and what its report of a publication says (product-relay.ts).
use throughline.Prelude.{
  ◌≡◌, refl, inl, inr, ◌⊎◌, true, none, some, Result, ok, err, JsString, Result-cases,
}
use throughline.Db.ProductOutbox.{Codec, Scope, Handle, Table, RelayError, is_claim_token}
use throughline.Db.ProductOutbox.Claim.{ClaimOptions, ClaimEnv, claim_next}
use throughline.Db.ProductOutbox.Publish.{PublishEnv, PublishResult, publish_claimed}
use throughline.Db.ProductOutbox.Failure.{record_failure}
use throughline.Db.ProductOutbox.Frame.{IsChecked, HasUniqueKeys}
use throughline.Db.ProductOutbox.Acknowledging.{HasPublished, Answers, publish_claimed-Answers}
use throughline.Db.ProductOutbox.History.{Follows, History-Follows}
use throughline.Relay.Product.Settling.{Leaves, relay_claimed-Leaves}
use throughline.Relay.Errors.{classify_product_sqs_error}
use throughline.Relay.Product.{
  RunError, RunResult, FailureEnv, idle, passed_on, read_error_name, record_error, handle_error,
  settle_unresolved, settle, relay_claimed, publish_next, accepted_marker_unresolved,
}
use throughline.Relay.Product.Traces.{publish_next-History}

-- What a run does: it claims, and ends with the error of the claim on the table as it was, or idle on
-- the table of a claim that found no event, or leaves what it leaves of the event that it claimed.
abbrev pub Runs :
    Codec
    → JsString
    → Scope
    → ClaimOptions
    → ClaimEnv
    → PublishEnv
    → Table
    → Table
    → Result RunError RunResult
    → Type 0
Runs codec envelope_error scope options claim_env env start after outcome =
    ((e : RelayError) × (claim_next codec scope options claim_env start ≡ err e)
      × (after ≡ start)
      × (outcome ≡ err (passed_on e)))
    ⊎ (((claim_next codec scope options claim_env start ≡ ok (after, none)) × (outcome ≡ ok idle))
        ⊎ ((table : Table) × (handle : Handle) × (claim_next codec scope options claim_env start
              ≡ ok (table, some handle))
            × Leaves envelope_error handle (publish_claimed codec handle env table).0
                (publish_claimed codec handle env table).1 after outcome))

publish_next-Runs :
    (codec : Codec) (envelope_error : JsString) (scope : Scope) (options : ClaimOptions)
    (claim_env : ClaimEnv) (env : PublishEnv) (first second : FailureEnv) (start : Table)
    → Runs codec envelope_error scope options claim_env env start
        (publish_next codec envelope_error scope options claim_env env first second start).0
        (publish_next codec envelope_error scope options claim_env env first second start).1
unfolding publish_next
publish_next-Runs codec envelope_error scope options claim_env env first second start =
    elim (Result-cases (claim_next codec scope options claim_env start)) [
      | inr (e, failed) ↦ rw (failed, publish_next) (inl (e, refl, refl, refl))
      | inl ((t, none), done) ↦ rw (done, publish_next) (inr (inl (refl, refl)))
      | inl ((t, some handle), done) ↦
          rw (done, publish_next)
            (inr (
              inr (
                t,
                handle,
                refl,
                relay_claimed-Leaves codec envelope_error handle env first second t,
              )))
    ]

-- Whatever a run of the relay meets, on a table whose rows meet the constraints and have distinct
-- keys and with a random token of the token format: both still hold, and row by row the event is the
-- same, its attempts have not gone down, and a row that was published or terminal is as it was. A run
-- whose claim fails passes the error on and leaves the table as it is; one that claims nothing is
-- idle. One that claims an event reports it as published exactly where the repository's publication
-- did, and passes on only a rejected claim, a denied authorization or a wrong role, where these ended
-- the publication or kept a failure from being recorded: in both cases with no failure recorded. It
-- reports an unresolved publication only after an unresolved answer, and a
-- failed one only after one or after an error that is neither a rejected claim nor a denied
-- authorization; in both cases the failure is recorded on the rows that the handle had claimed, and
-- on no other: under its code, with no claim any more, to be tried again below six attempts and
-- otherwise in the terminal state for its kind, which is what the name of the error says.
pub publish_next-Follows :
    (codec : Codec) (envelope_error : JsString) (scope : Scope) (options : ClaimOptions)
    (claim_env : ClaimEnv) (env : PublishEnv) (first second : FailureEnv) (start : Table)
    → IsChecked start
    → HasUniqueKeys start
    → is_claim_token claim_env.token ≡ true
    → IsChecked (publish_next codec envelope_error scope options claim_env env first second start).0
      × HasUniqueKeys
          (publish_next codec envelope_error scope options claim_env env first second start).0
      × Follows start
          (publish_next codec envelope_error scope options claim_env env first second start).0
      × Runs codec envelope_error scope options claim_env env start
          (publish_next codec envelope_error scope options claim_env env first second start).0
          (publish_next codec envelope_error scope options claim_env env first second start).1
publish_next-Follows codec envelope_error scope options claim_env env first second start checked
      unique token =
    let (still_checked, still_unique, follows) = History-Follows checked unique (
      publish_next-History codec envelope_error start scope options claim_env env first second
        token) in
    (
      still_checked,
      still_unique,
      follows,
      publish_next-Runs codec envelope_error scope options claim_env env first second start,
    )

module _ (codec : Codec) (envelope_error : JsString) where
  record_error_fails :
      (handle : Handle) (env : FailureEnv) (error : RelayError) (table : Table) {r : RunResult}
      → ¬ ((record_error codec envelope_error handle env error table).1 ≡ ok r)
  unfolding record_error
  record_error_fails handle env error table h =
      let failure = classify_product_sqs_error (read_error_name envelope_error error) in
      elim (Result-cases
        (record_failure codec env.owned env.role_ok handle failure env.now table)) [
          | inr (e, failed) ↦ cc
          | inl (recorded, done) ↦ cc
        ]

  handle_error_fails :
      (handle : Handle) (env : FailureEnv) (error : RelayError) (table : Table) {r : RunResult}
      → ¬ ((handle_error codec envelope_error handle env error table).1 ≡ ok r)
  unfolding handle_error
  handle_error_fails handle env RelayError.claim_rejected table h = cc
  handle_error_fails handle env RelayError.unauthorized table h = cc
  handle_error_fails handle env RelayError.wrong_role table h =
      record_error_fails handle env RelayError.wrong_role table h
  handle_error_fails handle env RelayError.invalid_envelope table h =
      record_error_fails handle env RelayError.invalid_envelope table h
  handle_error_fails handle env RelayError.missing_message_id table h =
      record_error_fails handle env RelayError.missing_message_id table h
  handle_error_fails handle env (RelayError.publisher_failed name) table h =
      record_error_fails handle env (RelayError.publisher_failed name) table h

  settle_unresolved_fails :
      (handle : Handle) (first second : FailureEnv) (table : Table) {r : RunResult}
      → ¬ ((settle_unresolved codec envelope_error handle first second table).1 ≡ ok r)
  unfolding settle_unresolved
  settle_unresolved_fails handle first second table h =
      elim (Result-cases (
        record_failure codec first.owned first.role_ok handle accepted_marker_unresolved first.now
          table)) [
            | inr (e, failed) ↦
                handle_error_fails handle second e table (rw (failed, settle_unresolved) at h)
            | inl (recorded, done) ↦ cc
          ]

  settle-Answers :
      (handle : Handle) (env : PublishEnv) (first second : FailureEnv) (before table : Table)
      (r : Result RelayError PublishResult) (id m : JsString)
      → Answers handle env before table r
      → (settle codec envelope_error handle first second (table, r)).1
        ≡ ok (RunResult.run_published id m)
      → (env.publish ≡ ok m)
        × (id ≡ handle.event_id)
        × HasPublished handle m (settle codec envelope_error handle first second (table, r)).0
  unfolding settle
  settle-Answers handle env first second before table (err e) id m a h =
      absurd (handle_error_fails handle second e table h)
  settle-Answers handle env first second before table (ok (PublishResult.unresolved i n)) id m a h =
      absurd (settle_unresolved_fails handle first second table h)
  settle-Answers handle env first second before table (ok (PublishResult.was_published i n)) id m a
        h =
      let same_id : i ≡ id = cc in
      let same : n ≡ m = cc in (rw same at a.1, rw same_id at a.2, rw same at a.3)

  -- A run of the relay on a claimed event that reports it as published: the queue acknowledged the
  -- message of the report, and a row with the handle's event, scope and attempt is published with it.
  pub relay_claimed-HasPublished :
      (handle : Handle) (env : PublishEnv) (first second : FailureEnv) (table : Table)
      (id m : JsString)
      → (relay_claimed codec envelope_error handle env first second table).1
        ≡ ok (RunResult.run_published id m)
      → (env.publish ≡ ok m)
        × (id ≡ handle.event_id)
        × HasPublished handle m (relay_claimed codec envelope_error handle env first second table).0
  unfolding relay_claimed
  relay_claimed-HasPublished handle env first second table id m h =
      settle-Answers handle env first second table (publish_claimed codec handle env table).0
        (publish_claimed codec handle env table).1 id m
        (publish_claimed-Answers codec handle env table) h
