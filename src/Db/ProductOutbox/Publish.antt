-- ===== src/Db/ProductOutbox/Publish.antt =====
-- packages/db/src/product-outbox-repository.ts: `publishClaimed` and `isPublished`.
use throughline.Prelude.{
  ℕ, Bool, true, false, ◌&&◌, not, Option, none, some, [], ◌∷◌, Result, ok, err, ◌>>=◌, ◌>>◌,
  throw_if, leb, ◌==◌, if◌then◌else◌, JsString, str_eq,
}
use throughline.Db.ProductOutbox.{
  claimed, published, Codec, Row, Table, Handle, RelayError, claim_rejected, unauthorized,
  wrong_role, invalid_envelope, is_state, text_is, time_is, after, in_scope, update_where,
  count_where, release, validate_message_id, validate_handle,
}

-- The `WHERE` over `handleValues` that `publishClaimed` and `recordFailure` share.
unfoldable pub is_claim_of : Handle → Row → Bool
is_claim_of handle row =
    str_eq row.columns.event_id handle.event_id
    && in_scope handle.scope row
    && is_state row.publication_state claimed
    && row.publication_attempt == handle.publication_attempt
    && text_is row.claimed_by handle.claimed_by
    && text_is row.claim_token handle.claim_token
    && time_is row.claim_expires_at handle.claim_expires_at

-- The same with a lease that is still running.
unfoldable pub holds_claim : Handle → ℕ → Row → Bool
holds_claim handle now row = is_claim_of handle row && after row.claim_expires_at now

unfoldable pub find_row : (Row → Bool) → Table → Option Row
find_row test [] = none
find_row test (row ∷ rows) = if test row then some row else find_row test rows

module _ (codec : Codec) where
  -- `rowMatchesHandle`
  unfoldable pub row_matches_handle : Row → Handle → Result RelayError Bool
  row_matches_handle row handle =
      if str_eq row.columns.event_id handle.event_id
        && in_scope handle.scope row
        && row.publication_attempt == handle.publication_attempt
        && text_is row.claimed_by handle.claimed_by
        && text_is row.claim_token handle.claim_token
        && time_is row.claimed_at handle.claimed_at
        && time_is row.claim_expires_at handle.claim_expires_at
      then elim (codec.parse row.columns) [
        | none ↦ err invalid_envelope
        | some envelope ↦ ok (str_eq (codec.serialize envelope) handle.canonical_envelope)
      ]
      else ok false

-- How the transaction ended: committed; rolled back although the statements ran; or committed with
-- the reply lost.
pub data Commit : Type 0 where
  committed rolled_back reply_lost : Commit

-- What a call meets: its clocks, the role, the decision of the authorization service, the answer of
-- the publisher, the commit, and whether the later query of `isPublished` runs.
pub record PublishEnv : Type 0 where
  pub owned : Bool
  pub date_now : ℕ
  pub context_now : ℕ
  pub role_ok : Bool
  pub lock_now : ℕ
  pub allowed : Bool
  pub publish : Result RelayError JsString
  pub mark_now : ℕ
  pub commit : Commit
  pub probe_ok : Bool

unfoldable pub mark_published : ℕ → JsString → Row → Row
mark_published now message_id row = record (release row) {
  publication_state = published;
  last_outcome_code = none;
  published_at = some now;
  published_message_id = some message_id;
}

-- `SELECT … LIMIT 1 FOR UPDATE`
unfoldable pub locked_row : Handle → ℕ → Table → Result RelayError Row
locked_row handle now table = elim (find_row (holds_claim handle now) table) [
  | none ↦ err claim_rejected
  | some row ↦ ok row
]

-- The statements of the transaction up to the acknowledgment of the publisher.
unfoldable pub send : Codec → Handle → PublishEnv → Table → Result RelayError JsString
send codec handle env table = do
  throw_if (not env.role_ok) wrong_role
  row ← locked_row handle env.lock_now table
  same ← row_matches_handle codec row handle
  throw_if (not same) claim_rejected
  throw_if (not env.allowed) unauthorized
  message_id ← env.publish
  validate_message_id message_id

-- The marking `UPDATE`, which has to return one row.
unfoldable pub mark : Handle → PublishEnv → JsString → Table → Result RelayError Table
mark handle env message_id table = do
  throw_if (not (count_where (holds_claim handle env.mark_now) table == 1)) claim_rejected
  ok (update_where (holds_claim handle env.mark_now) (mark_published env.mark_now message_id) table)

pub data PublishResult : Type 0 where
  was_published : (event_id message_id : JsString) → PublishResult
  unresolved : (event_id message_id : JsString) → PublishResult

unfoldable pub is_published_row : Handle → JsString → Row → Bool
is_published_row handle message_id row =
    str_eq row.columns.event_id handle.event_id
    && in_scope handle.scope row
    && row.publication_attempt == handle.publication_attempt
    && is_state row.publication_state published
    && text_is row.published_message_id message_id

-- `isPublished`; an error of its own counts as no.
unfoldable pub is_published : (probe_ok : Bool) → Handle → JsString → Table → Bool
is_published probe_ok handle message_id table =
    probe_ok
    && elim (find_row (is_published_row handle message_id) table) [ none ↦ false | some row ↦ true ]

-- The handler of an error after the acknowledgment.
unfoldable pub resolve : Handle → PublishEnv → JsString → Table → PublishResult
resolve handle env message_id table =
    if is_published env.probe_ok handle message_id table
    then was_published handle.event_id message_id
    else unresolved handle.event_id message_id

unfoldable pub end_transaction :
    Commit → Handle → PublishEnv → JsString → (table marked : Table) → Table × PublishResult
end_transaction committed handle env message_id table marked =
    (marked, was_published handle.event_id message_id)
end_transaction rolled_back handle env message_id table marked =
    (table, resolve handle env message_id table)
end_transaction reply_lost handle env message_id table marked =
    (marked, resolve handle env message_id marked)

-- The rest of the call once the publisher has acknowledged.
unfoldable pub finish : Handle → PublishEnv → JsString → Table → Table × PublishResult
finish handle env message_id table = elim (mark handle env message_id table) [
  | err e ↦ (table, resolve handle env message_id table)
  | ok marked ↦ end_transaction env.commit handle env message_id table marked
]

-- The check of `contextForHandle`, which reads the clock once more.
unfoldable pub context_for_handle : Handle → ℕ → Result RelayError (Unit {0})
context_for_handle handle now = throw_if (leb handle.claim_expires_at now) claim_rejected

-- Up to the acknowledgment of the publisher.
unfoldable pub acknowledged : Codec → Handle → PublishEnv → Table → Result RelayError JsString
acknowledged codec input_handle env table = do
  handle ← validate_handle codec env.owned input_handle (some env.date_now)
  context_for_handle handle env.context_now
  send codec handle env table

-- The new table and the result; an error before the acknowledgment leaves the table as it was.
unfoldable pub publish_claimed :
    Codec → Handle → PublishEnv → Table → Table × Result RelayError PublishResult
publish_claimed codec handle env table = elim (acknowledged codec handle env table) [
  | err e ↦ (table, err e)
  | ok message_id ↦
      ((finish handle env message_id table).0, ok (finish handle env message_id table).1)
]
