-- ===== src/Db/ProductOutbox/Settling.antt =====
-- Publications and failures of the product outbox and their table (product-outbox-repository.ts).
use throughline.Prelude.{
  ◌≡◌, inl, inr, true, not, some, ok, All-Mem, arith, Result-cases, bind_value, check_value, ◌==◌,
  JsString, throw_if,
}
use throughline.Db.ProductOutbox.{
  Codec, Handle, Table, RelayError, claim_rejected, update_where, validate_handle, count_where,
}
use throughline.Db.ProductOutbox.Publish.{
  PublishEnv, Commit, committed, rolled_back, reply_lost, holds_claim, mark_published, send, mark,
  finish, acknowledged, context_for_handle, publish_claimed, locked_row, end_transaction,
  row_matches_handle,
}
use throughline.Db.ProductOutbox.Frame.{
  Evolves, IsChecked, Evolves-refl, Evolves-IsChecked, update_where-Evolves,
}
use throughline.Db.ProductOutbox.Contract.{plain_text}
use throughline.Db.ProductOutbox.Refinement.{mark_published-RowStep, validate_message_id_plain}

-- An acknowledgment was preceded by a claim that still held, by the permission, and by a message
-- identifier in the required format from the publisher.
pub acknowledged_ok :
    (codec : Codec) (handle : Handle) (env : PublishEnv) (table : Table) (message_id : JsString)
    → acknowledged codec handle env table ≡ ok message_id
    → (env.allowed ≡ true)
      × (env.publish ≡ ok message_id)
      × (plain_text 200 (some message_id) ≡ true)
unfolding acknowledged send
acknowledged_ok codec handle env table message_id h =
    let (handle', valid, h1) = bind_value (validate_handle codec env.owned handle _) _ h in
    let (in_time, h1b) = check_value (context_for_handle handle' env.context_now) _ h1 in
    let (role, h2) = check_value (throw_if (not env.role_ok) RelayError.wrong_role) _ h1b in
    let (row, found, h3) = bind_value (locked_row handle' env.lock_now table) _ h2 in
    let (same, matches, h4) = bind_value (row_matches_handle codec row handle') _ h3 in
    let (is_same, h5) = check_value (throw_if (not same) claim_rejected) _ h4 in
    let (permitted, h6) = check_value (throw_if (not env.allowed) RelayError.unauthorized) _ h5 in
    let (m, sent, h7) = bind_value env.publish _ h6 in
    let (same_id, plain) = validate_message_id_plain m h7 in
    (ground (arith, permitted), rw same_id sent, rw same_id plain)

mark-Evolves :
    (handle : Handle) (env : PublishEnv) (message_id : JsString) (table table' : Table)
    → IsChecked table
    → plain_text 200 (some message_id) ≡ true
    → mark handle env message_id table ≡ ok table'
    → Evolves env.mark_now table table'
unfolding mark
mark-Evolves handle env message_id table table' checked plain h =
    let written =
      update_where (holds_claim handle env.mark_now) (mark_published env.mark_now message_id)
        table in
    let (one, h1) =
      check_value
        (throw_if (not (count_where (holds_claim handle env.mark_now) table == 1)) claim_rejected)
        (ok written) h in
    let e : written ≡ table' = ground (arith, h1) in
    rw (← e) (
      update_where-Evolves env.mark_now (holds_claim handle env.mark_now) _ table (λ row m held.
        mark_published-RowStep (All-Mem _ table checked m) handle message_id held plain))

end_transaction-Evolves :
    (c : Commit) (handle : Handle) (env : PublishEnv) (message_id : JsString) (table table' : Table)
    → Evolves env.mark_now table table'
    → Evolves env.mark_now table (end_transaction c handle env message_id table table').0
unfolding end_transaction
end_transaction-Evolves committed handle env message_id table table' e = e
end_transaction-Evolves rolled_back handle env message_id table table' e =
    Evolves-refl env.mark_now table
end_transaction-Evolves reply_lost handle env message_id table table' e = e

finish-Evolves :
    (handle : Handle) (env : PublishEnv) (message_id : JsString) (table : Table)
    → IsChecked table
    → plain_text 200 (some message_id) ≡ true
    → Evolves env.mark_now table (finish handle env message_id table).0
unfolding finish
finish-Evolves handle env message_id table checked plain =
    elim (Result-cases (mark handle env message_id table)) [
      | inr (e, failed) ↦ rw (failed, finish) (Evolves-refl env.mark_now table)
      | inl (table', marked) ↦
          rw (marked, finish)
            (end_transaction-Evolves env.commit handle env message_id table table'
              (mark-Evolves handle env message_id table table' checked plain marked))
    ]

publish_claimed_step :
    (codec : Codec) (handle : Handle) (env : PublishEnv) (table : Table)
    → IsChecked table
    → Evolves env.mark_now table (publish_claimed codec handle env table).0
unfolding publish_claimed
publish_claimed_step codec handle env table checked =
    elim (Result-cases (acknowledged codec handle env table)) [
      | inr (e, failed) ↦ rw (failed, publish_claimed) (Evolves-refl env.mark_now table)
      | inl (message_id, sent) ↦
          rw (sent, publish_claimed)
            (finish-Evolves handle env message_id table checked
              (acknowledged_ok codec handle env table message_id sent).2)
    ]

-- Whatever a publication meets (a stale handle, a refusal, a failing publisher, a lease that ends
-- before the mark, a lost reply of the commit), each row keeps its values or is marked by an update
-- that the trigger and the constraints accept.
pub publish_claimed-Evolves :
    (codec : Codec) (handle : Handle) (env : PublishEnv) (table : Table)
    → IsChecked table
    → Evolves env.mark_now table (publish_claimed codec handle env table).0
      × IsChecked (publish_claimed codec handle env table).0
publish_claimed-Evolves codec handle env table checked =
    (evolves, Evolves-IsChecked env.mark_now table _ evolves checked)
  where
    evolves : Evolves env.mark_now table (publish_claimed codec handle env table).0
    evolves = publish_claimed_step codec handle env table checked
