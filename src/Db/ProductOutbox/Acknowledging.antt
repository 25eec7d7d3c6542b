-- ===== src/Db/ProductOutbox/Acknowledging.antt =====
-- What the answer of `publishClaimed` tells its caller (product-outbox-repository.ts).
use mathlib.Core.List.{Memᴰ}
use throughline.Prelude.{
  ℕ, ◌≡◌, ◌≢◌, refl, sym, inl, inr, Bool, true, not, some, [], ◌∷◌, Result, ok, err, arith,
  Bool-cases, Result-cases, Option-cases, check_value, ◌==◌, JsString, str_eq_refl, throw_if,
  ok_injective,
}
use throughline.Db.ProductOutbox.{
  Codec, Handle, Row, Table, RelayError, claim_rejected, in_scope, update_where, count_where,
}
use throughline.Db.ProductOutbox.Publish.{
  PublishEnv, PublishResult, was_published, unresolved, Commit, committed, rolled_back, reply_lost,
  is_claim_of, holds_claim, mark_published, mark, find_row, is_published_row, is_published, resolve,
  end_transaction, finish, acknowledged, publish_claimed,
}
use throughline.Db.ProductOutbox.Frame.{update_where_mem}
use throughline.Db.ProductOutbox.Settling.{acknowledged_ok}

count_where_found :
    (test : Row → Bool) (table : Table)
    → count_where test table ≢ 0
    → (row : Row) × Memᴰ row table × (test row ≡ true)
unfolding count_where
count_where_found test [] h = absurd (h refl)
count_where_found test (row ∷ rows) h = elim (Bool-cases (test row)) [
  | inl passed ↦ (row, Memᴰ.head refl, passed)
  | inr failed ↦
      let (found, m, p) = count_where_found test rows (rw (failed, count_where) at h) in
      (found, Memᴰ.tail m, p)
]

find_row_sound :
    (test : Row → Bool) (table : Table) (row : Row)
    → find_row test table ≡ some row
    → Memᴰ row table × (test row ≡ true)
unfolding find_row
find_row_sound test [] row h = cc
find_row_sound test (r ∷ rows) row h = elim (Bool-cases (test r)) [
  | inl passed ↦
      let same : r ≡ row = ground (arith, passed) in (Memᴰ.head (sym same), rw same at passed)
  | inr failed ↦
      let (m, p) = find_row_sound test rows row (ground (arith, failed)) in (Memᴰ.tail m, p)
]

is_published_row_mark :
    (handle : Handle) (now : ℕ) (message_id : JsString) (row : Row)
    → holds_claim handle now row ≡ true
    → is_published_row handle message_id (mark_published now message_id row) ≡ true
unfolding holds_claim is_claim_of is_published_row mark_published in_scope
is_published_row_mark handle now message_id row h = ground (arith, str_eq_refl message_id)

-- A row of the table is published under the handle's attempt with this message.
abbrev pub HasPublished : Handle → JsString → Table → Type 0
HasPublished handle message_id table =
    (row : Row) × Memᴰ row table × (is_published_row handle message_id row ≡ true)

mark-HasPublished :
    (handle : Handle) (env : PublishEnv) (message_id : JsString) (table table' : Table)
    → mark handle env message_id table ≡ ok table'
    → HasPublished handle message_id table'
unfolding mark
mark-HasPublished handle env message_id table table' h =
    let test = holds_claim handle env.mark_now in
    let written = update_where test (mark_published env.mark_now message_id) table in
    let (one, h1) =
      check_value (throw_if (not (count_where test table == 1)) claim_rejected) (ok written) h in
    let same : written ≡ table' = ok_injective h1 in
    let (row, m, held) = count_where_found test table (ground (arith, one)) in
    rw (← same) (
      mark_published env.mark_now message_id row,
      update_where_mem test _ table row m held,
      is_published_row_mark handle env.mark_now message_id row held,
    )

-- The same of an answer after the acknowledgment of `message_id`.
abbrev Ends : Handle → JsString → Table → PublishResult → Type 0
Ends handle message_id table (was_published id m) =
    (message_id ≡ m) × (id ≡ handle.event_id) × HasPublished handle message_id table
Ends handle message_id table (unresolved id m) = message_id ≡ m

resolve-Ends :
    (handle : Handle) (env : PublishEnv) (message_id : JsString) (table : Table)
    → Ends handle message_id table (resolve handle env message_id table)
unfolding resolve is_published
resolve-Ends handle env message_id table =
    elim (Bool-cases (is_published env.probe_ok handle message_id table)) [
      | inr absent ↦ rw (absent, resolve) refl
      | inl present ↦ elim (Option-cases (find_row (is_published_row handle message_id) table)) [
        | inl nothing ↦ absurd (ground (arith, nothing, present))
        | inr (row, found) ↦
            let (m, p) = find_row_sound _ table row found in
            rw (present, resolve) (refl, refl, (row, m, p))
      ]
    ]

end_transaction-Ends :
    (c : Commit) (handle : Handle) (env : PublishEnv) (message_id : JsString) (table marked : Table)
    → HasPublished handle message_id marked
    → Ends handle message_id
        (end_transaction c handle env message_id table marked).0
        (end_transaction c handle env message_id table marked).1
unfolding end_transaction
end_transaction-Ends committed handle env message_id table marked p = (refl, refl, p)
end_transaction-Ends rolled_back handle env message_id table marked p =
    resolve-Ends handle env message_id table
end_transaction-Ends reply_lost handle env message_id table marked p =
    resolve-Ends handle env message_id marked

finish-Ends :
    (handle : Handle) (env : PublishEnv) (message_id : JsString) (table : Table)
    → Ends handle message_id
        (finish handle env message_id table).0
        (finish handle env message_id table).1
unfolding finish
finish-Ends handle env message_id table = elim (Result-cases (mark handle env message_id table)) [
  | inr (e, failed) ↦ rw (failed, finish) (resolve-Ends handle env message_id table)
  | inl (marked, done) ↦
      rw (done, finish)
        (end_transaction-Ends env.commit handle env message_id table marked
          (mark-HasPublished handle env message_id table marked done))
]

-- What each answer means, of the table before and after the call. An error: the table is
-- unchanged. Otherwise the authorization service allowed it and the publisher acknowledged, and if
-- the answer is that the event was published, then its row is published with that message.
abbrev pub Answers :
    Handle → PublishEnv → (before after : Table) → Result RelayError PublishResult → Type 0
Answers handle env before after (err e) = after ≡ before
Answers handle env before after (ok (unresolved id m)) = (env.allowed ≡ true) × (env.publish ≡ ok m)
Answers handle env before after (ok (was_published id m)) =
    (env.allowed ≡ true)
    × (env.publish ≡ ok m)
    × (id ≡ handle.event_id)
    × HasPublished handle m after

Answers-of :
    (handle : Handle) (env : PublishEnv) (message_id : JsString) (before after : Table)
    (r : PublishResult)
    → env.allowed ≡ true
    → env.publish ≡ ok message_id
    → Ends handle message_id after r
    → Answers handle env before after (ok r)
Answers-of handle env message_id before after (was_published id m) a p (same, same_id, row) =
    (a, rw same at p, same_id, rw same at row)
Answers-of handle env message_id before after (unresolved id m) a p same = (a, rw same at p)

-- Every answer of a publication means what it says. After an error the table is unchanged. An answer
-- that is no error comes only when the authorization service has allowed it and the publisher has
-- acknowledged the message, also when the transaction then fails or the reply of its commit is lost;
-- and if it says that the event was published, a row with the handle's event, scope and attempt is
-- published with that message.
pub publish_claimed-Answers :
    (codec : Codec) (handle : Handle) (env : PublishEnv) (table : Table)
    → Answers handle env table
        (publish_claimed codec handle env table).0
        (publish_claimed codec handle env table).1
unfolding publish_claimed
publish_claimed-Answers codec handle env table =
    elim (Result-cases (acknowledged codec handle env table)) [
      | inr (e, failed) ↦ rw (failed, publish_claimed) refl
      | inl (message_id, sent) ↦
          let (permitted, sent_it, _) = acknowledged_ok codec handle env table message_id sent in
          rw (sent, publish_claimed)
            (Answers-of handle env message_id table _ _ permitted sent_it
              (finish-Ends handle env message_id table))
    ]
