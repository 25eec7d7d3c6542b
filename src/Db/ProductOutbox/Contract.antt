-- ===== src/Db/ProductOutbox/Contract.antt =====
-- packages/db/migrations/0003_b1_0_canonical_product_outbox.sql: what the database asks of a row of
-- ops.product_outbox_events (its CHECK constraints on the publication columns) and of an update of
-- one (the trigger function enforce_product_outbox_transition).
use throughline.Prelude.{
  ℕ, ◌+◌, Bool, true, false, ◌&&◌, ◌||◌, not, Option, none, some, leb, ltb, ◌==◌, length, JsString,
}
use throughline.Core.ScalarText.{array_from}
use throughline.Db.ProductOutbox.{
  PublicationState, pending, claimed, retry_wait, published, terminal_failed, terminal_unconfirmed,
  Row, is_state, after, is_claim_token, is_safe_code, has_control_characters,
}

abbrev pub is_null {ℓ} : {A : Type ℓ} → Option A → Bool
is_null none = true
is_null (some a) = false

-- A text of 1 to `n` characters, none of them a control character, which are taken to be those that
-- the code refuses: whether [[:cntrl:]] has others depends on the database's locale.
abbrev pub plain_text : ℕ → Option JsString → Bool
plain_text n none = false
plain_text n (some s) =
    leb 1 (length (array_from s)) && leb (length (array_from s)) n && not (has_control_characters s)

abbrev pub token_text : Option JsString → Bool
token_text none = false
token_text (some s) = is_claim_token s

abbrev pub later : Option ℕ → Option ℕ → Bool
later (some a) (some b) = ltb a b
later _ _ = false

-- product_outbox_events_claim_check
unfoldable pub claim_check : Row → Bool
claim_check row =
    is_state row.publication_state claimed
      && leb 1 row.publication_attempt
      && leb row.publication_attempt 6
      && plain_text 128 row.claimed_by
      && token_text row.claim_token
      && later row.claimed_at row.claim_expires_at
    || not (is_state row.publication_state claimed)
      && is_null row.claimed_at
      && is_null row.claimed_by
      && is_null row.claim_token
      && is_null row.claim_expires_at

-- product_outbox_events_publication_check
unfoldable pub publication_check : Row → Bool
publication_check row =
    is_state row.publication_state published
      && not (is_null row.published_at)
      && plain_text 200 row.published_message_id
    || not (is_state row.publication_state published)
      && is_null row.published_at
      && is_null row.published_message_id

abbrev pub is_terminal : PublicationState → Bool
is_terminal terminal_failed = true
is_terminal terminal_unconfirmed = true
is_terminal _ = false

-- product_outbox_events_terminal_check
unfoldable pub terminal_check : Row → Bool
terminal_check row =
    is_terminal row.publication_state
      && not (is_null row.terminal_at)
      && not (is_null row.last_outcome_code)
    || not (is_terminal row.publication_state) && is_null row.terminal_at

-- product_outbox_events_pending_retry_check
unfoldable pub pending_retry_check : Row → Bool
pending_retry_check row =
    is_state row.publication_state pending
      && row.publication_attempt == 0
      && is_null row.last_outcome_code
    || is_state row.publication_state retry_wait
      && leb 1 row.publication_attempt
      && leb row.publication_attempt 5
      && not (is_null row.last_outcome_code)
    || is_state row.publication_state claimed
    || is_state row.publication_state published
    || is_terminal row.publication_state

abbrev pub code_text : Option JsString → Bool
code_text none = true
code_text (some s) = is_safe_code s

-- The constraints together, with product_outbox_events_attempt_check and
-- product_outbox_events_outcome_code_check.
unfoldable pub row_checks : Row → Bool
unfolding claim_check publication_check terminal_check pending_retry_check
row_checks row =
    leb row.publication_attempt 6
    && claim_check row
    && publication_check row
    && terminal_check row
    && pending_retry_check row
    && code_text row.last_outcome_code

-- The branches of the trigger on the new state, read at the time `now`; that the columns of the
-- envelope are unchanged is stated apart.
unfoldable pub transition_allowed : ℕ → Row → Row → Bool
transition_allowed now old new = elim new.publication_state [
  | claimed ↦
      (is_state old.publication_state pending
        || is_state old.publication_state retry_wait
        || is_state old.publication_state claimed)
      && new.publication_attempt == old.publication_attempt + 1
      && not (is_state old.publication_state claimed && after old.claim_expires_at now)
      && not (is_null new.claimed_by)
      && not (is_null new.claim_token)
      && later new.claimed_at new.claim_expires_at
      && is_null new.last_outcome_code
      && is_null new.published_at
      && is_null new.published_message_id
      && is_null new.terminal_at
  | retry_wait ↦
      is_state old.publication_state claimed
      && new.publication_attempt == old.publication_attempt
      && ltb now new.next_attempt_at
      && not (is_null new.last_outcome_code)
  | published ↦
      is_state old.publication_state claimed
      && new.publication_attempt == old.publication_attempt
      && after old.claim_expires_at now
      && not (is_null new.published_at)
      && not (is_null new.published_message_id)
      && is_null new.terminal_at
  | terminal_failed ↦
      is_state old.publication_state claimed
      && new.publication_attempt == old.publication_attempt
      && new.publication_attempt == 6
      && not (is_null new.terminal_at)
      && not (is_null new.last_outcome_code)
      && is_null new.published_at
      && is_null new.published_message_id
  | terminal_unconfirmed ↦
      is_state old.publication_state claimed
      && new.publication_attempt == old.publication_attempt
      && new.publication_attempt == 6
      && not (is_null new.terminal_at)
      && not (is_null new.last_outcome_code)
      && is_null new.published_at
      && is_null new.published_message_id
  | pending ↦ false
]
