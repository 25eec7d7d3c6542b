-- ===== src/Db/ProductOutbox/Failure.antt =====
-- packages/db/src/product-outbox-repository.ts: `recordFailure` and its retry delays.
use throughline.Prelude.{
  ℕ, ◌+◌, ◌*◌, ◌-◌, Bool, true, false, not, none, some, List, [], ◌∷◌, Result, ok, err, ◌>>=◌, ◌>>◌,
  throw_if, ltb, ◌==◌, get_elem?, if◌then◌else◌, JsString,
}
use throughline.Db.ProductOutbox.{
  PublicationState, retry_wait, terminal_failed, terminal_unconfirmed, Codec, Row, Table, Handle,
  RelayError, claim_rejected, wrong_role, update_where, count_where, release, is_safe_code,
  validate_handle,
}
use throughline.Db.ProductOutbox.Publish.{is_claim_of}

pub data FailureKind : Type 0 where
  deterministic ambiguous : FailureKind

pub record Failed : Type 0 where
  pub kind : FailureKind
  pub code : JsString

-- RETRY_DELAYS_SECONDS
abbrev retry_delays_seconds : List ℕ
retry_delays_seconds = 1 ∷ 5 ∷ 30 ∷ 120 ∷ 600 ∷ []

unfoldable pub retry_delay_seconds : ℕ → Result RelayError ℕ
retry_delay_seconds attempt = elim (get_elem? retry_delays_seconds (attempt - 1)) [
  | none ↦ err claim_rejected
  | some delay ↦ ok delay
]

unfoldable pub terminal_state : FailureKind → PublicationState
terminal_state deterministic = terminal_failed
terminal_state ambiguous = terminal_unconfirmed

unfoldable pub retry_row : JsString → ℕ → ℕ → Row → Row
retry_row code now delay row = record (release row) {
  publication_state = retry_wait;
  last_outcome_code = some code;
  next_attempt_at = now + delay * 1000000;
}

unfoldable pub terminal_row : FailureKind → JsString → ℕ → Row → Row
unfolding terminal_state
terminal_row kind code now row = record (release row) {
  publication_state = terminal_state kind;
  last_outcome_code = some code;
  terminal_at = some now;
}

pub data Recorded : Type 0 where
  in_state : PublicationState → Recorded
  already_settled : Recorded

-- `result.rows[0]?.publication_state ?? "already_settled"`
unfoldable pub recorded : Handle → PublicationState → Table → Recorded
recorded handle state table =
    if count_where (is_claim_of handle) table == 0 then already_settled else in_state state

unfoldable pub fail_claim : Handle → Failed → ℕ → Table → Result RelayError (Table × Recorded)
fail_claim handle failure now table = elim (ltb handle.publication_attempt 6) [
  | true ↦ do
    delay ← retry_delay_seconds handle.publication_attempt
    ok (
      update_where (is_claim_of handle) (retry_row failure.code now delay) table,
      recorded handle retry_wait table,
    )
  | false ↦ ok (
    update_where (is_claim_of handle) (terminal_row failure.kind failure.code now) table,
    recorded handle (terminal_state failure.kind) table,
  )
]

unfoldable pub record_failure :
    Codec
    → (owned role_ok : Bool) → Handle
    → Failed
    → ℕ
    → Table
    → Result RelayError (Table × Recorded)
record_failure codec owned role_ok input_handle failure now table = do
  handle ← validate_handle codec owned input_handle none
  throw_if (not (is_safe_code failure.code)) claim_rejected
  throw_if (not role_ok) wrong_role
  fail_claim handle failure now table
