-- ===== src/Db/ProductOutbox.antt =====
-- packages/db/src/product-outbox-repository.ts: the rows of ops.product_outbox_events, the handles
-- of claimed rows, and the formats that the repository checks. Times are microseconds; a text column
-- that may be NULL is an `Option`. `parse` and `serialize` of the interface `Codec` stand for the
-- parser and the serializer of domain notifications.
pub mod Claim
pub mod Publish
pub mod Failure
pub mod Contract
pub mod Frame
pub mod Refinement
pub mod Selection
pub mod Claiming
pub mod Settling
pub mod Outcomes
pub mod Acknowledging
pub mod History
pub mod Examples
mod Tests
use throughline.Prelude.{
  ℕ, zero, suc, ◌+◌, ◌*◌, ◌/◌, Bool, true, false, ◌&&◌, ◌||◌, not, Option, none, some, List, [],
  ◌∷◌, Result, ok, err, ◌>>=◌, ◌>>◌, throw_if, leb, ltb, ◌==◌, length, all, any, map, if◌then◌else◌,
  JsString, str_eq,
}
use throughline.Core.ScalarText.{array_from}
use throughline.Core.Whitespace.{code_point}

pub data PublicationState : Type 0 where
  pending claimed retry_wait published terminal_failed terminal_unconfirmed : PublicationState

-- The columns that make the envelope of an event; `content` is the payload with the request and
-- trace identifiers and the schema versions.
pub record Envelope : Type 0 where
  pub event_id : JsString
  pub tenant_id : JsString
  pub workspace_id : JsString
  pub space_id : JsString
  pub event_type : JsString
  pub aggregate_type : JsString
  pub aggregate_id : JsString
  pub aggregate_version : ℕ
  pub causation_command_id : JsString
  pub content : JsString

pub record Codec : Type 0 where
  pub parse : Envelope → Option Envelope
  pub serialize : Envelope → JsString

pub record Scope : Type 0 where
  pub tenant_id : JsString
  pub workspace_id : JsString
  pub space_id : JsString
  pub relay_service_principal_id : JsString
  pub policy_version_id : JsString

pub record Row : Type 0 where
  pub columns : Envelope
  pub relay_service_principal_id : JsString
  pub policy_version_id : JsString
  pub created_at : ℕ
  pub publication_state : PublicationState
  pub publication_attempt : ℕ
  pub next_attempt_at : ℕ
  pub claimed_at : Option ℕ
  pub claimed_by : Option JsString
  pub claim_token : Option JsString
  pub claim_expires_at : Option ℕ
  pub last_outcome_code : Option JsString
  pub published_at : Option ℕ
  pub published_message_id : Option JsString
  pub terminal_at : Option ℕ

abbrev pub Table : Type 0
Table = List Row

pub record Handle : Type 0 where
  pub event_id : JsString
  pub scope : Scope
  pub event_type : JsString
  pub aggregate_type : JsString
  pub aggregate_id : JsString
  pub aggregate_version : ℕ
  pub causation_command_id : JsString
  pub envelope : Envelope
  pub canonical_envelope : JsString
  pub publication_attempt : ℕ
  pub claimed_by : JsString
  pub claim_token : JsString
  pub claimed_at : ℕ
  pub claim_expires_at : ℕ

-- ProductRelayClaimRejectedError, ProductRelayAuthorizationError, the error on the database role, on
-- an envelope or a message identifier that is not valid, and an error of the publisher by its name.
pub data RelayError : Type 0 where
  claim_rejected unauthorized wrong_role invalid_envelope missing_message_id : RelayError
  publisher_failed : JsString → RelayError

abbrev pub is_state : PublicationState → PublicationState → Bool
is_state pending pending = true
is_state claimed claimed = true
is_state retry_wait retry_wait = true
is_state published published = true
is_state terminal_failed terminal_failed = true
is_state terminal_unconfirmed terminal_unconfirmed = true
is_state _ _ = false

-- `column = value` and `column <= value` in SQL, not true of NULL.
abbrev pub text_is : Option JsString → JsString → Bool
text_is none s = false
text_is (some t) s = str_eq t s

abbrev pub time_is : Option ℕ → ℕ → Bool
time_is none t = false
time_is (some u) t = u == t

abbrev pub at_most : Option ℕ → ℕ → Bool
at_most none t = false
at_most (some u) t = leb u t

abbrev pub after : Option ℕ → ℕ → Bool
after none t = false
after (some u) t = ltb t u

-- The columns hold UUIDs, which are written in one way here: a scope in upper case, which SQL takes
-- for the same UUIDs, is not modelled.
unfoldable pub in_scope : Scope → Row → Bool
in_scope scope row =
    str_eq row.columns.tenant_id scope.tenant_id
    && str_eq row.columns.workspace_id scope.workspace_id
    && str_eq row.columns.space_id scope.space_id
    && str_eq row.relay_service_principal_id scope.relay_service_principal_id
    && str_eq row.policy_version_id scope.policy_version_id

-- `UPDATE … SET … WHERE …`
unfoldable pub update_where : (Row → Bool) → (Row → Row) → Table → Table
update_where test set [] = []
update_where test set (row ∷ rows) =
    (if test row then set row else row) ∷ update_where test set rows

-- The rows that `RETURNING` gives.
unfoldable pub count_where : (Row → Bool) → Table → ℕ
count_where test [] = 0
count_where test (row ∷ rows) =
    if test row then suc (count_where test rows) else count_where test rows

-- `claimed_at = NULL, claimed_by = NULL, claim_token = NULL, claim_expires_at = NULL`
abbrev pub release : Row → Row
release row = record row {
  claimed_at = none;
  claimed_by = none;
  claim_token = none;
  claim_expires_at = none;
}

unfoldable pub is_alnum : ℕ → Bool
is_alnum u = (leb b'A' u && leb u b'Z') || (leb b'a' u && leb u b'z') || (leb b'0' u && leb u b'9')

unfoldable pub is_lower_alnum : ℕ → Bool
is_lower_alnum u = (leb b'a' u && leb u b'z') || (leb b'0' u && leb u b'9')

-- A pattern `^[first][rest]{0,n}$`.
unfoldable pub head_tail : (ℕ → Bool) → (ℕ → Bool) → ℕ → JsString → Bool
head_tail first rest n [] = false
head_tail first rest n (u ∷ s) = first u && all rest s && leb (length s) n

-- CLAIM_TOKEN_PATTERN
unfoldable pub is_claim_token : JsString → Bool
unfolding is_alnum
is_claim_token s = all (λ u. is_alnum u || u == b'_' || u == b'-') s && length s == 43

unfoldable pub is_owner_char : ℕ → Bool
unfolding is_alnum
is_owner_char u = is_alnum u || u == b'.' || u == b'_' || u == b':' || u == b'-'

-- SAFE_OWNER_PATTERN
unfoldable pub is_safe_owner : JsString → Bool
unfolding head_tail
is_safe_owner s = head_tail is_alnum is_owner_char 127 s

-- SAFE_CODE_PATTERN
unfoldable pub is_safe_code : JsString → Bool
unfolding head_tail is_lower_alnum
is_safe_code s = head_tail is_lower_alnum (λ u. is_lower_alnum u || u == b'_') 99 s

unfoldable pub has_control_characters : JsString → Bool
unfolding code_point array_from
has_control_characters s = any (λ c. leb (code_point c) 31 || code_point c == 127) (array_from s)

-- `validateMessageId`
unfoldable pub validate_message_id : JsString → Result RelayError JsString
validate_message_id value = do
  throw_if (ltb (length value) 1 || ltb 200 (length value) || has_control_characters value)
      missing_message_id
  ok value

module _ (codec : Codec) where
  -- The condition of `validateHandle` on the fields; that the dates can be parsed and the attempt is
  -- an integer holds by type.
  unfoldable pub is_malformed : Handle → Bool
  is_malformed h =
      not (is_claim_token h.claim_token)
      || not (is_safe_owner h.claimed_by)
      || ltb h.publication_attempt 1
      || ltb 6 h.publication_attempt
      || not (str_eq (codec.serialize h.envelope) h.canonical_envelope)
      || not (str_eq h.event_id h.envelope.event_id)
      || not (str_eq h.scope.tenant_id h.envelope.tenant_id)
      || not (str_eq h.scope.workspace_id h.envelope.workspace_id)
      || not (str_eq h.scope.space_id h.envelope.space_id)
      || not (str_eq h.event_type h.envelope.event_type)
      || not (str_eq h.aggregate_type h.envelope.aggregate_type)
      || not (str_eq h.aggregate_id h.envelope.aggregate_id)
      || not (h.aggregate_version == h.envelope.aggregate_version)
      || not (str_eq h.causation_command_id h.envelope.causation_command_id)
      || leb h.claim_expires_at h.claimed_at

  -- `validateHandle`. `owned` is whether this repository made the handle, and `live_at` the time at
  -- which the lease has to run, if it has to.
  unfoldable pub validate_handle : (owned : Bool) → Handle → Option ℕ → Result RelayError Handle
  validate_handle owned h live_at = do
    throw_if (not owned) claim_rejected
    throw_if (is_malformed h) claim_rejected
    throw_if (elim live_at [ none ↦ false | some now ↦ leb h.claim_expires_at now ]) claim_rejected
    ok h
