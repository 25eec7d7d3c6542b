-- ===== src/Db/ProductOutbox/Claim.antt =====
-- packages/db/src/product-outbox-repository.ts: `claimNext`. A row that another transaction holds is
-- passed over (`SKIP LOCKED`): `locked` tells which identifiers are held.
use throughline.Prelude.{
  ℕ, ◌+◌, ◌*◌, ◌/◌, Bool, ◌&&◌, ◌||◌, not, Option, none, some, [], ◌∷◌, Result, ok, err, ◌>>=◌,
  ◌>>◌, throw_if, leb, ltb, ◌==◌, length, if◌then◌else◌, JsString, str_eq, str_leb, units,
}
use throughline.Db.ProductOutbox.{
  pending, claimed, retry_wait, terminal_unconfirmed, Codec, Scope, Row, Table, Handle, RelayError,
  claim_rejected, wrong_role, invalid_envelope, is_state, at_most, in_scope, update_where, release,
  is_safe_owner, Handle,
}
use throughline.Truth.Validation.{matches, times}

pub record ClaimOptions : Type 0 where
  pub claimed_by : JsString
  pub lease_seconds : ℕ

-- The UUID pattern of `validateScope`, which is case-insensitive.
is_hex : ℕ → Bool
is_hex u = (leb b'0' u && leb u b'9') || (leb b'a' u && leb u b'f') || (leb b'A' u && leb u b'F')

is_dash : ℕ → Bool
is_dash u = u == b'-'

is_variant : ℕ → Bool
is_variant u = u == b'8' || u == b'9' || u == b'a' || u == b'b' || u == b'A' || u == b'B'

unfoldable pub is_uuid : JsString → Bool
unfolding matches times is_hex is_dash is_variant
is_uuid s =
    matches
      (times 8 is_hex (
        times 1 is_dash (
          times 4 is_hex (
            times 1 is_dash (
              times 1 (λ u. leb b'1' u && leb u b'8')
                (times 3 is_hex (
                  times 1 is_dash (
                    times 1 is_variant
                      (times 3 is_hex (times 1 is_dash (times 12 is_hex [])))))))))))
      s

unfoldable pub validate_scope : Scope → Result RelayError Scope
validate_scope scope = do
  throw_if
      (not (is_uuid scope.tenant_id)
        || not (is_uuid scope.workspace_id)
        || not (is_uuid scope.space_id)
        || not (is_uuid scope.relay_service_principal_id))
      claim_rejected
  throw_if (length scope.policy_version_id == 0 || ltb 200 (length scope.policy_version_id))
      claim_rejected
  ok scope

unfoldable pub validate_claim_options : ClaimOptions → Result RelayError (Unit {0})
validate_claim_options options = do
  throw_if (not (is_safe_owner options.claimed_by)) claim_rejected
  throw_if (ltb options.lease_seconds 5 || ltb 300 options.lease_seconds) claim_rejected

-- The first `UPDATE`: a sixth claim whose lease has run out is given up.
unfoldable pub is_interrupted : Scope → ℕ → Row → Bool
is_interrupted scope now row =
    in_scope scope row
    && is_state row.publication_state claimed
    && row.publication_attempt == 6
    && at_most row.claim_expires_at now

unfoldable pub give_up : ℕ → Row → Row
give_up now row = record (release row) {
  publication_state = terminal_unconfirmed;
  last_outcome_code = some (units "relay_interrupted");
  terminal_at = some now;
}

-- `date_trunc('milliseconds', …)`
unfoldable pub to_milliseconds : ℕ → ℕ
to_milliseconds now = now / 1000 * 1000

-- The `WHERE` of `eligible`.
unfoldable pub is_eligible : Scope → ℕ → Row → Bool
is_eligible scope at row =
    in_scope scope row
    && ltb row.publication_attempt 6
    && ((is_state row.publication_state pending || is_state row.publication_state retry_wait)
          && leb row.next_attempt_at at
        || is_state row.publication_state claimed && at_most row.claim_expires_at at)

-- `ORDER BY event.next_attempt_at, event.created_at, event.id`
unfoldable pub is_before : Row → Row → Bool
is_before a b =
    ltb a.next_attempt_at b.next_attempt_at
    || a.next_attempt_at == b.next_attempt_at
      && (ltb a.created_at b.created_at
          || a.created_at == b.created_at && str_leb a.columns.event_id b.columns.event_id)

-- `LIMIT 1 FOR UPDATE … SKIP LOCKED`
unfoldable pub first_eligible : Scope → ℕ → (locked : JsString → Bool) → Table → Option Row
first_eligible scope at locked [] = none
first_eligible scope at locked (row ∷ rows) =
    let rest = first_eligible scope at locked rows in
    if is_eligible scope at row && not (locked row.columns.event_id)
    then elim rest [
      | none ↦ some row
      | some other ↦ some (if is_before row other then row else other)
    ]
    else rest

unfoldable pub claim_row : ClaimOptions → JsString → ℕ → Row → Row
claim_row options token at row = record row {
  publication_state = claimed;
  publication_attempt = row.publication_attempt + 1;
  claimed_at = some at;
  claimed_by = some options.claimed_by;
  claim_token = some token;
  claim_expires_at = some (at + options.lease_seconds * 1000000);
  last_outcome_code = none;
}

-- `createClaimHandle` of the row as it was before the claim.
unfoldable pub create_claim_handle :
    Codec → ClaimOptions → JsString → ℕ → Row → Result RelayError Handle
create_claim_handle codec options token at row = elim (codec.parse row.columns) [
  | none ↦ err invalid_envelope
  | some envelope ↦ ok (record {
    event_id = row.columns.event_id;
    scope = record {
      tenant_id = row.columns.tenant_id;
      workspace_id = row.columns.workspace_id;
      space_id = row.columns.space_id;
      relay_service_principal_id = row.relay_service_principal_id;
      policy_version_id = row.policy_version_id;
    };
    event_type = envelope.event_type;
    aggregate_type = envelope.aggregate_type;
    aggregate_id = envelope.aggregate_id;
    aggregate_version = envelope.aggregate_version;
    causation_command_id = envelope.causation_command_id;
    envelope = envelope;
    canonical_envelope = codec.serialize envelope;
    publication_attempt = row.publication_attempt + 1;
    claimed_by = options.claimed_by;
    claim_token = token;
    claimed_at = at;
    claim_expires_at = at + options.lease_seconds * 1000000;
  })
]

-- The rows that the second `UPDATE` writes.
unfoldable pub is_chosen : Scope → Row → Row → Bool
is_chosen scope chosen row =
    str_eq row.columns.event_id chosen.columns.event_id && in_scope scope row

-- What a call meets: whether the database role is the relay's, the random token, the clock, and the
-- rows that other transactions hold.
pub record ClaimEnv : Type 0 where
  pub role_ok : Bool
  pub token : JsString
  pub now : ℕ
  pub locked : JsString → Bool

-- The two statements of the transaction.
unfoldable pub claim_statements :
    Codec → Scope → ClaimOptions → ClaimEnv → Table → Result RelayError (Table × Option Handle)
claim_statements codec scope options env table =
    let at = to_milliseconds env.now in
    let swept = update_where (is_interrupted scope env.now) (give_up env.now) table in
    elim (first_eligible scope at env.locked swept) [
      | none ↦ ok (swept, none)
      | some chosen ↦ do
        handle ← create_claim_handle codec options env.token at chosen
        ok (
          update_where (is_chosen scope chosen) (claim_row options env.token at) swept,
          some handle,
        )
    ]

-- An error rolls the transaction back: then there is no new table.
unfoldable pub claim_next :
    Codec → Scope → ClaimOptions → ClaimEnv → Table → Result RelayError (Table × Option Handle)
claim_next codec input_scope options env table = do
  scope ← validate_scope input_scope
  validate_claim_options options
  throw_if (not env.role_ok) wrong_role
  claim_statements codec scope options env table
