-- ===== src/Relay/Product/Recording.antt =====
-- What recordFailure leaves of the rows (packages/db/src/product-outbox-repository.ts), and the errors
-- of a run of the relay.
use throughline.Prelude.{
  ℕ, ◌≤◌, ◌<◌, ◌≡◌, refl, ◌⊎◌, inl, inr, Bool, true, false, not, none, some, [], ◌∷◌, ok, err,
  throw_if, arith, Bool-cases, ltb, bind_value, check_value,
}
use throughline.Db.ProductOutbox.{
  Codec, Handle, Row, Table, PublicationState, RelayError, claim_rejected, is_safe_code,
  unauthorized, update_where, validate_handle, wrong_role,
}
use throughline.Db.ProductOutbox.Publish.{is_claim_of}
use throughline.Db.ProductOutbox.Failure.{
  Failed, FailureKind, Recorded, ambiguous, deterministic, fail_claim, record_failure, retry_row,
  retry_delay_seconds, terminal_row, terminal_state,
}
use throughline.Db.ProductOutbox.Outcomes.{validate_handle-attempt}

-- The states that the sixth failure ends in.
abbrev pub IsTerminal : FailureKind → PublicationState → Type 0
IsTerminal deterministic state = state ≡ PublicationState.terminal_failed
IsTerminal ambiguous state = state ≡ PublicationState.terminal_unconfirmed

-- A claimed row after its failure was recorded.
pub record Ended (handle : Handle) (failure : Failed) (row : Row) : Type 0 where
  pub code : row.last_outcome_code ≡ some failure.code
  pub unclaimed : (row.claimed_by ≡ none) × (row.claim_token ≡ none) × (row.claim_expires_at ≡ none)
  pub state :
      ((handle.publication_attempt < 6) × (row.publication_state ≡ PublicationState.retry_wait))
      ⊎ ((6 ≤ handle.publication_attempt) × IsTerminal failure.kind row.publication_state)

-- Row by row: a row that the handle had claimed is ended, and any other is as it was.
abbrev pub RecordedAs : Handle → Failed → Table → Table → Type 0
RecordedAs handle failure [] [] = Unit
RecordedAs handle failure [] (new ∷ news) = ⊥
RecordedAs handle failure (old ∷ olds) [] = ⊥
RecordedAs handle failure (old ∷ olds) (new ∷ news) =
    (((is_claim_of handle old ≡ true) × Ended handle failure new)
      ⊎ ((is_claim_of handle old ≡ false) × (new ≡ old)))
    × RecordedAs handle failure olds news

update_where-RecordedAs :
    (handle : Handle) (failure : Failed) (set : Row → Row) (table : Table)
    → ((row : Row) → Ended handle failure (set row))
    → RecordedAs handle failure table (update_where (is_claim_of handle) set table)
unfolding update_where
update_where-RecordedAs handle failure set [] ends = tt
update_where-RecordedAs handle failure set (row ∷ rows) ends =
    let rest = update_where-RecordedAs handle failure set rows ends in
    elim (Bool-cases (is_claim_of handle row)) [
      | inl claim ↦ rw (claim, update_where) (inl (refl, ends row), rest)
      | inr other ↦ rw (other, update_where) (inr (refl, refl), rest)
    ]

IsTerminal-terminal_state : (kind : FailureKind) → IsTerminal kind (terminal_state kind)
unfolding terminal_state
IsTerminal-terminal_state deterministic = refl
IsTerminal-terminal_state ambiguous = refl

fail_claim-RecordedAs :
    (handle : Handle) (failure : Failed) (now : ℕ) (table table' : Table) (r : Recorded)
    → fail_claim handle failure now table ≡ ok (table', r)
    → RecordedAs handle failure table table'
unfolding fail_claim retry_row terminal_row
fail_claim-RecordedAs handle failure now table table' r h =
    elim (Bool-cases (ltb handle.publication_attempt 6)) [
      | inl again ↦
          let h1 = rw (again, fail_claim) at h in
          let (delay, found, h2) =
            bind_value (retry_delay_seconds handle.publication_attempt) _ h1 in
          let same : update_where (is_claim_of handle) (retry_row failure.code now delay) table
              ≡ table' =
            ground (arith, h2) in
          rw (← same) (
            update_where-RecordedAs handle failure (retry_row failure.code now delay) table (λ row.
              record {
                code = refl;
                unclaimed = (refl, refl, refl);
                state = inl (ground (arith, again), refl);
              }))
      | inr last ↦
          let same : update_where (is_claim_of handle) (terminal_row failure.kind failure.code now)
                table
              ≡ table' =
            ground (arith, last, h) in
          rw (← same) (
            update_where-RecordedAs handle failure (terminal_row failure.kind failure.code now)
              table
              (λ row. record {
                code = refl;
                unclaimed = (refl, refl, refl);
                state = inr (ground (arith, last), IsTerminal-terminal_state failure.kind);
              }))
    ]

pub record_failure-RecordedAs :
    (codec : Codec) (owned role_ok : Bool) (handle : Handle) (failure : Failed) (now : ℕ)
    (table table' : Table) (r : Recorded)
    → record_failure codec owned role_ok handle failure now table ≡ ok (table', r)
    → RecordedAs handle failure table table'
unfolding record_failure
record_failure-RecordedAs codec owned role_ok handle failure now table table' r h =
    let (handle', valid, h1) = bind_value (validate_handle codec owned handle none) _ h in
    let (code, h2) = check_value (throw_if (not (is_safe_code failure.code)) claim_rejected) _ h1 in
    let (role, h3) = check_value (throw_if (not role_ok) wrong_role) _ h2 in
    let (same, most) = validate_handle-attempt codec owned handle handle' none valid in
    rw same (fail_claim-RecordedAs handle' failure now table table' r h3)

-- The errors that a run passes on after the claim.
abbrev pub IsPassed : RelayError → Type 0
IsPassed e = (e ≡ claim_rejected) ⊎ ((e ≡ unauthorized) ⊎ (e ≡ wrong_role))

pub record_failure-IsPassed :
    (codec : Codec) (owned role_ok : Bool) (handle : Handle) (failure : Failed) (now : ℕ)
    (table : Table) (e : RelayError)
    → record_failure codec owned role_ok handle failure now table ≡ err e
    → IsPassed e
unfolding record_failure validate_handle fail_claim retry_delay_seconds
record_failure-IsPassed codec owned role_ok handle failure now table e h = ground (arith, h)
