-- ===== src/Db/ProductOutbox/Outcomes.antt =====
-- What the results of the product outbox's operations tell (product-outbox-repository.ts).
use mathlib.Core.List.{Memᴰ}
use throughline.Prelude.{
  ℕ, ◌≤◌, ◌<◌, ◌≡◌, refl, inl, inr, Bool, true, false, not, Option, none, some, [], ◌∷◌, Result, ok,
  All-Mem, arith, Bool-cases, bind_value, check_value, leb, ltb, ◌==◌, throw_if, ok_injective,
  throw_if_ok,
}
use throughline.Db.ProductOutbox.{
  Codec, Handle, Row, Table, PublicationState, RelayError, claim_rejected, is_safe_code,
  update_where, validate_handle, is_malformed, count_where,
}
use throughline.Db.ProductOutbox.Publish.{is_claim_of}
use throughline.Db.ProductOutbox.Failure.{
  Failed, terminal_state, Recorded, already_settled, recorded, retry_row, terminal_row,
  retry_delay_seconds, fail_claim, record_failure,
}
use throughline.Db.ProductOutbox.Frame.{
  RowStep, Evolves, IsChecked, Evolves-IsChecked, update_where-Evolves,
}
use throughline.Db.ProductOutbox.Refinement.{retry_row-RowStep, terminal_row-RowStep}

update_where_none :
    (test : Row → Bool) (set : Row → Row) (table : Table)
    → count_where test table ≡ 0
    → update_where test set table ≡ table
unfolding update_where count_where
update_where_none test set [] h = refl
update_where_none test set (row ∷ rows) h = ground (arith, update_where_none test set rows)

retry_delay_pos :
    (attempt delay : ℕ) → retry_delay_seconds attempt ≡ ok delay → (0 < delay) × (delay ≤ 600)
unfolding retry_delay_seconds
retry_delay_pos attempt delay h = ground arith

-- A failure that has no claim left to settle.
abbrev pub IfSettled : Recorded → Table → Table → Type 0
IfSettled already_settled table table' = table' ≡ table
IfSettled (Recorded.in_state state) table table' = Unit

settle-Evolves :
    (now : ℕ) (handle : Handle) (set : Row → Row) (state : PublicationState) (table : Table)
    → ((row : Row) → Memᴰ row table → is_claim_of handle row ≡ true → RowStep now row (set row))
    → Evolves now table (update_where (is_claim_of handle) set table)
      × IfSettled (recorded handle state table) table (update_where (is_claim_of handle) set table)
settle-Evolves now handle set state table step =
    (update_where-Evolves now (is_claim_of handle) set table step, settled)
  where
    settled :
        IfSettled (recorded handle state table) table (update_where (is_claim_of handle) set table)
    settled = elim (Bool-cases (count_where (is_claim_of handle) table == 0)) [
      | inl nothing ↦ unfold recorded in rw nothing (update_where_none _ set table (ground arith))
      | inr something ↦ unfold recorded in rw something tt
    ]

fail_claim_lem :
    (handle : Handle) (failure : Failed) (now : ℕ) (table table' : Table) (r : Recorded)
    → IsChecked table
    → handle.publication_attempt ≤ 6
    → is_safe_code failure.code ≡ true
    → fail_claim handle failure now table ≡ ok (table', r)
    → Evolves now table table' × IfSettled r table table'
unfolding fail_claim
fail_claim_lem handle failure now table table' r checked most code h =
    elim (Bool-cases (ltb handle.publication_attempt 6)) [
      | inl again ↦
          let h1 = rw (again, fail_claim) at h in
          let (delay, found, h2) =
            bind_value (retry_delay_seconds handle.publication_attempt) _ h1 in
          let done =
            settle-Evolves now handle (retry_row failure.code now delay) PublicationState.retry_wait
              table
              (λ row m claim.
                retry_row-RowStep (All-Mem _ table checked m) handle failure.code delay claim
                  (ground (arith, again)) code (retry_delay_pos _ delay found).0) in
          finish_at _ _ h2 done
      | inr last ↦
          let h1 = rw (last, fail_claim) at h in
          let done =
            settle-Evolves now handle (terminal_row failure.kind failure.code now)
              (terminal_state failure.kind) table
              (λ row m claim.
                terminal_row-RowStep (All-Mem _ table checked m) handle failure.kind failure.code
                  claim (ground (arith, last)) code) in
          finish_at _ _ h1 done
    ]
  where
    finish_at :
        (t : Table) (s : Recorded)
        → ◌≡◌ {A = Result RelayError (Table × Recorded)} (ok (t, s)) (ok (table', r))
        → Evolves now table t × IfSettled s table t
        → Evolves now table table' × IfSettled r table table'
    finish_at t s same done =
        let t_same : t ≡ table' = ground arith in
        let s_same : s ≡ r = ground arith in (rw (← t_same) done.0, rw (← t_same, ← s_same) done.1)

is_malformed-attempt :
    (codec : Codec) (handle : Handle)
    → is_malformed codec handle ≡ false
    → handle.publication_attempt ≤ 6
unfolding is_malformed
is_malformed-attempt codec handle h = ground arith

pub validate_handle-attempt :
    (codec : Codec) (owned : Bool) (handle handle' : Handle) (live : Option ℕ)
    → validate_handle codec owned handle live ≡ ok handle'
    → (handle ≡ handle') × (handle.publication_attempt ≤ 6)
unfolding validate_handle
validate_handle-attempt codec owned handle handle' live h =
    let (own, h1) = check_value (throw_if (not owned) claim_rejected) _ h in
    let (formed, h2) = check_value (throw_if (is_malformed codec handle) claim_rejected) _ h1 in
    let (running, h3) =
      check_value
        (throw_if (elim live [ none ↦ false | some now ↦ leb handle.claim_expires_at now ])
          claim_rejected)
        _ h2 in
    (ok_injective h3, is_malformed-attempt codec handle (throw_if_ok _ claim_rejected formed))

-- Recording a failure: each row keeps its values, or is moved to the retry or the terminal state by
-- an update that the trigger and the constraints accept; and where the answer is that the claim was
-- already settled, the table is unchanged.
pub record_failure-Evolves :
    (codec : Codec) (owned role_ok : Bool) (handle : Handle) (failure : Failed) (now : ℕ)
    (table table' : Table) (r : Recorded)
    → IsChecked table
    → record_failure codec owned role_ok handle failure now table ≡ ok (table', r)
    → Evolves now table table' × IsChecked table' × IfSettled r table table'
unfolding record_failure
record_failure-Evolves codec owned role_ok handle failure now table table' r checked h =
    let (handle', valid, h1) = bind_value (validate_handle codec owned handle none) _ h in
    let (code, h2) = check_value (throw_if (not (is_safe_code failure.code)) claim_rejected) _ h1 in
    let (role, h3) = check_value (throw_if (not role_ok) RelayError.wrong_role) _ h2 in
    let (same, most) = validate_handle-attempt codec owned handle handle' none valid in
    let (evolves, settled) =
      fail_claim_lem handle' failure now table table' r checked (rw same at most)
        (ground (arith, code)) h3 in
    (evolves, Evolves-IsChecked now table table' evolves checked, settled)
