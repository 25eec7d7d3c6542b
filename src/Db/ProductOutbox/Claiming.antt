-- ===== src/Db/ProductOutbox/Claiming.antt =====
-- Claims of the product outbox and their table (product-outbox-repository.ts).
use mathlib.Core.List.{Memᴰ}
use throughline.Prelude.{
  ℕ, ◌+◌, ◌*◌, ◌≤◌, ◌<◌, ◌≡◌, inl, inr, true, not, Option, none, some, ok, All-Mem, arith,
  Option-cases, bind_value, check_value, JsString, str_eq_refl, throw_if,
}
use throughline.Db.ProductOutbox.{
  Codec, Scope, Handle, Row, Table, RelayError, is_safe_owner, is_claim_token, in_scope,
  update_where,
}
use throughline.Db.ProductOutbox.Claim.{
  ClaimOptions, ClaimEnv, is_interrupted, give_up, is_eligible, is_chosen, claim_row,
  first_eligible, to_milliseconds, create_claim_handle, claim_statements, claim_next,
  validate_scope, validate_claim_options,
}
use throughline.Db.ProductOutbox.Publish.{is_claim_of}
use throughline.Db.ProductOutbox.Frame.{
  Evolves, IsChecked, HasUniqueKeys, Evolves-refl, Evolves-IsChecked, Evolves-HasUniqueKeys,
  HasUniqueKeys-eq, update_where-Evolves, update_where_mem,
}
use throughline.Db.ProductOutbox.Refinement.{give_up-RowStep, claim_row-RowStep}
use throughline.Db.ProductOutbox.Selection.{
  first_eligible_sound, to_milliseconds_le, is_chosen-SameKey,
}

-- The table after the sweep of interrupted claims, at the time of the call.
abbrev pub swept_table : Scope → ClaimEnv → Table → Table
swept_table scope env table = update_where (is_interrupted scope env.now) (give_up env.now) table

sweep-Evolves :
    (scope : Scope) (env : ClaimEnv) (table : Table)
    → IsChecked table
    → Evolves env.now table (swept_table scope env table)
sweep-Evolves scope env table checked =
    update_where-Evolves env.now (is_interrupted scope env.now) (give_up env.now) table
      (λ row m h. give_up-RowStep (All-Mem _ table checked m) scope h)

claim-Evolves :
    (scope : Scope) (options : ClaimOptions) (env : ClaimEnv) (table : Table) (chosen : Row)
    → IsChecked table
    → HasUniqueKeys table
    → is_safe_owner options.claimed_by ≡ true
    → 0 < options.lease_seconds
    → is_claim_token env.token ≡ true
    → first_eligible scope (to_milliseconds env.now) env.locked table ≡ some chosen
    → Evolves env.now table (
        update_where
          (is_chosen scope chosen)
          (claim_row options env.token (to_milliseconds env.now))
          table)
claim-Evolves scope options env table chosen checked unique owner lease token found =
    let (m, eligible, _) = first_eligible_sound scope _ env.locked table chosen found in
    update_where-Evolves env.now (is_chosen scope chosen) _ table (λ row n h.
      let same =
        HasUniqueKeys-eq table unique n m
          (is_chosen-SameKey scope (to_milliseconds env.now) chosen row eligible h) in
      claim_row-RowStep (All-Mem _ table checked n) scope options env.token
        (to_milliseconds env.now) (rw same eligible) (to_milliseconds_le env.now) owner lease token)

-- What a claim gives its caller: nothing if no row was claimed; or a handle with which a row of the
-- new table is claimed, for the sixth time at most, until the lease ends.
abbrev pub Claimed : ClaimOptions → ClaimEnv → Table → Option Handle → Type 0
Claimed options env table none = Unit
Claimed options env table (some handle) =
    (handle.publication_attempt ≤ 6)
    × (handle.claim_expires_at ≡ to_milliseconds env.now + options.lease_seconds * 1000000)
    × ((row : Row) × Memᴰ row table × (is_claim_of handle row ≡ true))

is_claim_of-claim_row :
    (codec : Codec) (scope : Scope) (options : ClaimOptions) (token : JsString) (at : ℕ) (row : Row)
    (handle : Handle)
    → create_claim_handle codec options token at row ≡ ok handle
    → is_eligible scope at row ≡ true
    → (is_claim_of handle (claim_row options token at row) ≡ true)
      × (handle.publication_attempt ≤ 6)
      × (handle.claim_expires_at ≡ at + options.lease_seconds * 1000000)
      × (is_chosen scope row row ≡ true)
unfolding create_claim_handle is_claim_of claim_row is_eligible is_chosen in_scope
is_claim_of-claim_row codec scope options token at row handle h e =
    elim (Option-cases (codec.parse row.columns)) [
      | inl nothing ↦ ground (arith, nothing)
      | inr (envelope, parsed) ↦ ground (
        arith,
        parsed,
        str_eq_refl row.columns.event_id,
        str_eq_refl row.columns.tenant_id,
        str_eq_refl row.columns.workspace_id,
        str_eq_refl row.columns.space_id,
        str_eq_refl row.relay_service_principal_id,
        str_eq_refl row.policy_version_id,
        str_eq_refl options.claimed_by,
        str_eq_refl token,
      )
    ]

claim_statements_lem :
    (codec : Codec) (scope : Scope) (options : ClaimOptions) (env : ClaimEnv) (table table' : Table)
    (claim : Option Handle)
    → IsChecked table
    → HasUniqueKeys table
    → is_safe_owner options.claimed_by ≡ true
    → 0 < options.lease_seconds
    → is_claim_token env.token ≡ true
    → claim_statements codec scope options env table ≡ ok (table', claim)
    → Evolves env.now (swept_table scope env table) table' × Claimed options env table' claim
unfolding claim_statements
claim_statements_lem codec scope options env table table' claim checked unique owner lease token h =
    elim (Option-cases (first_eligible scope at env.locked swept)) [
      | inl nothing ↦ none_found nothing
      | inr (chosen, found) ↦ some_found chosen found
    ]
  where
    at : ℕ
    at = to_milliseconds env.now

    swept : Table
    swept = swept_table scope env table

    none_found :
        first_eligible scope at env.locked swept ≡ none
        → Evolves env.now swept table' × Claimed options env table' claim
    none_found nothing =
        let same : swept ≡ table' = ground (arith, nothing) in
        let empty : none ≡ claim = ground (arith, nothing) in
        (rw (← same) (Evolves-refl env.now swept), rw (← empty) tt)

    some_found :
        (chosen : Row)
        → first_eligible scope at env.locked swept ≡ some chosen
        → Evolves env.now swept table' × Claimed options env table' claim
    some_found chosen found =
        let evolves = sweep-Evolves scope env table checked in
        let written =
          update_where (is_chosen scope chosen) (claim_row options env.token at) swept in
        let h1 = rw (found, claim_statements) at h in
        let (handle, made, h2) =
          bind_value (create_claim_handle codec options env.token at chosen) _ h1 in
        let same : written ≡ table' = ground (arith, h2) in
        let given : some handle ≡ claim = ground (arith, h2) in
        let (m, eligible, _) = first_eligible_sound scope at env.locked swept chosen found in
        let (claims, most, expires, itself) =
          is_claim_of-claim_row codec scope options env.token at chosen handle made eligible in
        (
          rw (← same) (
              claim-Evolves scope options env swept chosen
                (Evolves-IsChecked env.now table swept evolves checked)
                (Evolves-HasUniqueKeys env.now table swept evolves unique) owner lease token found),
          rw (← given) (
            most,
            expires,
            (
              claim_row options env.token at chosen,
              rw (← same) (update_where_mem _ _ swept chosen m itself),
              claims,
            ),
          ),
        )

validate_claim_options_ok :
    (options : ClaimOptions)
    → validate_claim_options options ≡ ok tt
    → (is_safe_owner options.claimed_by ≡ true) × (0 < options.lease_seconds)
unfolding validate_claim_options
validate_claim_options_ok options h = ground arith

-- A claim on a table whose rows meet the constraints and have distinct keys, with a random token of
-- the token format: the table evolves by the sweep and then by the claim, each by updates that the
-- trigger and the constraints accept; it still meets the constraints and has distinct keys; and the
-- handle returned, if any, is one with which a row is claimed, for the sixth time at most, its
-- lease ending the requested seconds after the claim.
pub claim_next-Evolves :
    (codec : Codec) (scope : Scope) (options : ClaimOptions) (env : ClaimEnv) (table table' : Table)
    (claim : Option Handle)
    → IsChecked table
    → HasUniqueKeys table
    → is_claim_token env.token ≡ true
    → claim_next codec scope options env table ≡ ok (table', claim)
    → (swept : Table) × Evolves env.now table swept
      × Evolves env.now swept table'
      × IsChecked table'
      × HasUniqueKeys table'
      × Claimed options env table' claim
unfolding claim_next
claim_next-Evolves codec scope options env table table' claim checked unique token h =
    let (scope', valid, h1) = bind_value (validate_scope scope) _ h in
    let (valid_options, h2) = check_value (validate_claim_options options) _ h1 in
    let (role, h3) = check_value (throw_if (not env.role_ok) RelayError.wrong_role) _ h2 in
    let (owner, lease) = validate_claim_options_ok options valid_options in
    let (evolves, claimed_) =
      claim_statements_lem codec scope' options env table table' claim checked unique owner lease
        token h3 in
    let sweep = sweep-Evolves scope' env table checked in
    (
      swept_table scope' env table,
      sweep,
      evolves,
      Evolves-IsChecked env.now _ table' evolves (Evolves-IsChecked env.now table _ sweep checked),
      Evolves-HasUniqueKeys env.now _ table' evolves
          (Evolves-HasUniqueKeys env.now table _ sweep unique),
      claimed_,
    )
