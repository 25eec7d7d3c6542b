-- ===== src/Db/Migrations.antt =====
-- packages/db/src/migrations.ts: `applyMigrations`, and the journal's check against the known
-- migrations in packages/db/src/b1-catalog-contract.ts. What PostgreSQL makes of a migration's SQL
-- (`run_sql`, told which migrations the run has applied), and the checks of the installed catalogs
-- (`is_absent`, `is_valid`, and `is_chronological` for the times in the journal), are parameters. The
-- migrations are the sorted directory with its SHA-256 sums; the lock keeps other runs away, and the
-- reset before a run is left out.
pub mod Journal
pub mod Loop
pub mod Laws
mod Tests
use throughline.Prelude.{
  Bool, true, false, ◌&&◌, ◌||◌, not, Option, none, some, List, [], ◌∷◌, ◌++◌, map, Result, ok, err,
  ◌>>=◌, ◌>>◌, throw_if, JsString, str_eq, str_leb, includes, if◌then◌else◌,
}

pub record Migration : Type 0 where
  pub id : JsString
  pub sql : JsString
  pub checksum : JsString

-- A row of throughline_migrations.journal.
pub record Entry : Type 0 where
  pub id : JsString
  pub checksum : JsString

pub record Installed (S : Type 0) : Type 0 where
  pub schema : S
  pub journal : List Entry

pub record MigrationRunResult : Type 0 where
  pub applied : List JsString
  pub skipped : List JsString

pub data MigrationError : Type 0 where
  journal_mismatch state_present catalog_mismatch sql_failed : MigrationError

-- `journal.get(file)`
unfoldable pub recorded_checksum : List Entry → JsString → Option JsString
recorded_checksum [] id = none
recorded_checksum (e ∷ es) id = if str_eq e.id id then some e.checksum else recorded_checksum es id

unfoldable pub is_recorded : List Entry → JsString → Bool
unfolding recorded_checksum
is_recorded journal id = elim (recorded_checksum journal id) [ none ↦ false | some checksum ↦ true ]

unfoldable pub entry_of : Migration → Entry
entry_of m = record { id = m.id; checksum = m.checksum }

-- The rows are, in order, the first of the known migrations, with their checksums.
unfoldable pub is_prefix : List Entry → List Migration → Bool
is_prefix [] known = true
is_prefix (e ∷ es) [] = false
is_prefix (e ∷ es) (m ∷ known) =
    str_eq e.id m.id && (str_eq e.checksum m.checksum && is_prefix es known)

-- `allFiles.filter((file) => !options.through || file <= options.through)`
unfoldable pub is_wanted : Option JsString → JsString → Bool
is_wanted none id = true
is_wanted (some []) id = true
is_wanted (some (unit ∷ units)) id = str_leb id (unit ∷ units)

unfoldable pub wanted : Option JsString → List Migration → List Migration
unfolding is_wanted
wanted through [] = []
wanted through (m ∷ ms) =
    let rest = wanted through ms in if is_wanted through m.id then m ∷ rest else rest

-- `result` at the start
unfoldable pub no_result : MigrationRunResult
no_result = record { applied = []; skipped = [] }

module _ {S : Type 0} (run_sql : List JsString → JsString → S → Option S)
    (is_absent : JsString → S → Bool) (is_valid : List Entry → S → Bool)
    (is_chronological : List Entry → S → Bool) (is_product : JsString → Bool) where
  -- The transaction of one migration.
  unfoldable pub apply_one :
      List JsString → Installed S → Migration → Result MigrationError (Installed S)
  unfolding entry_of
  apply_one applied installed m = do
    throw_if (is_product m.id && not (is_absent m.id installed.schema)) state_present
    throw_if (is_product m.id && not (is_valid installed.journal installed.schema)) catalog_mismatch
    schema ← elim (run_sql applied m.sql installed.schema) [
      | none ↦ err sql_failed
      | some schema ↦ ok schema
    ]
    let journal = installed.journal ++ entry_of m ∷ []
    throw_if (is_product m.id && not (is_valid journal schema)) catalog_mismatch
    ok (record { schema = schema; journal = journal })

  -- The loop over the files, with the result so far.
  unfoldable pub apply_each :
      List Migration
      → Installed S
      → MigrationRunResult
      → Installed S × Result MigrationError MigrationRunResult
  unfolding is_recorded
  apply_each [] installed result = (installed, ok result)
  apply_each (m ∷ ms) installed result = elim (is_recorded installed.journal m.id) [
    | true ↦ elim (is_product m.id && not (is_valid installed.journal installed.schema)) [
      | true ↦ (installed, err catalog_mismatch)
      | false ↦ apply_each ms installed (record result { skipped = result.skipped ++ m.id ∷ [] })
    ]
    | false ↦ elim (apply_one result.applied installed m) [
      | err fault ↦ (installed, err fault)
      | ok next ↦ apply_each ms next (record result { applied = result.applied ++ m.id ∷ [] })
    ]
  ]

  -- The state of the first unrecorded product migration must be absent.
  unfoldable pub is_ready : List Migration → Installed S → Bool
  unfolding is_recorded
  is_ready [] installed = true
  is_ready (m ∷ ms) installed =
      let rest = is_ready ms installed in
      if is_product m.id && not (is_recorded installed.journal m.id)
      then is_absent m.id installed.schema
      else rest

  unfoldable pub apply_migrations :
      List Migration
      → Option JsString
      → Installed S
      → Installed S × Result MigrationError MigrationRunResult
  unfolding is_prefix wanted is_ready apply_each no_result
  apply_migrations known through installed =
      elim (is_prefix installed.journal known
        && is_chronological installed.journal installed.schema) [
          | false ↦ (installed, err journal_mismatch)
          | true ↦ elim (is_ready (wanted through known) installed) [
            | false ↦ (installed, err state_present)
            | true ↦ apply_each (wanted through known) installed no_result
          ]
        ]
