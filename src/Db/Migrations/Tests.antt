-- ===== src/Db/Migrations/Tests.antt =====
-- Two migrations, of which one is recorded.
use mathlib.Core.Path.{◌≡◌, refl}
use throughline.Prelude.{
  ℕ, ◌+◌, Bool, true, Option, none, some, List, [], ◌∷◌, ◌++◌, map, ok, JsString, length, ltb,
  str_eq, ◌==◌, units,
}
use throughline.Db.Migrations.{
  Migration, Entry, Installed, MigrationRunResult, entry_of, is_prefix, apply_one, apply_migrations,
}
use throughline.Db.Migrations.Journal.{AreDistinct, ids}
use throughline.Db.Migrations.Loop.{Ends}
use throughline.Db.Migrations.Laws.{apply_migrations-Ends, apply_migrations_rerun}

abbrev tenants : Migration
tenants = record {
  id = units "0001.sql";
  sql = units "create table tenant ()";
  checksum = units "a1";
}

abbrev outbox : Migration
outbox = record {
  id = units "0002.sql";
  sql = units "create table outbox ()";
  checksum = units "b2";
}

abbrev known : List Migration
known = tenants ∷ outbox ∷ []

-- The schema is the number of its tables; a migration makes one.
abbrev run_sql : List JsString → JsString → ℕ → Option ℕ
run_sql applied sql tables = some (tables + 1)

abbrev is_absent : JsString → ℕ → Bool
is_absent id tables = ltb tables 2

abbrev is_valid : List Entry → ℕ → Bool
is_valid journal tables = length journal == tables

abbrev is_chronological : List Entry → ℕ → Bool
is_chronological journal tables = true

abbrev is_product : JsString → Bool
is_product id = true

abbrev installed : Installed ℕ
installed = record { schema = 1; journal = entry_of tenants ∷ [] }

abbrev after : Installed ℕ
after = record { schema = 2; journal = entry_of tenants ∷ entry_of outbox ∷ [] }

abbrev final : MigrationRunResult
final = record { applied = outbox.id ∷ []; skipped = tenants.id ∷ [] }

distinct : AreDistinct known
unfolding str_eq
distinct = ((refl, tt), (tt, tt))

apply_migrations-Ends_example :
    (old : List Migration) × (rest : List Migration) × (known ≡ old ++ rest)
    × (installed.journal ≡ map entry_of old)
    × Ends (record { applied = []; skipped = ids old }) old rest after (ok final)
unfolding is_prefix str_eq entry_of apply_migrations apply_one
apply_migrations-Ends_example =
    apply_migrations-Ends run_sql is_absent is_valid is_chronological is_product known installed
      refl distinct

apply_migrations_rerun_example :
    apply_migrations run_sql is_absent is_valid is_chronological is_product known none after
    ≡ (after, ok (record { applied = []; skipped = ids known }))
unfolding apply_migrations str_eq entry_of apply_one
apply_migrations_rerun_example =
    apply_migrations_rerun run_sql is_absent is_valid is_chronological is_product known installed
      after final distinct refl refl refl
