-- ===== src/Db/Migrations/Laws.antt =====
-- What a run of the migrations leaves in the journal (packages/db/src/migrations.ts).
use mathlib.Core.Path.{subst}
use mathlib.Core.List.{append-nil}
use throughline.Prelude.{
  ◌≡◌, refl, sym, ap, ◌∙◌, Bool, true, Option, none, List, [], ◌∷◌, ◌++◌, map, ok, err, JsString,
  inl, inr, ◌⊎◌, arith, Bool-cases,
}
use throughline.Db.Migrations.{
  Migration, Entry, Installed, MigrationRunResult, MigrationError, entry_of, is_prefix, is_wanted,
  wanted, apply_each, apply_migrations, is_ready, no_result, catalog_mismatch, journal_mismatch,
  state_present,
}
use throughline.Db.Migrations.Journal.{AreDistinct, ids, is_prefix_of, is_prefix-map}
use throughline.Db.Migrations.Loop.{
  Ends, Ends-subst, apply_each-Ends, apply_each_skips, apply_each_recorded, is_ready_recorded,
}

wanted-none : (known : List Migration) → wanted none known ≡ known
unfolding wanted is_wanted
wanted-none [] = refl
wanted-none (m ∷ ms) = ap (λ l. m ∷ l) (wanted-none ms)

module _ {S : Type 0} (run_sql : List JsString → JsString → S → Option S)
    (is_absent : JsString → S → Bool) (is_valid : List Entry → S → Bool)
    (is_chronological : List Entry → S → Bool) (is_product : JsString → Bool) where
  -- The run of all the migrations ends in one of the checks, or is the loop.
  apply_migrations_cases :
      (known : List Migration) (installed : Installed S)
      → is_prefix installed.journal known ≡ true
      → ((fault : MigrationError) × (apply_migrations run_sql is_absent is_valid is_chronological
              is_product known none installed
            ≡ (installed, err fault)))
        ⊎ (apply_migrations run_sql is_absent is_valid is_chronological is_product known none
              installed
            ≡ apply_each run_sql is_absent is_valid is_chronological is_product known installed
                no_result)
  unfolding apply_migrations
  apply_migrations_cases known installed prefix =
      let all = wanted-none known in
      elim (Bool-cases (is_chronological installed.journal installed.schema)) [
        | inr late ↦ inl (journal_mismatch, ground (arith, prefix, late))
        | inl timely ↦
            elim (Bool-cases (
              is_ready run_sql is_absent is_valid is_chronological is_product (wanted none known)
                installed)) [
                  | inr blocked ↦ inl (state_present, ground (arith, prefix, timely, blocked))
                  | inl free ↦ inr (ground (arith, prefix, timely, free, all))
                ]
      ]

  -- Given distinct identifiers, and a journal that has the first of the known migrations in order: a
  -- run without `through`, whether it returns or throws, leaves in the journal those that were there
  -- and then others in order. If it returns, these are all the known migrations, and the result has as
  -- skipped those that were recorded before, and as applied the rest; if it throws, they are the first
  -- of the rest.
  pub apply_migrations-Ends :
      (known : List Migration) (installed : Installed S)
      → is_prefix installed.journal known ≡ true
      → AreDistinct known
      → (old : List Migration) × (rest : List Migration) × (known ≡ old ++ rest)
        × (installed.journal ≡ map entry_of old)
        × Ends
            (record { applied = []; skipped = ids old })
            old
            rest
            (apply_migrations run_sql is_absent is_valid is_chronological is_product known none
              installed).0
            (apply_migrations run_sql is_absent is_valid is_chronological is_product known none
              installed).1
  unfolding no_result
  apply_migrations-Ends known installed prefix distinct =
      let (old, rest, split, journal) = is_prefix_of installed.journal known prefix in
      let start : MigrationRunResult = record { applied = []; skipped = ids old } in
      let run =
        apply_migrations run_sql is_absent is_valid is_chronological is_product known none
          installed in
      let unchanged = journal ∙ ap (map entry_of) (sym (append-nil old)) in
      let stopped : (fault : MigrationError)
          → run ≡ (installed, err fault)
          → Ends start old rest run.0 run.1 =
        λ fault h.
          Ends-subst start old rest run (installed, err fault) h ([], rest, refl, unchanged) in
      (
        old,
        rest,
        split,
        journal,
        elim (apply_migrations_cases known installed prefix) [
          | inl (fault, h) ↦ stopped fault h
          | inr loop ↦
              let again =
                loop
                ∙ ap
                    (λ l.
                      apply_each run_sql is_absent is_valid is_chronological is_product l installed
                        no_result)
                    split in
              elim (apply_each_skips run_sql is_absent is_valid is_chronological is_product [] old
                rest installed [] [] journal) [
                  | inl h ↦ stopped catalog_mismatch (again ∙ h)
                  | inr h ↦
                      Ends-subst start old rest run
                        (apply_each run_sql is_absent is_valid is_chronological is_product rest
                          installed start)
                        (again ∙ h)
                        (apply_each-Ends run_sql is_absent is_valid is_chronological is_product rest
                          old installed start journal (subst AreDistinct split distinct))
                ]
        ],
      )

  prefix_of_run :
      (known : List Migration) (installed after : Installed S) (result : MigrationRunResult)
      → apply_migrations run_sql is_absent is_valid is_chronological is_product known none installed
        ≡ (after, ok result)
      → is_prefix installed.journal known ≡ true
  unfolding apply_migrations
  prefix_of_run known installed after result ran = ground (arith, ran)

  -- After a run without `through` that returned, of migrations with distinct identifiers, and while the
  -- journal's times and the installed catalog pass their checks, a second run applies no migration,
  -- skips every one, and leaves the state as it is.
  pub apply_migrations_rerun :
      (known : List Migration) (installed after : Installed S) (result : MigrationRunResult)
      → AreDistinct known
      → apply_migrations run_sql is_absent is_valid is_chronological is_product known none installed
        ≡ (after, ok result)
      → is_chronological after.journal after.schema ≡ true
      → is_valid after.journal after.schema ≡ true
      → apply_migrations run_sql is_absent is_valid is_chronological is_product known none after
        ≡ (after, ok (record { applied = []; skipped = ids known }))
  unfolding apply_migrations no_result
  apply_migrations_rerun known installed after result distinct ran chronological valid =
      let (old, rest, split, before, ends) =
        apply_migrations-Ends known installed (prefix_of_run known installed after result ran)
          distinct in
      let (journal, applied, skipped) =
        Ends-subst (record { applied = []; skipped = ids old }) old rest (after, ok result) _
          (sym ran) ends in
      let whole = journal ∙ ap (map entry_of) (sym split) in
      let prefix =
        ap (λ j. is_prefix j known) whole
        ∙ ap (is_prefix (map entry_of known)) (sym (append-nil known))
        ∙ is_prefix-map known [] in
      let all = wanted-none known in
      let ready =
        is_ready_recorded run_sql is_absent is_valid is_chronological is_product [] known after
          whole in
      let loop =
        apply_each_recorded run_sql is_absent is_valid is_chronological is_product [] known after []
          [] whole valid in
      ground (arith, prefix, chronological, all, ready, loop)
