-- ===== src/Db/Migrations/Loop.antt =====
-- The loop over the migrations (packages/db/src/migrations.ts).
use mathlib.Core.Path.{subst}
use mathlib.Core.List.{append_assoc, append-nil, map-append}
use throughline.Prelude.{
  ◌≡◌, refl, sym, ap, ◌∙◌, Bool, true, Option, List, [], ◌∷◌, ◌++◌, map, Result, ok, err, JsString,
  Result-cases, inl, inr, ◌⊎◌, arith,
}
use throughline.Db.Migrations.{
  Migration, Entry, Installed, MigrationRunResult, MigrationError, is_recorded, entry_of, apply_one,
  apply_each, is_ready, catalog_mismatch,
}
use throughline.Db.Migrations.Journal.{AreDistinct, ids, recorded_before, recorded_at}

-- What is left of `rest` by a run that started when the migrations `done` were installed and the
-- result so far was `result`: all of it on success, and on failure a part from its start.
module _ {S : Type 0} where
  abbrev pub Ends :
      MigrationRunResult
      → List Migration
      → List Migration
      → Installed S
      → Result MigrationError MigrationRunResult
      → Type 0
  Ends result done rest after (ok final) =
      (after.journal ≡ map entry_of (done ++ rest))
      × (final.applied ≡ result.applied ++ ids rest)
      × (final.skipped ≡ result.skipped)
  Ends result done rest after (err fault) =
      (new : List Migration) × (left : List Migration) × (rest ≡ new ++ left)
      × (after.journal ≡ map entry_of (done ++ new))

  pub Ends-step :
      (result : MigrationRunResult) (done : List Migration) (m : Migration) (ms : List Migration)
      (after : Installed S) (outcome : Result MigrationError MigrationRunResult)
      → Ends
          (record result { applied = result.applied ++ m.id ∷ [] })
          (done ++ m ∷ [])
          ms
          after
          outcome
      → Ends result done (m ∷ ms) after outcome
  Ends-step result done m ms after (ok final) (journal, applied, skipped) = (
    journal ∙ ap (map entry_of) (append_assoc done (m ∷ []) ms),
    applied ∙ append_assoc result.applied (m.id ∷ []) (ids ms),
    skipped,
  )
  Ends-step result done m ms after (err fault) (new, left, split, journal) = (
    m ∷ new,
    left,
    ap (λ l. m ∷ l) split,
    journal ∙ ap (map entry_of) (append_assoc done (m ∷ []) new),
  )

  pub Ends-subst :
      (result : MigrationRunResult) (done rest : List Migration)
      (run run_to : Installed S × Result MigrationError MigrationRunResult)
      → run ≡ run_to
      → Ends result done rest run_to.0 run_to.1
      → Ends result done rest run.0 run.1
  Ends-subst result done rest run run_to same ends =
      subst
        (λ (r : Installed S × Result MigrationError MigrationRunResult).
          Ends result done rest r.0 r.1)
        (sym same) ends

  module _ (run_sql : List JsString → JsString → S → Option S) (is_absent : JsString → S → Bool)
      (is_valid : List Entry → S → Bool) (is_chronological : List Entry → S → Bool)
      (is_product : JsString → Bool) where
    pub apply_one-journal :
        (applied : List JsString) (installed : Installed S) (m : Migration) (next : Installed S)
        → apply_one run_sql is_absent is_valid is_chronological is_product applied installed m
          ≡ ok next
        → next.journal ≡ installed.journal ++ entry_of m ∷ []
    unfolding apply_one
    apply_one-journal applied installed m next h = ground (arith, h)

    pub recorded_in :
        (before : List Migration) (m : Migration) (ms : List Migration) (installed : Installed S)
        → installed.journal ≡ map entry_of (before ++ m ∷ ms)
        → is_recorded installed.journal m.id ≡ true
    recorded_in before m ms installed journal =
        ap (λ j. is_recorded j m.id) journal ∙ recorded_at before m ms

    -- The recorded migrations at the start are skipped, unless the installed catalog does not fit.
    pub apply_each_skips :
        (before old rest : List Migration) (installed : Installed S)
        (applied skipped : List JsString)
        → installed.journal ≡ map entry_of (before ++ old)
        → (apply_each run_sql is_absent is_valid is_chronological is_product
              (old ++ rest)
              installed
              (record { applied = applied; skipped = skipped })
            ≡ (installed, err catalog_mismatch))
          ⊎ (apply_each run_sql is_absent is_valid is_chronological is_product
                (old ++ rest)
                installed
                (record { applied = applied; skipped = skipped })
              ≡ apply_each run_sql is_absent is_valid is_chronological is_product rest installed
                  (record { applied = applied; skipped = skipped ++ ids old }))
    unfolding apply_each
    apply_each_skips before [] rest installed applied skipped journal = inr (
        ap
          (λ (s : List JsString).
            apply_each run_sql is_absent is_valid is_chronological is_product rest installed
              (record { applied = applied; skipped = s }))
          (sym (append-nil skipped)))
    apply_each_skips before (m ∷ old) rest installed applied skipped journal =
        let found = recorded_in before m old installed journal in
        let later = journal ∙ ap (map entry_of) (sym (append_assoc before (m ∷ []) old)) in
        let same = append_assoc skipped (m.id ∷ []) (ids old) in
        elim (apply_each_skips (before ++ m ∷ []) old rest installed applied (skipped ++ m.id ∷ [])
          later) [
            | inl failed ↦ ground (arith, found, failed)
            | inr passed ↦ ground (arith, found, passed, same)
          ]

    -- With a catalog that fits, all of them are skipped, and the state is left as it is.
    pub apply_each_recorded :
        (before old : List Migration) (installed : Installed S) (applied skipped : List JsString)
        → installed.journal ≡ map entry_of (before ++ old)
        → is_valid installed.journal installed.schema ≡ true
        → apply_each run_sql is_absent is_valid is_chronological is_product old installed
            (record { applied = applied; skipped = skipped })
          ≡ (installed, ok (record { applied = applied; skipped = skipped ++ ids old }))
    unfolding apply_each
    apply_each_recorded before [] installed applied skipped journal valid =
        ap (λ (s : List JsString). (installed, ok (record { applied = applied; skipped = s })))
          (sym (append-nil skipped))
    apply_each_recorded before (m ∷ old) installed applied skipped journal valid =
        let found = recorded_in before m old installed journal in
        let later = journal ∙ ap (map entry_of) (sym (append_assoc before (m ∷ []) old)) in
        let same = append_assoc skipped (m.id ∷ []) (ids old) in
        let rest =
          apply_each_recorded (before ++ m ∷ []) old installed applied (skipped ++ m.id ∷ []) later
            valid in
        ground (arith, found, rest, same)

    pub is_ready_recorded :
        (before old : List Migration) (installed : Installed S)
        → installed.journal ≡ map entry_of (before ++ old)
        → is_ready run_sql is_absent is_valid is_chronological is_product old installed ≡ true
    unfolding is_ready
    is_ready_recorded before [] installed journal = refl
    is_ready_recorded before (m ∷ old) installed journal =
        let found = recorded_in before m old installed journal in
        let later = journal ∙ ap (map entry_of) (sym (append_assoc before (m ∷ []) old)) in
        let rest = is_ready_recorded (before ++ m ∷ []) old installed later in
        ground (arith, found, rest)

    pub apply_each-Ends :
        (rest done : List Migration) (installed : Installed S) (result : MigrationRunResult)
        → installed.journal ≡ map entry_of done
        → AreDistinct (done ++ rest)
        → Ends result done rest
            (apply_each run_sql is_absent is_valid is_chronological is_product rest installed
              result).0
            (apply_each run_sql is_absent is_valid is_chronological is_product rest installed
              result).1
    unfolding apply_each
    apply_each-Ends [] done installed result journal distinct =
        (journal ∙ ap (map entry_of) (sym (append-nil done)), sym (append-nil result.applied), refl)
    apply_each-Ends (m ∷ ms) done installed result journal distinct =
        let unrecorded =
          ap (λ j. is_recorded j m.id) journal ∙ recorded_before done m ms distinct in
        elim (Result-cases (
          apply_one run_sql is_absent is_valid is_chronological is_product result.applied installed
            m)) [
              | inr (fault, failed) ↦
                  Ends-subst result done (m ∷ ms)
                    (apply_each run_sql is_absent is_valid is_chronological is_product (m ∷ ms)
                      installed result)
                    (installed, err fault) (ground (arith, unrecorded, failed))
                    ([], m ∷ ms, refl, journal ∙ ap (map entry_of) (sym (append-nil done)))
              | inl (next, passed) ↦
                  let run =
                    apply_each run_sql is_absent is_valid is_chronological is_product ms next
                      (record result { applied = result.applied ++ m.id ∷ [] }) in
                  Ends-subst result done (m ∷ ms)
                    (apply_each run_sql is_absent is_valid is_chronological is_product (m ∷ ms)
                      installed result)
                    run (ground (arith, unrecorded, passed))
                    (Ends-step result done m ms run.0 run.1 (
                      apply_each-Ends ms (done ++ m ∷ []) next _
                        (apply_one-journal result.applied installed m next passed
                          ∙ ap (λ j. j ++ entry_of m ∷ []) journal
                          ∙ sym (map-append entry_of done (m ∷ [])))
                        (subst AreDistinct (sym (append_assoc done (m ∷ []) ms)) distinct)))
            ]
