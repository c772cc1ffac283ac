-- ===== src/Migrations/Running.antt =====
-- What `migrate` and `rollback` of db/migrationRunner.ts do to the database.
use mathlib.Core.Path.{subst}
use mathlib.Core.List.{append-nil, append_assoc}
use quipay_backend.Prelude.{
  ℕ, String, ◌≡◌, refl, sym, ap, ◌∙◌, ◌⊎◌, inl, inr, Bool, true, Option, none, some, List, [], ◌∷◌,
  ◌++◌, map, eqb, Bool-cases, Option-cases, if-true, if-false, nat_eq, string_eq, keep, find, All,
  All-append,
}
use quipay_backend.Migrations.{
  World, Outcome, done, duplicate, modified, failed, no_rollback_file, applied_row, versions_of,
  is_unmodified, verify_checksums, is_pending, get_applied_migrations, apply_migration, apply_all,
  migrate_pending, migrate_loaded, migrate,
}
use quipay_backend.Migrations.Files.{
  File, Migration, AppliedMigration, Loaded, loaded, duplicate_version, has_version,
  load_migrations,
}
use quipay_backend.Migrations.Loading.{IsIncreasing, load_migrations-IsIncreasing}
use quipay_backend.Migrations.Rows.{
  All-get_applied_migrations, selected-All, All-applied_rows, All-kept, keep-none, verified-All,
  All-verified, found_self, applied_row-unmodified, settled,
}

module _ (D : Type 0) (run : String → D → Option D) where
  -- The scripts one after another.
  pub run_all : List Migration → D → Option D
  run_all [] database = some database
  run_all (m ∷ ms) database = elim (run m.sql database) [
    | none ↦ none
    | some next ↦ run_all ms next
  ]

  -- What is left where `migrate` ends: nothing, or the migration that failed and those behind it.
  abbrev pub StopsAt : World D → Outcome → List Migration → Type 0
  StopsAt w done [] = Unit
  StopsAt w (failed v) (m ∷ ms) = (m.version ≡ v) × (apply_migration run m w ≡ none)
  StopsAt w _ _ = ⊥

  -- The scripts in front have run on the database and stand in the table, in their order, and
  -- nothing of those behind.
  abbrev pub InStep : World D → List Migration → Outcome × World D → Type 0
  InStep w pending (o, w') =
      (front : List Migration) × (behind : List Migration) × (pending ≡ front ++ behind)
      × (run_all front w.database ≡ some w'.database)
      × (w'.schema_migrations ≡ w.schema_migrations ++ map applied_row front)
      × StopsAt w' o behind

  applied-cases :
      (m : Migration) (w : World D)
      → (apply_migration run m w ≡ none)
        ⊎ ((w' : World D) × (apply_migration run m w ≡ some w')
            × (run m.sql w.database ≡ some w'.database)
            × (w'.schema_migrations ≡ w.schema_migrations ++ (applied_row m ∷ [])))
  applied-cases m w = elim (Option-cases (run m.sql w.database)) [
    | inl throws ↦ inl (rw (throws, apply_migration) refl)
    | inr (database, ran) ↦
        elim (Bool-cases (has_version m.version (versions_of w.schema_migrations))) [
          | inl there ↦ inl (rw (ran, apply_migration) (if-true _ _ there))
          | inr new ↦ inr (_, rw (ran, apply_migration) (if-false _ _ new), ran, refl)
        ]
  ]

  apply_all-InStep : (ms : List Migration) (w : World D) → InStep w ms (apply_all run ms w)
  unfolding apply_all run_all
  apply_all-InStep [] w = ([], [], refl, refl, sym (append-nil w.schema_migrations), tt)
  apply_all-InStep (m ∷ ms) w = elim (applied-cases m w) [
    | inl throws ↦
        rw (throws, apply_all)
          ([], m ∷ ms, refl, refl, sym (append-nil w.schema_migrations), (refl, throws))
    | inr (w', applied, ran, row) ↦
        let rest = apply_all-InStep ms w' in
        rw (applied, apply_all)
          (
            m ∷ rest.0,
            rest.1,
            ap (λ (l : List Migration). m ∷ l) rest.2,
            rw (ran, run_all) rest.3,
            rest.4
                ∙ ap (λ (t : List AppliedMigration). t ++ map applied_row rest.0) row
                ∙ append_assoc w.schema_migrations (applied_row m ∷ []) (map applied_row rest.0),
            rest.5,
          )
  ]

  -- The errors that `migrate` throws before it runs a script.
  abbrev pub Refuses : Outcome → Type 0
  Refuses done = ⊥
  Refuses (duplicate v) = Unit
  Refuses (modified v) = Unit
  Refuses (failed v) = ⊥
  Refuses (no_rollback_file v) = ⊥

  -- Where there is a file of the version of an applied migration, it has the checksum of the row.
  abbrev pub IsUnmodified : List Migration → AppliedMigration → Type 0
  IsUnmodified ms a =
      (m : Migration)
      → find (λ (n : Migration). eqb n.version a.version) ms ≡ some m
      → m.checksum ≡ a.checksum

  migrate_pending-cases :
      (ms : List Migration) (checked : Option ℕ) (w : World D)
      → (Refuses (migrate_pending run ms checked w).0 × ((migrate_pending run ms checked w).1 ≡ w))
        ⊎ ((checked ≡ none)
            × InStep w
                (keep (is_pending w.schema_migrations) ms)
                (migrate_pending run ms checked w))
  migrate_pending-cases ms (some v) w = inl (tt, refl)
  migrate_pending-cases ms none w =
      inr (refl, apply_all-InStep (keep (is_pending w.schema_migrations) ms) w)

  migrate_loaded-cases :
      (read : Loaded) (w : World D)
      → (Refuses (migrate_loaded run read w).0 × ((migrate_loaded run read w).1 ≡ w))
        ⊎ ((ms : List Migration) × (read ≡ loaded ms)
            × (verify_checksums ms (get_applied_migrations w.schema_migrations) ≡ none)
            × InStep w (keep (is_pending w.schema_migrations) ms) (migrate_loaded run read w))
  migrate_loaded-cases (duplicate_version v f) w = inl (tt, refl)
  migrate_loaded-cases (loaded ms) w =
      elim (migrate_pending-cases ms
        (verify_checksums ms (get_applied_migrations w.schema_migrations)) w) [
          | inl refused ↦ inl refused
          | inr (verified, steps) ↦ inr (ms, refl, verified, steps)
        ]

  module _ (sha256 : String → String) (locale_le : List ℕ → List ℕ → Bool) (files : List File) where
    migrate-cases :
        (w : World D)
        → (Refuses (migrate run sha256 locale_le files w).0
            × ((migrate run sha256 locale_le files w).1 ≡ w))
          ⊎ ((ms : List Migration) × (load_migrations sha256 locale_le files ≡ loaded ms)
              × (verify_checksums ms (get_applied_migrations w.schema_migrations) ≡ none)
              × InStep w
                  (keep (is_pending w.schema_migrations) ms)
                  (migrate run sha256 locale_le files w))
    unfolding migrate
    migrate-cases w = migrate_loaded-cases (load_migrations sha256 locale_le files) w

module _ (D : Type 0) (run : String → D → Option D) where
  none_behind : (w : World D) (behind : List Migration) → StopsAt D run w done behind → behind ≡ []
  none_behind w [] stops = refl
  none_behind w (m ∷ ms) stops = absurd stops

  done-InStep :
      (w w' : World D) (pending : List Migration)
      → InStep D run w pending (done, w')
      → w'.schema_migrations ≡ w.schema_migrations ++ map applied_row pending
  done-InStep w w' pending steps =
      let all =
        steps.2 ∙ ap (λ l. steps.0 ++ l) (none_behind w' steps.1 steps.5) ∙ append-nil steps.0 in
      steps.4 ∙ ap (λ l. w.schema_migrations ++ map applied_row l) (sym all)

  -- All rows of the table are unmodified after a successful run.
  done-verified :
      (ms : List Migration) (w w' : World D)
      → IsIncreasing ms
      → verify_checksums ms (get_applied_migrations w.schema_migrations) ≡ none
      → w'.schema_migrations
        ≡ w.schema_migrations ++ map applied_row (keep (is_pending w.schema_migrations) ms)
      → verify_checksums ms (get_applied_migrations w'.schema_migrations) ≡ none
  done-verified ms w w' up verified rows =
      let P = λ (a : AppliedMigration). is_unmodified ms a ≡ true in
      let old =
        selected-All P w.schema_migrations
          (verified-All ms (get_applied_migrations w.schema_migrations) verified) in
      let pending = keep (is_pending w.schema_migrations) ms in
      let new = All-applied_rows P pending (
        applied_row-unmodified ms pending (
          All-kept
            (λ (m : Migration). find (λ (n : Migration). eqb n.version m.version) ms ≡ some m)
            (is_pending w.schema_migrations) ms (found_self ms up))) in
      All-verified ms (get_applied_migrations w'.schema_migrations) (
        All-get_applied_migrations P w'.schema_migrations
          (subst (All P) (sym rows) (All-append P w.schema_migrations _ old new)))

  module _ (sha256 : String → String) (locale_le : List ℕ → List ℕ → Bool) (files : List File) where
    loaded-again :
        (ms : List Migration) (w' : World D)
        → load_migrations sha256 locale_le files ≡ loaded ms
        → verify_checksums ms (get_applied_migrations w'.schema_migrations) ≡ none
        → keep (is_pending w'.schema_migrations) ms ≡ []
        → migrate run sha256 locale_le files w' ≡ (done, w')
    unfolding migrate apply_all
    loaded-again ms w' found verified settled =
        ap (λ l. migrate_loaded run l w') found
        ∙ ap (λ o. migrate_pending run ms o w') verified
        ∙ ap (λ l. apply_all run l w') settled

    -- A second `migrate` of the same directory after one that succeeded runs nothing, finds no
    -- migration modified and leaves the database and the table as they are.
    pub migrate_again :
        (w w' : World D)
        → migrate run sha256 locale_le files w ≡ (done, w')
        → migrate run sha256 locale_le files w' ≡ (done, w')
    migrate_again w w' e = elim (migrate-cases D run sha256 locale_le files w) [
      | inl (refused, same) ↦
          absurd (subst (Refuses D run) (ap (λ (r : Outcome × World D). r.0) e) refused)
      | inr (ms, found, verified, steps) ↦
          let rows =
            done-InStep w w' (keep (is_pending w.schema_migrations) ms)
              (subst (InStep D run w (keep (is_pending w.schema_migrations) ms)) e steps) in
          let none_pending = settled w.schema_migrations ms ms (λ v h. h) in
          loaded-again ms w' found
            (done-verified ms w w' (load_migrations-IsIncreasing sha256 locale_le files ms found)
              verified rows)
            (ap (λ (t : List AppliedMigration). keep (is_pending t) ms) rows
              ∙ keep-none _ ms none_pending)
    ]
