-- ===== src/Migrations.antt =====
-- db/migrationRunner.ts: versioned SQL migrations. The directory is a list of files, a file's name the
-- list of its code points, none of them a line break. `D` is what the database holds beside the table
-- `schema_migrations`; running a script on it, SHA-256 and `localeCompare` are parameters. A script
-- that does not succeed leaves nothing behind, as it stands in a transaction; scripts neither end
-- that transaction nor touch `schema_migrations`. The times of the rows are left out.
pub mod Files
pub mod Loading
pub mod Duplicates
pub mod Rows
pub mod Running
mod Tests
use mathlib.Core.Option
use quipay_backend.Prelude.{
  ℕ, zero, suc, ◌+◌, ◌/◌, ◌%◌, String, Bool, true, not, Option, none, some, List, [], ◌∷◌, ◌++◌,
  map, ltb, leb, eqb, if◌then◌else◌, ◌==◌, nat_eq, string_eq, length, keep, find,
}
use quipay_backend.Migrations.Files.{
  File, Migration, AppliedMigration, same_codes, rollback_tail, Loaded, loaded, duplicate_version,
  has_version, load_migrations,
}

-- `SELECT * FROM schema_migrations ORDER BY version`
abbrev pub insert_applied : AppliedMigration → List AppliedMigration → List AppliedMigration
insert_applied a [] = a ∷ []
insert_applied a (b ∷ bs) = if leb a.version b.version then a ∷ b ∷ bs else b ∷ insert_applied a bs

abbrev pub get_applied_migrations : List AppliedMigration → List AppliedMigration
get_applied_migrations [] = []
get_applied_migrations (a ∷ table) = insert_applied a (get_applied_migrations table)

pub record World (D : Type 0) : Type 0 where
  pub database : D
  pub schema_migrations : List AppliedMigration

-- How `migrate` and `rollback` end.
pub data Outcome : Type 0 where
  done : Outcome
  duplicate : ℕ → Outcome
  modified : ℕ → Outcome
  failed : ℕ → Outcome
  no_rollback_file : ℕ → Outcome

abbrev pub applied_row : Migration → AppliedMigration
applied_row m = record { version = m.version; name = m.name; checksum = m.checksum }

abbrev pub versions_of : List AppliedMigration → List ℕ
versions_of table = map (λ (a : AppliedMigration). a.version) table

-- An applied migration whose file is there still has the checksum of its file.
abbrev pub same_checksum : Option Migration → AppliedMigration → Bool
same_checksum none a = true
same_checksum (some m) a = m.checksum == a.checksum

abbrev pub is_unmodified : List Migration → AppliedMigration → Bool
is_unmodified migrations a =
    same_checksum (find (λ (m : Migration). eqb m.version a.version) migrations) a

-- The version of the first applied migration that has been modified.
unfoldable pub verify_checksums : List Migration → List AppliedMigration → Option ℕ
verify_checksums migrations [] = none
verify_checksums migrations (a ∷ table) =
    let later = verify_checksums migrations table in
    if is_unmodified migrations a then later else some a.version

abbrev pub is_pending : List AppliedMigration → Migration → Bool
is_pending table m = not (has_version m.version (versions_of table))

-- `String(n)`, on fuel: a number has no more digits than its value and one.
pub decimal : ℕ → ℕ → List ℕ → List ℕ
decimal zero n cs = cs
decimal (suc fuel) n cs =
    let all = decimal fuel (n / 10) ((b'0' + n % 10) ∷ cs) in
    if ltb n 10 then (b'0' + n) ∷ cs else all

-- `padStart(3, "0")`
abbrev pad_start : List ℕ → List ℕ
pad_start [] = b'0' ∷ b'0' ∷ b'0' ∷ []
pad_start (a ∷ []) = b'0' ∷ b'0' ∷ a ∷ []
pad_start (a ∷ b ∷ []) = b'0' ∷ a ∷ b ∷ []
pad_start cs = cs

abbrev pub rollback_filename : AppliedMigration → List ℕ
rollback_filename a =
    pad_start (decimal (suc a.version) a.version []) ++ b'_' ∷ (a.name ++ rollback_tail)

module _ {D : Type 0} (run : String → D → Option D) where
  -- One migration: its script and its row, or neither. A row of the version that is there already
  -- breaks the primary key.
  abbrev pub apply_migration : Migration → World D → Option (World D)
  apply_migration m w = elim (run m.sql w.database) [
    | none ↦ none
    | some database ↦
        if has_version m.version (versions_of w.schema_migrations)
        then none
        else some (record {
          database = database;
          schema_migrations = w.schema_migrations ++ (applied_row m ∷ []);
        })
  ]

  pub apply_all : List Migration → World D → Outcome × World D
  apply_all [] w = (done, w)
  apply_all (m ∷ ms) w = elim (apply_migration m w) [
    | none ↦ (failed m.version, w)
    | some w' ↦ apply_all ms w'
  ]

  abbrev pub migrate_pending : List Migration → Option ℕ → World D → Outcome × World D
  migrate_pending migrations (some version) w = (modified version, w)
  migrate_pending migrations none w = apply_all (keep (is_pending w.schema_migrations) migrations) w

  abbrev pub migrate_loaded : Loaded → World D → Outcome × World D
  migrate_loaded (duplicate_version version file) w = (duplicate version, w)
  migrate_loaded (loaded migrations) w =
      migrate_pending migrations
        (verify_checksums migrations (get_applied_migrations w.schema_migrations)) w

  pub migrate :
      (String → String) → (List ℕ → List ℕ → Bool) → List File → World D → Outcome × World D
  unfolding load_migrations verify_checksums apply_all
  migrate sha256 locale_le files w = migrate_loaded (load_migrations sha256 locale_le files) w

  -- `getStatus`: the number of the migrations, those applied and those pending.
  pub get_status :
      (String → String)
      → (List ℕ → List ℕ → Bool)
      → List File
      → World D
      → Option (ℕ × List AppliedMigration × List Migration)
  unfolding load_migrations
  get_status sha256 locale_le files w = elim (load_migrations sha256 locale_le files) [
    | duplicate_version version file ↦ none
    | loaded migrations ↦ some (
      length migrations,
      get_applied_migrations w.schema_migrations,
      keep (is_pending w.schema_migrations) migrations,
    )
  ]

  abbrev pub last_row : List AppliedMigration → Option AppliedMigration
  last_row [] = none
  last_row (a ∷ []) = some a
  last_row (a ∷ b ∷ table) = last_row (b ∷ table)

  abbrev rollback_row : Option File → AppliedMigration → World D → Outcome × World D
  rollback_row none a w = (no_rollback_file a.version, w)
  rollback_row (some file) a w = elim (run file.content w.database) [
    | none ↦ (failed a.version, w)
    | some database ↦ (
      done,
      record {
        database = database;
        schema_migrations =
            keep (λ (b : AppliedMigration). not (eqb b.version a.version)) w.schema_migrations;
      },
    )
  ]

  abbrev pub rollback_last : List File → Option AppliedMigration → World D → Outcome × World D
  rollback_last files none w = (done, w)
  rollback_last files (some a) w =
      rollback_row (find (λ (f : File). same_codes f.name (rollback_filename a)) files) a w

  pub rollback : List File → World D → Outcome × World D
  unfolding decimal
  rollback files w = rollback_last files (last_row (get_applied_migrations w.schema_migrations)) w
