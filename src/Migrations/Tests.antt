-- ===== src/Migrations/Tests.antt =====
-- A directory of three files, and what `migrate` and `rollback` of db/migrationRunner.ts do with it.
use quipay_backend.Prelude.{
  String, ◌≡◌, refl, Option, none, some, List, [], ◌∷◌, ◌++◌, if◌then◌else◌, ◌==◌, nat_eq,
  string_eq,
}
use quipay_backend.Migrations.{
  World, done, modified, failed, migrate, rollback, get_status, applied_row,
}
use quipay_backend.Migrations.Files.{
  File, Migration, loaded, load_migrations, codes_le, dot_sql, rollback_tail,
}
use quipay_backend.Migrations.Running.{migrate_again}

-- The database is the list of the scripts that have run; the script "bad" throws.
abbrev run : String → List String → Option (List String)
run script database = if script == "bad" then none else some (database ++ script ∷ [])

abbrev sha256 : String → String
sha256 content = content

-- `010_b.sql`, `9_a.sql` and the rollback of `010_b.sql`, which is no migration.
abbrev files : List File
files =
    record { name = b'0' ∷ b'1' ∷ b'0' ∷ b'_' ∷ b'b' ∷ dot_sql; content = "create b" }
    ∷ record { name = b'9' ∷ b'_' ∷ b'a' ∷ dot_sql; content = "create a" }
    ∷ record { name = b'0' ∷ b'1' ∷ b'0' ∷ b'_' ∷ b'b' ∷ rollback_tail; content = "drop b" }
    ∷ []

abbrev migration_a : Migration
migration_a = record {
  version = 9;
  name = b'a' ∷ [];
  filename = b'9' ∷ b'_' ∷ b'a' ∷ dot_sql;
  sql = "create a";
  checksum = "create a";
}

abbrev migration_b : Migration
migration_b = record {
  version = 10;
  name = b'b' ∷ [];
  filename = b'0' ∷ b'1' ∷ b'0' ∷ b'_' ∷ b'b' ∷ dot_sql;
  sql = "create b";
  checksum = "create b";
}

abbrev empty : World (List String)
empty = record { database = []; schema_migrations = [] }

abbrev up_to_date : World (List String)
up_to_date = record {
  database = "create a" ∷ "create b" ∷ [];
  schema_migrations = applied_row migration_a ∷ applied_row migration_b ∷ [];
}

files-loaded : load_migrations sha256 codes_le files ≡ loaded (migration_a ∷ migration_b ∷ [])
unfolding load_migrations
files-loaded = refl

empty-migrated : migrate run sha256 codes_le files empty ≡ (done, up_to_date)
unfolding migrate
empty-migrated = refl

migrate_again_example : migrate run sha256 codes_le files up_to_date ≡ (done, up_to_date)
migrate_again_example =
    migrate_again (List String) run sha256 codes_le files empty up_to_date empty-migrated

-- A script that throws is not recorded, and neither is the one behind it.
stops_at_failure :
    migrate run sha256 codes_le
      (record { name = b'1' ∷ b'_' ∷ b'x' ∷ dot_sql; content = "bad" } ∷ files)
      empty
    ≡ (failed 1, empty)
unfolding migrate
stops_at_failure = refl

-- A file that was changed after it was applied.
changed_file :
    migrate run sha256 codes_le
      (record { name = b'9' ∷ b'_' ∷ b'a' ∷ dot_sql; content = "create c" } ∷ [])
      up_to_date
    ≡ (modified 9, up_to_date)
unfolding migrate
changed_file = refl

rolled_back : rollback run files up_to_date ≡ (
  done,
  record {
    database = "create a" ∷ "create b" ∷ "drop b" ∷ [];
    schema_migrations = applied_row migration_a ∷ [];
  },
)
unfolding rollback
rolled_back = refl

status_after_migrate :
    get_status run sha256 codes_le files up_to_date
    ≡ some (2, applied_row migration_a ∷ applied_row migration_b ∷ [], [])
unfolding get_status
status_after_migrate = refl
