-- ===== src/Migrations/Files.antt =====
-- The files of the migrations: their names, their order, and `loadMigrations` of db/migrationRunner.ts.
use mathlib.Core.Option
use quipay_backend.Prelude.{
  ℕ, ◌+◌, ◌-◌, ◌*◌, String, Bool, true, false, not, ◌&&◌, Option, none, some, List, [], ◌∷◌, ltb,
  leb, eqb, if◌then◌else◌, or_else, nat_eq, string_eq, keep, any,
}

pub record File : Type 0 where
  pub name : List ℕ
  pub content : String

pub record Migration : Type 0 where
  pub version : ℕ
  pub name : List ℕ
  pub filename : List ℕ
  pub sql : String
  pub checksum : String

pub record AppliedMigration : Type 0 where
  pub version : ℕ
  pub name : List ℕ
  pub checksum : String

abbrev pub is_digit : ℕ → Bool
is_digit c = leb b'0' c && leb c b'9'

-- `(\d+)` in front: its value, if there is a digit, and what follows.
unfoldable pub take_digits : Option ℕ → List ℕ → Option ℕ × List ℕ
take_digits acc [] = (acc, [])
take_digits acc (c ∷ cs) =
    let more = take_digits (some (or_else acc 0 * 10 + (c - b'0'))) cs in
    if is_digit c then more else (acc, c ∷ cs)

abbrev pub same_codes : List ℕ → List ℕ → Bool
same_codes [] [] = true
same_codes (c ∷ cs) (d ∷ ds) = eqb c d && same_codes cs ds
same_codes _ _ = false

-- `text.endsWith(tail)`, and what stands before the tail.
unfoldable pub before_tail : List ℕ → List ℕ → Option (List ℕ)
before_tail tail [] = if same_codes [] tail then some [] else none
before_tail tail (c ∷ cs) =
    if same_codes (c ∷ cs) tail
    then some []
    else Option.map (λ front. c ∷ front) (before_tail tail cs)

abbrev pub dot_sql : List ℕ
dot_sql = b'.' ∷ b's' ∷ b'q' ∷ b'l' ∷ []

abbrev pub rollback_tail : List ℕ
rollback_tail = b'_' ∷ b'r' ∷ b'o' ∷ b'l' ∷ b'l' ∷ b'b' ∷ b'a' ∷ b'c' ∷ b'k' ∷ dot_sql

-- `(.+)\.sql$`
abbrev pub name_part : Option (List ℕ) → Option (List ℕ)
name_part none = none
name_part (some []) = none
name_part (some (c ∷ cs)) = some (c ∷ cs)

abbrev pub after_digits : Option ℕ × List ℕ → Option (ℕ × List ℕ)
after_digits (none, rest) = none
after_digits (some version, []) = none
after_digits (some version, c ∷ cs) =
    if eqb c b'_'
    then Option.map (λ name. (version, name)) (name_part (before_tail dot_sql cs))
    else none

-- `/^(\d+)_(.+)\.sql$/`
unfoldable pub parse_migration_filename : List ℕ → Option (ℕ × List ℕ)
unfolding take_digits before_tail
parse_migration_filename filename = after_digits (take_digits none filename)

abbrev pub is_some : Option (List ℕ) → Bool
is_some none = false
is_some (some _) = true

abbrev pub is_migration_file : File → Bool
is_migration_file f =
    is_some (before_tail dot_sql f.name) && not (is_some (before_tail rollback_tail f.name))

-- The order of texts by their code units.
abbrev pub codes_le : List ℕ → List ℕ → Bool
codes_le [] ds = true
codes_le (c ∷ cs) [] = false
codes_le (c ∷ cs) (d ∷ ds) = if eqb c d then codes_le cs ds else ltb c d

unfoldable pub insert_file : File → List File → List File
insert_file f [] = f ∷ []
insert_file f (g ∷ gs) = if codes_le f.name g.name then f ∷ g ∷ gs else g ∷ insert_file f gs

unfoldable pub sort_files : List File → List File
unfolding insert_file
sort_files [] = []
sort_files (f ∷ fs) = insert_file f (sort_files fs)

-- What `loadMigrations` returns, or the error that it throws.
pub data Loaded : Type 0 where
  loaded : List Migration → Loaded
  duplicate_version : ℕ → List ℕ → Loaded

abbrev pub cons_loaded : Migration → Loaded → Loaded
cons_loaded m (loaded ms) = loaded (m ∷ ms)
cons_loaded m (duplicate_version v f) = duplicate_version v f

abbrev pub has_version : ℕ → List ℕ → Bool
has_version v versions = any (λ (u : ℕ). eqb u v) versions

module _ (sha256 : String → String) where
  abbrev pub migration_of : ℕ → List ℕ → File → Migration
  migration_of version name f = record {
    version = version;
    name = name;
    filename = f.name;
    sql = f.content;
    checksum = sha256 f.content;
  }

  -- The loop over the files, with the versions seen.
  unfoldable pub read_files : List ℕ → List File → Loaded
  unfolding parse_migration_filename
  read_files seen [] = loaded []
  read_files seen (f ∷ fs) = elim (parse_migration_filename f.name) [
    | none ↦ read_files seen fs
    | some (version, name) ↦
        let rest = read_files (version ∷ seen) fs in
        if has_version version seen
        then duplicate_version version f.name
        else cons_loaded (migration_of version name f) rest
  ]

module _ (locale_le : List ℕ → List ℕ → Bool) where
  -- Whether the comparison of the last sort leaves `a` in front of `b`.
  abbrev pub comes_first : Migration → Migration → Bool
  comes_first a b =
      if eqb a.version b.version then locale_le a.name b.name else ltb a.version b.version

  unfoldable pub insert_migration : Migration → List Migration → List Migration
  insert_migration m [] = m ∷ []
  insert_migration m (n ∷ ns) = if comes_first m n then m ∷ n ∷ ns else n ∷ insert_migration m ns

  unfoldable pub sort_migrations : List Migration → List Migration
  unfolding insert_migration
  sort_migrations [] = []
  sort_migrations (m ∷ ms) = insert_migration m (sort_migrations ms)

  abbrev pub sorted : Loaded → Loaded
  sorted (loaded ms) = loaded (sort_migrations ms)
  sorted (duplicate_version v f) = duplicate_version v f

unfoldable pub load_migrations : (String → String) → (List ℕ → List ℕ → Bool) → List File → Loaded
unfolding read_files sort_files sort_migrations before_tail
load_migrations sha256 locale_le files =
    sorted locale_le (read_files sha256 [] (sort_files (keep is_migration_file files)))
