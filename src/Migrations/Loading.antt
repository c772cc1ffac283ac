-- ===== src/Migrations/Loading.antt =====
-- What `loadMigrations` of db/migrationRunner.ts returns.
use mathlib.Core.Path.{subst}
use quipay_backend.Prelude.{
  ℕ, ◌<◌, String, ◌≡◌, ◌≢◌, inl, inr, Bool, true, false, List, [], ◌∷◌, arith, Option-cases,
  if-both, if-split, nat_eq, string_eq, keep, All,
}
use quipay_backend.Migrations.Files.{
  File, Migration, Loaded, loaded, duplicate_version, cons_loaded, has_version, migration_of,
  parse_migration_filename, read_files, comes_first, insert_migration, sort_migrations, sort_files,
  load_migrations, sorted, is_migration_file,
}

-- The versions go up.
abbrev pub IsIncreasing : List Migration → Type 0
IsIncreasing [] = Unit
IsIncreasing (m ∷ ms) = All (λ (n : Migration). m.version < n.version) ms × IsIncreasing ms

-- No version is seen, and none stands twice.
abbrev IsFresh : List ℕ → List Migration → Type 0
IsFresh seen [] = Unit
IsFresh seen (m ∷ ms) = (has_version m.version seen ≡ false) × IsFresh (m.version ∷ seen) ms

-- What was read, if it was.
abbrev Reads : List ℕ → Loaded → Type 0
Reads seen (loaded ms) = IsFresh seen ms
Reads seen (duplicate_version v f) = Unit

cons_loaded-Reads :
    (seen : List ℕ) (m : Migration) (rest : Loaded)
    → has_version m.version seen ≡ false
    → Reads (m.version ∷ seen) rest
    → Reads seen (cons_loaded m rest)
cons_loaded-Reads seen m (loaded ns) new fresh = (new, fresh)
cons_loaded-Reads seen m (duplicate_version v f) new fresh = tt

-- A version above all that are seen is not seen.
fresh-ne :
    (v : ℕ) (seen : List ℕ) (ms : List Migration)
    → has_version v seen ≡ true
    → IsFresh seen ms
    → All (λ (m : Migration). m.version ≢ v) ms
fresh-ne v seen [] old fresh = tt
fresh-ne v seen (m ∷ ms) old fresh = (
  (λ same. absurd (cc (rw same at fresh.0, old))),
  fresh-ne v (m.version ∷ seen) ms (rw old (ground arith)) fresh.1,
)

read_files-Reads :
    (sha256 : String → String) (seen : List ℕ) (fs : List File)
    → Reads seen (read_files sha256 seen fs)
unfolding read_files
read_files-Reads sha256 seen [] = tt
read_files-Reads sha256 seen (f ∷ fs) = elim (Option-cases (parse_migration_filename f.name)) [
  | inl skipped ↦ rw (skipped, read_files) (read_files-Reads sha256 seen fs)
  | inr ((version, name), parsed) ↦
      rw (parsed, read_files)
        (if-split (Reads seen) (has_version version seen) (λ old. tt)
          (λ new.
            cons_loaded-Reads seen (migration_of sha256 version name f) _ new
              (read_files-Reads sha256 (version ∷ seen) fs)))
]

All-lt_trans :
    (a b : ℕ) (ms : List Migration)
    → a < b
    → All (λ (m : Migration). b < m.version) ms
    → All (λ (m : Migration). a < m.version) ms
All-lt_trans a b [] lt h = tt
All-lt_trans a b (m ∷ ms) lt h = (omega (arith, lt, h.0), All-lt_trans a b ms lt h.1)

module _ (locale_le : List ℕ → List ℕ → Bool) where
  All-insert_migration :
      (P : Migration → Type 0) (m : Migration) (ms : List Migration)
      → P m
      → All P ms
      → All P (insert_migration locale_le m ms)
  unfolding insert_migration
  All-insert_migration P m [] h hs = (h, tt)
  All-insert_migration P m (n ∷ ns) h hs =
      if-both (All P) (comes_first locale_le m n) (h, hs) (hs.0, All-insert_migration P m ns h hs.1)

  All-sort_migrations :
      (P : Migration → Type 0) (ms : List Migration)
      → All P ms
      → All P (sort_migrations locale_le ms)
  unfolding sort_migrations
  All-sort_migrations P [] h = tt
  All-sort_migrations P (m ∷ ms) h =
      All-insert_migration P m (sort_migrations locale_le ms) h.0 (All-sort_migrations P ms h.1)

  lt_of_comes_first :
      (m n : Migration)
      → n.version ≢ m.version
      → (comes_first locale_le m n ≡ true → m.version < n.version)
        × (comes_first locale_le m n ≡ false → n.version < m.version)
  lt_of_comes_first m n ne = (λ h. ground (arith, h), λ h. ground (arith, h))

  insert_migration-IsIncreasing :
      (m : Migration) (ms : List Migration)
      → All (λ (n : Migration). n.version ≢ m.version) ms
      → IsIncreasing ms
      → IsIncreasing (insert_migration locale_le m ms)
  unfolding insert_migration
  insert_migration-IsIncreasing m [] ne up = (tt, tt)
  insert_migration-IsIncreasing m (n ∷ ns) ne up =
      if-split IsIncreasing (comes_first locale_le m n)
        (λ first.
          let lt = (lt_of_comes_first m n ne.0).0 first in
          ((lt, All-lt_trans m.version n.version ns lt up.0), up))
        (λ last. (
          All-insert_migration (λ (x : Migration). n.version < x.version) m ns
              ((lt_of_comes_first m n ne.0).1 last) up.0,
          insert_migration-IsIncreasing m ns ne.1 up.1,
        ))

  sort_migrations-IsIncreasing :
      (seen : List ℕ) (ms : List Migration)
      → IsFresh seen ms
      → IsIncreasing (sort_migrations locale_le ms)
  unfolding sort_migrations
  sort_migrations-IsIncreasing seen [] fresh = tt
  sort_migrations-IsIncreasing seen (m ∷ ms) fresh =
      insert_migration-IsIncreasing m (sort_migrations locale_le ms)
        (All-sort_migrations (λ (n : Migration). n.version ≢ m.version) ms
          (fresh-ne m.version (m.version ∷ seen) ms (ground arith) fresh.1))
        (sort_migrations-IsIncreasing (m.version ∷ seen) ms fresh.1)

  sorted-IsIncreasing :
      (read : Loaded) (ms : List Migration)
      → Reads [] read
      → sorted locale_le read ≡ loaded ms
      → IsIncreasing ms
  sorted-IsIncreasing (loaded ns) ms fresh e =
      let same : sort_migrations locale_le ns ≡ ms = cc e in
      subst IsIncreasing same (sort_migrations-IsIncreasing [] ns fresh)
  sorted-IsIncreasing (duplicate_version v f) ms fresh e = absurd (cc e)

-- The migrations that `loadMigrations` returns stand in the order of their versions, each version
-- once, however the files are named.
pub load_migrations-IsIncreasing :
    (sha256 : String → String) (locale_le : List ℕ → List ℕ → Bool) (files : List File)
    (ms : List Migration)
    → load_migrations sha256 locale_le files ≡ loaded ms
    → IsIncreasing ms
unfolding load_migrations
load_migrations-IsIncreasing sha256 locale_le files ms e =
    sorted-IsIncreasing locale_le _ ms
      (read_files-Reads sha256 [] (sort_files (keep is_migration_file files))) e
