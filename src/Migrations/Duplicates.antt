-- ===== src/Migrations/Duplicates.antt =====
-- Two files of one version stand behind the refusal of `loadMigrations` of db/migrationRunner.ts.
use mathlib.Core.Path.{subst}
use quipay_backend.Prelude.{
  ℕ, ◌+◌, ◌≤◌, String, ◌≡◌, refl, ap, ◌∙◌, inl, inr, Bool, true, false, Option, none, some, List,
  [], ◌∷◌, arith, eqb, if◌then◌else◌, eqb_iff, Bool-cases, Option-cases, if-both, if-split, nat_eq,
  string_eq, keep,
}
use quipay_backend.Migrations.Files.{
  File, Migration, Loaded, loaded, duplicate_version, cons_loaded, has_version, migration_of,
  parse_migration_filename, read_files, sort_files, insert_file, codes_le, sorted, load_migrations,
  is_migration_file,
}

abbrev is_version : ℕ → Option (ℕ × List ℕ) → Bool
is_version v none = false
is_version v (some (u, name)) = eqb u v

-- How many files have a version in their name.
abbrev pub count_version : ℕ → List File → ℕ
count_version v [] = 0
count_version v (f ∷ fs) =
    (if is_version v (parse_migration_filename f.name) then 1 else 0) + count_version v fs

cons_loaded-duplicate :
    (m : Migration) (rest : Loaded) (v : ℕ) (name : List ℕ)
    → cons_loaded m rest ≡ duplicate_version v name
    → rest ≡ duplicate_version v name
cons_loaded-duplicate m (loaded ms) v name h = absurd (cc h)
cons_loaded-duplicate m (duplicate_version u other) v name h = h

sorted-duplicate :
    (locale_le : List ℕ → List ℕ → Bool) (read : Loaded) (v : ℕ) (name : List ℕ)
    → sorted locale_le read ≡ duplicate_version v name
    → read ≡ duplicate_version v name
sorted-duplicate locale_le (loaded ms) v name h = absurd (cc h)
sorted-duplicate locale_le (duplicate_version u other) v name h = h

read_files-duplicate :
    (sha256 : String → String) (seen : List ℕ) (fs : List File) (v : ℕ) (name : List ℕ)
    → read_files sha256 seen fs ≡ duplicate_version v name
    → 2 ≤ (if has_version v seen then 1 else 0) + count_version v fs
unfolding read_files
read_files-duplicate sha256 seen [] v name h = absurd (cc h)
read_files-duplicate sha256 seen (f ∷ fs) v name h =
    elim (Option-cases (parse_migration_filename f.name)) [
      | inl skipped ↦
          let rest = read_files-duplicate sha256 seen fs v name (rw (skipped, read_files) at h) in
          rw skipped (omega (arith, rest))
      | inr ((version, title), parsed) ↦ rw parsed (
          if-split
            (λ (l : Loaded).
              l ≡ duplicate_version v name
              → 2
                ≤ (if has_version v seen then 1 else 0)
                  + ((if eqb version v then 1 else 0) + count_version v fs))
            (has_version version seen)
            (λ old e.
              let same : version ≡ v = cc e in
              rw (same, (eqb_iff v v).1 refl, subst (λ u. has_version u seen ≡ true) same old)
                (omega arith))
            (λ new e.
              let rest =
                read_files-duplicate sha256 (version ∷ seen) fs v name
                  (cons_loaded-duplicate (migration_of sha256 version title f) _ v name e) in
              elim (Bool-cases (eqb version v)) [
                | inl same ↦
                    let unseen : has_version v seen ≡ false =
                      subst (λ u. has_version u seen ≡ false) ((eqb_iff version v).0 same) new in
                    let fewer = rw same at rest in rw (same, unseen) (omega (arith, fewer))
                | inr other ↦ let fewer = rw other at rest in rw other (omega (arith, fewer))
              ])
            (rw (parsed, read_files) at h))
    ]

count-insert_file :
    (v : ℕ) (f : File) (fs : List File)
    → count_version v (insert_file f fs) ≡ count_version v (f ∷ fs)
unfolding insert_file
count-insert_file v f [] = refl
count-insert_file v f (g ∷ gs) =
    let rest = count-insert_file v f gs in
    if-both (λ (l : List File). count_version v l ≡ count_version v (f ∷ g ∷ gs))
      (codes_le f.name g.name) {x = f ∷ g ∷ gs} {y = g ∷ insert_file f gs} refl
      (omega (arith, rest))

count-sort_files : (v : ℕ) (fs : List File) → count_version v (sort_files fs) ≡ count_version v fs
unfolding sort_files
count-sort_files v [] = refl
count-sort_files v (f ∷ fs) =
    count-insert_file v f (sort_files fs)
    ∙ ap (λ n. (if is_version v (parse_migration_filename f.name) then 1 else 0) + n)
        (count-sort_files v fs)

pub load_migrations-duplicate :
    (sha256 : String → String) (locale_le : List ℕ → List ℕ → Bool) (files : List File) (v : ℕ)
    (name : List ℕ)
    → load_migrations sha256 locale_le files ≡ duplicate_version v name
    → 2 ≤ count_version v (keep is_migration_file files)
unfolding load_migrations
load_migrations-duplicate sha256 locale_le files v name h =
    let kept = keep is_migration_file files in
    let two =
      read_files-duplicate sha256 [] (sort_files kept) v name
        (sorted-duplicate locale_le (read_files sha256 [] (sort_files kept)) v name h) in
    let same = count-sort_files v kept in omega (arith, two, same)
