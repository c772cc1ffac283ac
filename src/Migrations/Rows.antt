-- ===== src/Migrations/Rows.antt =====
-- Properties of all rows of `schema_migrations`, and of the checksums of db/migrationRunner.ts.
use quipay_backend.Prelude.{
  ℕ, ◌<◌, ◌≡◌, refl, ap, ◌∙◌, inl, inr, Bool, true, false, ◌||◌, none, some, List, [], ◌∷◌, ◌++◌,
  map, arith, leb, eqb, eqb_iff, Bool-cases, if-both, if-true, if-false, nat_eq, string_eq, ==_refl,
  keep, any, find, All,
}
use quipay_backend.Migrations.{
  applied_row, versions_of, is_unmodified, same_checksum, verify_checksums, is_pending,
  get_applied_migrations, insert_applied,
}
use quipay_backend.Migrations.Files.{Migration, AppliedMigration, has_version}
use quipay_backend.Migrations.Loading.{IsIncreasing}

module _ (P : AppliedMigration → Type 0) where
  All-insert_applied :
      (a : AppliedMigration) (table : List AppliedMigration)
      → P a
      → All P table
      → All P (insert_applied a table)
  All-insert_applied a [] h hs = (h, tt)
  All-insert_applied a (b ∷ bs) h hs =
      if-both (All P) (leb a.version b.version) (h, hs) (hs.0, All-insert_applied a bs h hs.1)

  pub All-get_applied_migrations :
      (table : List AppliedMigration) → All P table → All P (get_applied_migrations table)
  All-get_applied_migrations [] h = tt
  All-get_applied_migrations (a ∷ table) h =
      All-insert_applied a (get_applied_migrations table) h.0 (All-get_applied_migrations table h.1)

  inserted-All :
      (a : AppliedMigration) (table : List AppliedMigration)
      → All P (insert_applied a table)
      → P a × All P table
  inserted-All a [] h = (h.0, tt)
  inserted-All a (b ∷ bs) h = elim (Bool-cases (leb a.version b.version)) [
    | inl first ↦ let all = rw first at h in (all.0, all.1)
    | inr last ↦
        let all = rw last at h in let rest = inserted-All a bs all.1 in (rest.0, (all.0, rest.1))
  ]

  pub selected-All :
      (table : List AppliedMigration) → All P (get_applied_migrations table) → All P table
  selected-All [] h = tt
  selected-All (a ∷ table) h =
      let rest = inserted-All a (get_applied_migrations table) h in
      (rest.0, selected-All table rest.1)

  pub All-applied_rows :
      (ms : List Migration)
      → All (λ (m : Migration). P (applied_row m)) ms
      → All P (map applied_row ms)
  All-applied_rows [] h = tt
  All-applied_rows (m ∷ ms) h = (h.0, All-applied_rows ms h.1)

pub All-kept :
    (P : Migration → Type 0) (p : Migration → Bool) (ms : List Migration)
    → All P ms
    → All P (keep p ms)
All-kept P p [] h = tt
All-kept P p (m ∷ ms) h = if-both (All P) (p m) (h.0, All-kept P p ms h.1) (All-kept P p ms h.1)

pub keep-none :
    (p : Migration → Bool) (ms : List Migration)
    → All (λ (m : Migration). p m ≡ false) ms
    → keep p ms ≡ []
keep-none p [] h = refl
keep-none p (m ∷ ms) h = if-false _ _ h.0 ∙ keep-none p ms h.1

pub verified-All :
    (ms : List Migration) (table : List AppliedMigration)
    → verify_checksums ms table ≡ none
    → All (λ (a : AppliedMigration). is_unmodified ms a ≡ true) table
unfolding verify_checksums
verified-All ms [] h = tt
verified-All ms (a ∷ table) h = elim (Bool-cases (is_unmodified ms a)) [
  | inl same ↦ (same, verified-All ms table (rw same at h))
  | inr other ↦ absurd (cc (rw other at h))
]

pub All-verified :
    (ms : List Migration) (table : List AppliedMigration)
    → All (λ (a : AppliedMigration). is_unmodified ms a ≡ true) table
    → verify_checksums ms table ≡ none
unfolding verify_checksums
All-verified ms [] h = refl
All-verified ms (a ∷ table) h = rw h.0 (All-verified ms table h.1)

-- In order, a migration is the one that its version finds.
All-found :
    (ms more : List Migration)
    → All (λ (m : Migration). find (λ (n : Migration). eqb n.version m.version) ms ≡ some m) more
    → (first : Migration) → All (λ (n : Migration). first.version < n.version) more
    → All
        (λ (m : Migration). find (λ (n : Migration). eqb n.version m.version) (first ∷ ms) ≡ some m)
        more
All-found ms [] h first lt = tt
All-found ms (m ∷ more) h first lt = (
  if-false (eqb first.version m.version) (some first) (ground (arith, lt.0)) ∙ h.0,
  All-found ms more h.1 first lt.1,
)

pub found_self :
    (ms : List Migration)
    → IsIncreasing ms
    → All (λ (m : Migration). find (λ (n : Migration). eqb n.version m.version) ms ≡ some m) ms
found_self [] up = tt
found_self (m ∷ ms) up = (
  if-true _ _ ((eqb_iff m.version m.version).1 refl),
  All-found ms ms (found_self ms up.1) m up.0,
)

any-append : (p : ℕ → Bool) (xs ys : List ℕ) → any p (xs ++ ys) ≡ (any p xs || any p ys)
any-append p [] ys = refl
any-append p (x ∷ xs) ys = ground (arith, any-append p xs ys)

versions_of-append :
    (table more : List AppliedMigration)
    → versions_of (table ++ more) ≡ versions_of table ++ versions_of more
versions_of-append [] more = refl
versions_of-append (a ∷ table) more = cc (versions_of-append table more)

pub applied_row-unmodified :
    (ms : List Migration) (more : List Migration)
    → All (λ (m : Migration). find (λ (n : Migration). eqb n.version m.version) ms ≡ some m) more
    → All (λ (m : Migration). is_unmodified ms (applied_row m) ≡ true) more
applied_row-unmodified ms [] h = tt
applied_row-unmodified ms (m ∷ more) h = (
  ap (λ o. same_checksum o (applied_row m)) h.0 ∙ ==_refl m.checksum,
  applied_row-unmodified ms more h.1,
)

-- The versions of the migrations that a test keeps.
abbrev kept_versions : (Migration → Bool) → List Migration → List ℕ
kept_versions p ms = versions_of (map applied_row (keep p ms))

kept_versions-cons :
    (p : Migration → Bool) (m : Migration) (ms : List Migration) (v : ℕ)
    → has_version v (kept_versions p ms) ≡ true
    → has_version v (kept_versions p (m ∷ ms)) ≡ true
kept_versions-cons p m ms v h =
    if-both (λ (ns : List Migration). has_version v (versions_of (map applied_row ns)) ≡ true) (p m)
      (ground (arith, h)) h

kept_versions_self :
    (p : Migration → Bool) (m : Migration) (ms : List Migration)
    → p m ≡ true
    → has_version m.version (kept_versions p (m ∷ ms)) ≡ true
kept_versions_self p m ms h =
    ap (λ (ns : List Migration). has_version m.version (versions_of (map applied_row ns)))
      (if-true (p m) (keep p ms) h)
    ∙ ground (arith, eqb_iff m.version m.version)

-- After the pending migrations have been added to a table, none of a part of them is pending.
pub settled :
    (table : List AppliedMigration) (ms part : List Migration)
    → ((v : ℕ)
        → has_version v (kept_versions (is_pending table) part) ≡ true
        → has_version v (kept_versions (is_pending table) ms) ≡ true)
    → All
        (λ (m : Migration).
          is_pending (table ++ map applied_row (keep (is_pending table) ms)) m ≡ false)
        part
settled table ms [] sub = tt
settled table ms (m ∷ part) sub =
    let rows = map applied_row (keep (is_pending table) ms) in
    let both =
      ap (has_version m.version) (versions_of-append table rows)
      ∙ any-append (λ (u : ℕ). eqb u m.version) (versions_of table) (versions_of rows) in
    (
      elim (Bool-cases (is_pending table m)) [
        | inl new ↦
            let added = sub m.version (kept_versions_self (is_pending table) m part new) in
            ground (arith, both, added)
        | inr old ↦ ground (arith, both, old)
      ],
      settled table ms part (λ v h. sub v (kept_versions-cons (is_pending table) m part v h)),
    )
