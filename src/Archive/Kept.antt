-- ===== src/Archive/Kept.antt =====
-- What the batches of services/archiveService.ts do to the rows of a table.
use quipay_backend.Prelude.{
  ℕ, ◌≡◌, refl, sym, ◌∙◌, ◌⊎◌, inl, inr, Bool, true, ◌||◌, some, List, [], ◌∷◌, arith,
  if◌then◌else◌, Bool-cases, if-true, if-false, nat_eq, string_eq, All,
}
use quipay_backend.Map
use quipay_backend.Archive.Stores.{
  Store, Answers, unsaved, undeleted, answered, list_expired, is_one_of, delete_rows, insert_rows,
  archive_rows,
}
use quipay_backend.Archive.Found.{
  All-first, IsFound, lookup-delete_rows, listed-All, delete_rows-IsFound, one_of-found,
  insert_rows-keeps, lookup-insert_rows,
}

-- A store whose ids are primary keys, and whose archive has, of a row that is still in the live table, a
-- copy as converted, where it has one (an earlier `DELETE` has failed).
abbrev pub IsSound : {A B : Type 0} → (A → B) → Store A B → Type 0
IsSound {A} {B} convert s =
    All (IsFound s.live) s.live
    × ((j : ℕ) (r : A) (b : B)
        → Map.lookup j s.live ≡ some r
        → Map.lookup j s.archived ≡ some b
        → b ≡ convert r)

-- Each row stays in the live table, or its test says yes and the archive has it as converted; and what
-- is in the archive stays as it is.
abbrev pub IsKept : {A B : Type 0} → (A → B) → (A → Bool) → (before after : Store A B) → Type 0
IsKept {A} {B} convert p s t =
    ((j : ℕ) (r : A)
      → Map.lookup j s.live ≡ some r
      → (Map.lookup j t.live ≡ some r)
        ⊎ ((p r ≡ true) × (Map.lookup j t.archived ≡ some (convert r))))
    × ((j : ℕ) (b : B) → Map.lookup j s.archived ≡ some b → Map.lookup j t.archived ≡ some b)

module _ {A B : Type 0} (convert : A → B) where
  pub unchanged-IsKept : (p : A → Bool) (s : Store A B) → IsKept convert p s s
  unchanged-IsKept p s = (λ j r h. inl h, λ j b h. h)

  pub IsKept-then :
      (p q : A → Bool) (s t u : Store A B)
      → IsKept convert p s t
      → IsKept convert q t u
      → IsKept convert (λ r. p r || q r) s u
  IsKept-then p q s t u first second = (
    λ j r h. elim (first.0 j r h) [
      | inl stays ↦ elim (second.0 j r stays) [
        | inl still ↦ inl still
        | inr (met, there) ↦ inr (ground (arith, met), there)
      ]
      | inr (met, there) ↦ inr (rw met refl, second.1 j (convert r) there)
    ],
    λ j b h. second.1 j b (first.1 j b h),
  )

  module _ (expired : A → Bool) (rows : List (ℕ × A)) (s : Store A B) where
    abbrev Listed : Type 0
    Listed = All (λ (e : ℕ × A). IsFound s.live e × (expired e.1 ≡ true)) rows

    listed-IsFound : Listed → All (IsFound s.live) rows
    listed-IsFound h = All-first (IsFound s.live) (λ (e : ℕ × A). expired e.1 ≡ true) rows h

    abbrev inserted : List (ℕ × B)
    inserted = insert_rows convert rows s.archived

    -- The row of an id that is listed.
    listed-row :
        (j : ℕ) (r : A)
        → Listed
        → Map.lookup j s.live ≡ some r
        → is_one_of rows j ≡ true
        → expired r ≡ true
    listed-row j r h found one =
        let row =
          one_of-found (λ (e : ℕ × A). IsFound s.live e × (expired e.1 ≡ true)) rows j h one in
        let same = row.1.0 in let old = row.1.1 in cc

    lookup-inserted :
        (j : ℕ) (r : A)
        → Listed
        → IsSound convert s
        → Map.lookup j s.live ≡ some r
        → Map.lookup j inserted
          ≡ (if is_one_of rows j then some (convert r) else Map.lookup j s.archived)
    lookup-inserted j r h sound found =
        lookup-insert_rows convert s.live rows s.archived j r found (listed-IsFound h)
          (λ b there. sound.1 j r b found there)

    inserted-agrees :
        Listed
        → IsSound convert s
        → (j : ℕ) (r : A) (b : B) → Map.lookup j s.live ≡ some r
        → Map.lookup j inserted ≡ some b
        → b ≡ convert r
    inserted-agrees h sound j r b found there =
        let new = lookup-inserted j r h sound found in
        elim (Bool-cases (is_one_of rows j)) [
          | inl one ↦ (let now = rw one at new in cc)
          | inr other ↦ sound.1 j r b found (sym (rw other at new) ∙ there)
        ]

    still_live :
        (j : ℕ) (r : A)
        → Map.lookup j (delete_rows rows s.live) ≡ some r
        → Map.lookup j s.live ≡ some r
    still_live j r h =
        let now = lookup-delete_rows rows s.live j in
        elim (Bool-cases (is_one_of rows j)) [
          | inl one ↦ (let gone = rw one at now in absurd (cc))
          | inr other ↦ sym (rw other at now) ∙ h
        ]

    undeleted-IsSound :
        Listed → IsSound convert s → IsSound convert (record s { archived = inserted })
    undeleted-IsSound h sound =
        (sound.0, λ j r b found there. inserted-agrees h sound j r b found there)

    deleted-IsSound :
        Listed
        → IsSound convert s
        → IsSound convert (record { live = delete_rows rows s.live; archived = inserted })
    deleted-IsSound h sound = (
      delete_rows-IsFound rows s.live sound.0,
      λ j r b found there. inserted-agrees h sound j r b (still_live j r found) there,
    )

    deleted-IsKept :
        Listed
        → IsSound convert s
        → IsKept convert expired s (record { live = delete_rows rows s.live; archived = inserted })
    deleted-IsKept h sound = (
      λ j r found. elim (Bool-cases (is_one_of rows j)) [
        | inl one ↦
            inr (listed-row j r h found one, lookup-inserted j r h sound found ∙ if-true _ _ one)
        | inr other ↦ inl (lookup-delete_rows rows s.live j ∙ if-false _ _ other ∙ found)
      ],
      λ j b there. insert_rows-keeps convert rows s.archived j b there,
    )

    undeleted-IsKept : Listed → IsKept convert expired s (record s { archived = inserted })
    undeleted-IsKept h =
        (λ j r found. inl found, λ j b there. insert_rows-keeps convert rows s.archived j b there)

  -- All branches of an archiving function.
  module _ (expired : A → Bool) (s : Store A B) where
    abbrev IsStep : Store A B → Type 0
    IsStep t = IsSound convert t × IsKept convert expired s t

    archive_rows-IsStep :
        (answers : Answers) (rows : List (ℕ × A))
        → Listed expired rows s
        → IsSound convert s
        → IsStep (archive_rows convert answers rows s).1
    unfolding archive_rows
    archive_rows-IsStep a [] h sound = (sound, unchanged-IsKept expired s)
    archive_rows-IsStep unsaved (e ∷ es) h sound = (sound, unchanged-IsKept expired s)
    archive_rows-IsStep undeleted (e ∷ es) h sound =
        (undeleted-IsSound expired (e ∷ es) s h sound, undeleted-IsKept expired (e ∷ es) s h)
    archive_rows-IsStep answered (e ∷ es) h sound =
        (deleted-IsSound expired (e ∷ es) s h sound, deleted-IsKept expired (e ∷ es) s h sound)

    pub batch-IsStep :
        (answers : Answers) (time : A → ℕ) (size : ℕ)
        → IsSound convert s
        → IsStep (archive_rows convert answers (list_expired expired time size s.live) s).1
    batch-IsStep answers time size sound =
        archive_rows-IsStep answers (list_expired expired time size s.live)
          (listed-All expired time size s.live sound.0) sound
