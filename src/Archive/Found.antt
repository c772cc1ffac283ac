-- ===== src/Archive/Found.antt =====
-- Where a row is, after the statements of a batch of services/archiveService.ts.
use mathlib.Core.Path.{subst}
use quipay_backend.Prelude.{
  ℕ, zero, suc, ◌≡◌, refl, sym, ap, inl, inr, Bool, true, not, Option, none, some, List, [], ◌∷◌,
  arith, leb, if◌then◌else◌, eqb_iff, Bool-cases, Option-cases, or_else, if-both, if-split, ◌==◌,
  nat_eq, string_eq, ==_refl, take, keep, All,
}
use quipay_backend.Map
use quipay_backend.Archive.Stores.{
  insert_by, order_by, list_expired, is_one_of, delete_rows, insert_missing, insert_rows,
}

-- `keep`, `take` and sorting give no entry that is not there.
module _ {ℓ} {A : Type 0} (P : ℕ × A → Type ℓ) where
  All-keep : (p : ℕ × A → Bool) (es : List (ℕ × A)) → All P es → All P (keep p es)
  All-keep p [] h = tt
  All-keep p (e ∷ es) h = if-both (All P) (p e) (h.0, All-keep p es h.1) (All-keep p es h.1)

  All-take : (n : ℕ) (es : List (ℕ × A)) → All P es → All P (take n es)
  All-take zero es h = tt
  All-take (suc n) [] h = tt
  All-take (suc n) (e ∷ es) h = (h.0, All-take n es h.1)

  All-insert_by :
      (time : A → ℕ) (e : ℕ × A) (es : List (ℕ × A)) → P e → All P es → All P (insert_by time e es)
  All-insert_by time e [] h hs = (h, tt)
  All-insert_by time e (f ∷ fs) h hs =
      if-both (All P) (leb (time e.1) (time f.1)) (h, hs) (hs.0, All-insert_by time e fs h hs.1)

  All-order_by : (time : A → ℕ) (es : List (ℕ × A)) → All P es → All P (order_by time es)
  All-order_by time [] h = tt
  All-order_by time (e ∷ es) h =
      All-insert_by time e (order_by time es) h.0 (All-order_by time es h.1)

pub All-first :
    {A : Type 0} (P Q : ℕ × A → Type 0) (es : List (ℕ × A))
    → All (λ (e : ℕ × A). P e × Q e) es
    → All P es
All-first P Q [] h = tt
All-first P Q (e ∷ es) h = (h.0.0, All-first P Q es h.1)

All-where :
    {A : Type 0} (P Q : ℕ × A → Type 0) (p : ℕ × A → Bool) (es : List (ℕ × A))
    → ((e : ℕ × A) → p e ≡ true → P e → Q e)
    → All P es
    → All Q (keep p es)
All-where P Q p [] f h = tt
All-where P Q p (e ∷ es) f h =
    if-split (All Q) (p e) (λ t. (f e t h.0, All-where P Q p es f h.1))
      (λ _. All-where P Q p es f h.1)

-- The primary key: an entry of the table is the one that its id finds.
abbrev pub IsFound : {A : Type 0} → List (ℕ × A) → ℕ × A → Type 0
IsFound table e = Map.lookup e.0 table ≡ some e.1

module _ {A : Type 0} where
  pub lookup-delete_rows :
      (rows table : List (ℕ × A)) (j : ℕ)
      → Map.lookup j (delete_rows rows table)
        ≡ (if is_one_of rows j then none else Map.lookup j table)
  unfolding delete_rows Map.lookup
  lookup-delete_rows rows [] j = ground arith
  lookup-delete_rows rows ((i, r) ∷ table) j =
      ground (arith, eqb_iff i j, lookup-delete_rows rows table j)

  -- A row that is listed has expired, and stands in the table.
  pub listed-All :
      (expired : A → Bool) (time : A → ℕ) (size : ℕ) (table : List (ℕ × A))
      → All (IsFound table) table
      → All
          (λ (e : ℕ × A). IsFound table e × (expired e.1 ≡ true))
          (list_expired expired time size table)
  unfolding list_expired
  listed-All expired time size table h =
      let P : ℕ × A → Type 0 = λ (e : ℕ × A). IsFound table e × (expired e.1 ≡ true) in
      let kept = keep (λ (e : ℕ × A). expired e.1) table in
      All-take P size (order_by time kept) (
        All-order_by P time kept
          (All-where (IsFound table) P (λ (e : ℕ × A). expired e.1) table (λ e t f. (f, t)) h))

  pub delete_rows-IsFound :
      (rows table : List (ℕ × A))
      → All (IsFound table) table
      → All (IsFound (delete_rows rows table)) (delete_rows rows table)
  unfolding delete_rows
  delete_rows-IsFound rows table h =
      All-where (IsFound table) (IsFound (delete_rows rows table))
        (λ (e : ℕ × A). not (is_one_of rows e.0)) table
        (λ e t f. ground (arith, lookup-delete_rows rows table e.0, t, f)) h

  pub one_of-found :
      (P : ℕ × A → Type 0) (rows : List (ℕ × A)) (j : ℕ)
      → All P rows
      → is_one_of rows j ≡ true
      → (r : A) × P (j, r)
  one_of-found P [] j h found = absurd (cc found)
  one_of-found P ((i, r) ∷ rows) j h found = elim (Bool-cases (i == j)) [
    | inl same ↦ (r, subst (λ (k : ℕ). P (k, r)) ((eqb_iff i j).0 same) h.0)
    | inr other ↦ one_of-found P rows j h.1 (rw other at found)
  ]

module _ {A B : Type 0} (convert : A → B) where
  lookup-insert_missing :
      (id j : ℕ) (b : B) (table : List (ℕ × B))
      → Map.lookup j (insert_missing id b table)
        ≡ (if id == j then some (or_else (Map.lookup j table) b) else Map.lookup j table)
  lookup-insert_missing id j b table = elim (Bool-cases (id == j)) [
    | inl same ↦ elim (Option-cases (Map.lookup id table)) [
      | inl gone ↦
          rw (sym ((eqb_iff id j).0 same), gone, Map.lookup-insert id id b table, ==_refl id) refl
      | inr (old, there) ↦ rw (sym ((eqb_iff id j).0 same), there, ==_refl id) there
    ]
    | inr other ↦ elim (Option-cases (Map.lookup id table)) [
      | inl gone ↦ rw (gone, Map.lookup-insert id j b table, other) refl
      | inr (old, there) ↦ rw (there, other) refl
    ]
  ]

  -- A row of the archive stays as it is.
  pub insert_rows-keeps :
      (rows : List (ℕ × A)) (table : List (ℕ × B)) (j : ℕ) (b : B)
      → Map.lookup j table ≡ some b
      → Map.lookup j (insert_rows convert rows table) ≡ some b
  unfolding insert_rows
  insert_rows-keeps [] table j b h = h
  insert_rows-keeps ((i, r) ∷ rows) table j b h =
      insert_rows-keeps rows (insert_missing i (convert r) table) j b (
        rw (lookup-insert_missing i j (convert r) table, h)
          (if-both (λ (o : Option B). o ≡ some b) (i == j) refl refl))

  -- A row that is inserted is in the archive as converted, where an earlier copy of it was one; the
  -- others are as they were.
  pub lookup-insert_rows :
      (live rows : List (ℕ × A)) (table : List (ℕ × B)) (j : ℕ) (r : A)
      → Map.lookup j live ≡ some r
      → All (IsFound live) rows
      → ((b : B) → Map.lookup j table ≡ some b → b ≡ convert r)
      → Map.lookup j (insert_rows convert rows table)
        ≡ (if is_one_of rows j then some (convert r) else Map.lookup j table)
  unfolding insert_rows
  lookup-insert_rows live [] table j r found h agree = refl
  lookup-insert_rows live ((i, q) ∷ rows) table j r found h agree = elim (Bool-cases (i == j)) [
    | inl same ↦ rw same (
        insert_rows-keeps rows (insert_missing i (convert q) table) j (convert r) (
          rw (lookup-insert_missing i j (convert q) table, same)
            (elim (Option-cases (Map.lookup j table)) [
              | inl gone ↦ rw gone (
                  ap (λ x. some (convert x))
                    (let here = (eqb_iff i j).0 same in let first = h.0 in cc))
              | inr (old, there) ↦ rw there (ap some (agree old there))
            ])))
    | inr other ↦
        rw (other, sym (rw other at (lookup-insert_missing i j (convert q) table)))
          (lookup-insert_rows live rows (insert_missing i (convert q) table) j r found h.1
            (λ b there. agree b (rw (lookup-insert_missing i j (convert q) table, other) at there)))
  ]
