-- ===== src/Archive/Drained.antt =====
-- How many rows a batch of services/archiveService.ts takes out of a table.
use quipay_backend.Prelude.{
  ℕ, zero, suc, ◌+◌, ◌-◌, ◌≤◌, ◌<◌, ◌≡◌, refl, sym, ap, ◌∙◌, inl, inr, Bool, true, false, not, ◌&&◌,
  Option, some, List, [], ◌∷◌, arith, ltb, leb, if◌then◌else◌, Bool-cases, if-split, nat_eq,
  string_eq, ==_refl, length, take, drop, keep, All,
}
use quipay_backend.Archive.Stores.{
  Store, answered, insert_by, order_by, list_expired, is_one_of, delete_rows, archive_rows,
}

module _ {A : Type 0} where
  abbrev pub count : (ℕ × A → Bool) → List (ℕ × A) → ℕ
  count p [] = 0
  count p (e ∷ es) = let n = count p es in if p e then suc n else n

  pub count-none :
      (p : ℕ × A → Bool) (es : List (ℕ × A)) → All (λ (e : ℕ × A). p e ≡ false) es → count p es ≡ 0
  count-none p [] h = refl
  count-none p (e ∷ es) h = rw h.0 (count-none p es h.1)

  pub none-count :
      (p : ℕ × A → Bool) (es : List (ℕ × A)) → count p es ≡ 0 → All (λ (e : ℕ × A). p e ≡ false) es
  none-count p [] h = tt
  none-count p (e ∷ es) h = elim (Bool-cases (p e)) [
    | inl t ↦ (let some_left = rw t at h in absurd (omega (arith, some_left)))
    | inr f ↦ (f, none-count p es (rw f at h))
  ]

  count-same :
      (p q : ℕ × A → Bool) (es : List (ℕ × A)) → ((e : ℕ × A) → p e ≡ q e) → count p es ≡ count q es
  count-same p q [] h = refl
  count-same p q (e ∷ es) h = rw (h e, count-same p q es h) refl

  count-implies :
      (p q : ℕ × A → Bool) (es : List (ℕ × A))
      → ((e : ℕ × A) → p e ≡ true → q e ≡ true)
      → count p es ≤ count q es
  count-implies p q [] h = omega arith
  count-implies p q (e ∷ es) h = ground (arith, h e, count-implies p q es h)

  count-keep :
      (p q : ℕ × A → Bool) (es : List (ℕ × A)) → count p (keep q es) ≡ count (λ e. q e && p e) es
  count-keep p q [] = refl
  count-keep p q (e ∷ es) = ground (arith, count-keep p q es)

  count-split :
      (p : ℕ × A → Bool) (n : ℕ) (es : List (ℕ × A))
      → count p es ≡ count p (take n es) + count p (drop n es)
  count-split p zero es = omega arith
  count-split p (suc n) [] = refl
  count-split p (suc n) (e ∷ es) = ground (arith, count-split p n es)

  count-insert_by :
      (p : ℕ × A → Bool) (time : A → ℕ) (e : ℕ × A) (es : List (ℕ × A))
      → count p (insert_by time e es) ≡ count p (e ∷ es)
  count-insert_by p time e [] = refl
  count-insert_by p time e (f ∷ fs) = ground (arith, count-insert_by p time e fs)

  count-order_by :
      (p : ℕ × A → Bool) (time : A → ℕ) (es : List (ℕ × A))
      → count p (order_by time es) ≡ count p es
  count-order_by p time [] = refl
  count-order_by p time (e ∷ es) =
      ground (arith, count-insert_by p time e (order_by time es), count-order_by p time es)

  -- Those that pass stand first.
  abbrev IsFirst : (ℕ × A → Bool) → List (ℕ × A) → Type 0
  IsFirst p [] = Unit
  IsFirst p (e ∷ es) = (p e ≡ false → count p es ≡ 0) × IsFirst p es

  module _ (time : A → ℕ) (t : ℕ) where
    abbrev is_old : ℕ × A → Bool
    is_old e = ltb (time e.1) t

    insert_by-IsFirst :
        (e : ℕ × A) (es : List (ℕ × A)) → IsFirst is_old es → IsFirst is_old (insert_by time e es)
    insert_by-IsFirst e [] h = (λ _. refl, tt)
    insert_by-IsFirst e (f ∷ fs) h =
        if-split (IsFirst is_old) (leb (time e.1) (time f.1))
          (λ below. (λ young. ground (arith, below, young, h.0), h))
          (λ above. (
            λ young. ground (arith, above, young, h.0, count-insert_by is_old time e fs),
            insert_by-IsFirst e fs h.1,
          ))

    order_by-IsFirst : (es : List (ℕ × A)) → IsFirst is_old (order_by time es)
    order_by-IsFirst [] = tt
    order_by-IsFirst (e ∷ es) = insert_by-IsFirst e (order_by time es) (order_by-IsFirst es)

  count-drop :
      (p : ℕ × A → Bool) (n : ℕ) (es : List (ℕ × A))
      → IsFirst p es
      → count p (drop n es) ≤ count p es - n
  count-drop p zero es h = omega arith
  count-drop p (suc n) [] h = omega arith
  count-drop p (suc n) (e ∷ es) h = ground (arith, h.0, count-drop p n es h.1)

  any-later :
      (e f : ℕ × A) (rows : List (ℕ × A))
      → is_one_of rows f.0 ≡ true
      → is_one_of (e ∷ rows) f.0 ≡ true
  any-later e f rows h = ground (arith, h)

  All-later :
      (e : ℕ × A) (rows es : List (ℕ × A))
      → All (λ (f : ℕ × A). is_one_of rows f.0 ≡ true) es
      → All (λ (f : ℕ × A). is_one_of (e ∷ rows) f.0 ≡ true) es
  All-later e rows [] h = tt
  All-later e rows (f ∷ es) h = (any-later e f rows h.0, All-later e rows es h.1)

  All-one_of : (rows : List (ℕ × A)) → All (λ (f : ℕ × A). is_one_of rows f.0 ≡ true) rows
  All-one_of [] = tt
  All-one_of (e ∷ rows) = (rw (==_refl e.0) refl, All-later e rows rows (All-one_of rows))

  -- Of the rows that are deleted none is left.
  count-gone :
      (p : ℕ × A → Bool) (rows es : List (ℕ × A))
      → All (λ (f : ℕ × A). is_one_of rows f.0 ≡ true) es
      → count (λ e. not (is_one_of rows e.0) && p e) es ≡ 0
  count-gone p rows [] h = refl
  count-gone p rows (e ∷ es) h = rw h.0 (count-gone p rows es h.1)

  delete_rows-nothing : (table : List (ℕ × A)) → delete_rows [] table ≡ table
  unfolding delete_rows
  delete_rows-nothing [] = refl
  delete_rows-nothing (e ∷ es) = ap (λ rest. e ∷ rest) (delete_rows-nothing es)

  drop-short : (n : ℕ) (es : List (ℕ × A)) → length (take n es) < n → drop n es ≡ []
  drop-short zero es h = absurd (omega (arith, h))
  drop-short (suc n) [] h = refl
  drop-short (suc n) (e ∷ es) h = drop-short n es (omega (arith, h))

and_swap : (a b c : Bool) → (a && (b && c)) ≡ (b && (a && c))
and_swap true b c = refl
and_swap false true c = refl
and_swap false false c = refl

and_second : (a b : Bool) → (a && b) ≡ true → b ≡ true
and_second true b h = h
and_second false b h = absurd (cc h)

-- A batch at its cutoff, seen at another one `t` that is not later: `old` says which rows have expired
-- at `t`.
module _ {A : Type 0} (expired old : A → Bool) (time : A → ℕ) (t : ℕ)
    (same : (r : A) → old r ≡ (expired r && ltb (time r) t)) where
  abbrev old_row : ℕ × A → Bool
  old_row e = old e.1

  abbrev sorted : List (ℕ × A) → List (ℕ × A)
  sorted table = order_by time (keep (λ (e : ℕ × A). expired e.1) table)

  -- Counted among those that have expired.
  count-sorted :
      (p : ℕ × A → Bool) (table : List (ℕ × A))
      → count (λ e. p e && old_row e) table ≡ count (λ e. p e && is_old time t e) (sorted table)
  count-sorted p table =
      let q : ℕ × A → Bool = λ e. p e && is_old time t e in
      count-same (λ e. p e && old_row e) (λ e. expired e.1 && q e) table
        (λ e. rw (same e.1) (and_swap (p e) (expired e.1) (ltb (time e.1) t)))
      ∙ sym (count-keep q (λ (e : ℕ × A). expired e.1) table)
      ∙ sym (count-order_by q time (keep (λ (e : ℕ × A). expired e.1) table))

  count-left :
      (size : ℕ) (table : List (ℕ × A))
      → count old_row (delete_rows (list_expired expired time size table) table)
        ≤ count (is_old time t) (drop size (sorted table))
  unfolding list_expired delete_rows
  count-left size table =
      let rows = take size (sorted table) in
      let more = drop size (sorted table) in
      let stays : ℕ × A → Bool = λ e. not (is_one_of rows e.0) in
      let p : ℕ × A → Bool = λ e. stays e && is_old time t e in
      omega (
        arith,
        count-keep old_row stays table,
        count-sorted stays table,
        count-split p size (sorted table),
        count-gone (is_old time t) rows rows (All-one_of rows),
        count-implies p (is_old time t) more (λ e h. and_second (stays e) (is_old time t e) h),
      )

  count-all : (table : List (ℕ × A)) → count old_row table ≡ count (is_old time t) (sorted table)
  count-all table = count-sorted (λ e. true) table

  module _ {B : Type 0} (convert : A → B) (size : ℕ) (s : Store A B) where
    abbrev listed : List (ℕ × A)
    listed = list_expired expired time size s.live

    abbrev batch : Option ℕ × Store A B
    batch = archive_rows convert answered listed s

    archive_rows-live :
        (rows : List (ℕ × A))
        → ((archive_rows convert answered rows s).0 ≡ some (length rows))
          × ((archive_rows convert answered rows s).1.live ≡ delete_rows rows s.live)
    unfolding archive_rows
    archive_rows-live [] = (refl, sym (delete_rows-nothing s.live))
    archive_rows-live (e ∷ es) = (refl, refl)

    -- A batch that is answered says how many rows it has taken; these are as many of the old ones as it
    -- may take, and all where it has taken fewer than that.
    pub batch-count :
        (batch.0 ≡ some (length listed))
        × (count old_row batch.1.live ≤ count old_row s.live - size)
        × (length listed < size → count old_row batch.1.live ≡ 0)
    unfolding list_expired
    batch-count =
        let ran = archive_rows-live listed in
        let left = count-left size s.live in
        let all = count-all s.live in
        let few =
          count-drop (is_old time t) size (sorted s.live)
            (order_by-IsFirst time t (keep (λ (e : ℕ × A). expired e.1) s.live)) in
        (
          ran.0,
          rw ran.1 (omega (arith, left, all, few)),
          λ short. rw ran.1 (
              let none_more = drop-short size (sorted s.live) short in
              omega (arith, rw none_more at left)),
        )
