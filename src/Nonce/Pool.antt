-- ===== src/Nonce/Pool.antt =====
-- The pool of returned sequence numbers in services/nonceManager.ts.
use quipay_backend.Prelude.{
  ℕ, ◌<◌, sym, ap, ◌∙◌, ◌+◌, ◌≤◌, ◌≡◌, refl, ◌≢◌, ◌⊎◌, inl, inr, some, List, [], ◌∷◌, ◌++◌, leb,
  if◌then◌else◌, true, false, ◌==◌, nat_eq, any, arith, All, eqb, Bool-cases,
}
use quipay_backend.Nonce.{
  NonceManager, Answer, Outcome, ok, thrown, take_lowest, issue, get_nonce, sort, insert_sorted,
}

-- How often a number stands in a list.
abbrev pub count : ℕ → List ℕ → ℕ
count a [] = 0
count a (x ∷ xs) = (if eqb x a then 1 else 0) + count a xs

pub count-append :
    (nonce : ℕ) (pool more : List ℕ)
    → count nonce pool + count nonce more ≡ count nonce (pool ++ more)
count-append nonce [] more = omega arith
count-append nonce (first ∷ pool) more = omega (arith, count-append nonce pool more)

count-insert_sorted : (a x : ℕ) (ys : List ℕ) → count a (insert_sorted x ys) ≡ count a (x ∷ ys)
unfolding insert_sorted
count-insert_sorted a x [] = refl
count-insert_sorted a x (y ∷ ys) = ground (arith, count-insert_sorted a x ys)

pub count-sort : (a : ℕ) (xs : List ℕ) → count a (sort xs) ≡ count a xs
unfolding sort
count-sort a [] = refl
count-sort a (x ∷ xs) = ground (arith, count-insert_sorted a x (sort xs), count-sort a xs)

-- `includes` finds what is counted.
pub any-count : (a : ℕ) (xs : List ℕ) → any (λ n. n == a) xs ≡ false → count a xs ≡ 0
any-count a [] h = refl
any-count a (x ∷ xs) h = ground (arith, any-count a xs)

pub any-count_pos : (a : ℕ) (xs : List ℕ) → any (λ n. n == a) xs ≡ true → 0 < count a xs
any-count_pos a [] h = ground arith
any-count_pos a (x ∷ xs) h = ground (arith, any-count_pos a xs)

All-le_trans : (x y : ℕ) (ys : List ℕ) → x ≤ y → All (λ z. y ≤ z) ys → All (λ z. x ≤ z) ys
All-le_trans x y [] h k = tt
All-le_trans x y (z ∷ ys) h (p, k) = (omega arith, All-le_trans x y ys h k)

-- The head is a lower bound.
abbrev HeadLe : List ℕ → Type 0
HeadLe [] = Unit
HeadLe (x ∷ xs) = All (λ y. x ≤ y) xs × HeadLe xs

All-insert_sorted :
    (P : ℕ → Type 0) (x : ℕ) (ys : List ℕ) → P x → All P ys → All P (insert_sorted x ys)
unfolding insert_sorted
All-insert_sorted P x [] p h = (p, tt)
All-insert_sorted P x (y ∷ ys) p (q, h) = elim (Bool-cases (leb x y)) [
  | inl e ↦ rw e (p, (q, h))
  | inr e ↦ rw e (q, All-insert_sorted P x ys p h)
]

HeadLe-insert_sorted : (x : ℕ) (ys : List ℕ) → HeadLe ys → HeadLe (insert_sorted x ys)
unfolding insert_sorted
HeadLe-insert_sorted x [] h = (tt, tt)
HeadLe-insert_sorted x (y ∷ ys) (p, h) = elim (Bool-cases (leb x y)) [
  | inl e ↦ rw e ((ground arith, All-le_trans x y ys (ground arith) p), (p, h))
  | inr e ↦ rw e (All-insert_sorted (λ z. y ≤ z) x ys (ground arith) p, HeadLe-insert_sorted x ys h)
]

HeadLe-sort : (xs : List ℕ) → HeadLe (sort xs)
unfolding sort
HeadLe-sort [] = tt
HeadLe-sort (x ∷ xs) = HeadLe-insert_sorted x (sort xs) (HeadLe-sort xs)

-- What is counted is bounded by a bound of the list.
le_of_count : (n x : ℕ) (ys : List ℕ) → All (λ y. n ≤ y) ys → 0 < count x ys → n ≤ x
le_of_count n x [] h c = absurd (omega arith)
le_of_count n x (y ∷ ys) (p, h) c = ground (arith, le_of_count n x ys h)

-- The number given out is the pool's lowest or the sequence's next.
abbrev pub Issues : NonceManager → ℕ → NonceManager × Outcome ℕ → Type 0
Issues m current (m', thrown message) = ⊥
Issues m current (m', ok n) =
    ((m.available_nonces ≢ [])
      × ((x : ℕ) → 0 < count x m.available_nonces → n ≤ x)
      × ((x : ℕ)
          → count x m'.available_nonces + (if eqb n x then 1 else 0) ≡ count x m.available_nonces)
      × (m'.current_sequence ≡ some current))
    ⊎ ((m.available_nonces ≡ [])
        × (n ≡ current + 1)
        × (m'.available_nonces ≡ [])
        × (m'.current_sequence ≡ some (current + 1)))

sort-eq-nil : (xs : List ℕ) → sort xs ≡ [] → xs ≡ []
sort-eq-nil [] h = refl
sort-eq-nil (x ∷ xs) h = absurd (ground (arith, count-sort x (x ∷ xs), ap (count x) h))

take_lowest-Issues :
    (m : NonceManager) (current : ℕ) (ys : List ℕ)
    → m.current_sequence ≡ some current
    → sort m.available_nonces ≡ ys
    → Issues m current (take_lowest m current ys)
unfolding take_lowest sort
take_lowest-Issues m current [] e s = inr (sort-eq-nil _ s, refl, sort-eq-nil _ s, refl)
take_lowest-Issues m current (n ∷ rest) e s =
    let bound : HeadLe (n ∷ rest) = rw s at (HeadLe-sort m.available_nonces) in
    let same = λ (x : ℕ). (ap (count x) (sym s) ∙ count-sort x m.available_nonces) in
    inl (
      (λ empty. ground (arith, empty, s)),
      (λ x c. ground (arith, le_of_count n x rest bound.0, same x, c)),
      (λ x. ground (arith, same x)),
      e,
    )

-- While there is a sequence, `getNonce` gives out the lowest number of the pool, one occurrence of
-- which leaves the pool, and the sequence stays; if the pool is empty it gives out the next number
-- of the sequence, and the pool stays empty. It does not throw, and does not look at the network.
pub get_nonce-Issues :
    (m : NonceManager) (answer : Answer) (current : ℕ)
    → m.current_sequence ≡ some current
    → Issues m current (get_nonce m answer)
unfolding get_nonce issue
get_nonce-Issues m answer current e =
    rw (e, get_nonce) (take_lowest-Issues m current (sort m.available_nonces) e refl)
