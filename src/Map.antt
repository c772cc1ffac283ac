-- ===== src/Map.antt =====
-- A JavaScript `Map` as an association list: `get`, `set` and `delete` with `===` on the keys.
use mathlib.Core.Option
use quipay_backend.Prelude.{
  sym, ap, inl, inr, Option-cases, Bool-cases, ◌≡◌, refl, Option, none, some, List, [], ◌∷◌, arith,
  Key, ◌==◌, if◌then◌else◌,
}

module _ {ℓ κ} {K : Type ℓ} {V : Type κ} ⦃e : Key K⦄ where
  unfoldable pub lookup : K → List (K × V) → Option V
  lookup key [] = none
  lookup key (entry ∷ rest) = if entry.0 == key then some entry.1 else lookup key rest

  -- `set` keeps the place of a key that is there, and appends a new one.
  unfoldable pub insert : K → V → List (K × V) → List (K × V)
  insert key value [] = (key, value) ∷ []
  insert key value (entry ∷ rest) =
      if entry.0 == key then (key, value) ∷ rest else entry ∷ insert key value rest

  unfoldable pub delete : K → List (K × V) → List (K × V)
  delete key [] = []
  delete key (entry ∷ rest) =
      let left = delete key rest in if entry.0 == key then left else entry ∷ left

  pub lookup-insert :
      (key other : K) (value : V) (entries : List (K × V))
      → lookup other (insert key value entries)
        ≡ (if key == other then some value else lookup other entries)
  unfolding lookup insert
  lookup-insert key other value [] = refl
  lookup-insert key other value ((i, w) ∷ rest) = ground (
    arith,
    e.test_iff key other,
    e.test_iff i key,
    e.test_iff i other,
    lookup-insert key other value rest,
  )

  pub lookup-delete :
      (key other : K) (entries : List (K × V))
      → lookup other (delete key entries) ≡ (if key == other then none else lookup other entries)
  unfolding lookup delete
  lookup-delete key other [] = ground arith
  lookup-delete key other ((i, w) ∷ rest) = ground (
    arith,
    e.test_iff key other,
    e.test_iff i key,
    e.test_iff i other,
    lookup-delete key other rest,
  )

  -- The entry of a key changed where it is there: SQL's `UPDATE … WHERE id = $1`.
  abbrev adjust_found : K → (V → V) → List (K × V) → Option V → List (K × V)
  adjust_found k f m none = m
  adjust_found k f m (some v) = insert k (f v) m

  unfoldable pub adjust : K → (V → V) → List (K × V) → List (K × V)
  adjust k f m = adjust_found k f m (lookup k m)

  pub lookup-adjust :
      (k j : K) (f : V → V) (m : List (K × V))
      → lookup j (adjust k f m) ≡ (if k == j then Option.map f (lookup j m) else lookup j m)
  unfolding adjust
  lookup-adjust k j f m = elim (Option-cases (lookup k m)) [
    | inl gone ↦ rw gone (elim (Bool-cases (k == j)) [
      | inl same ↦ rw same (rw (sym (ap (λ i. lookup i m) ((e.test_iff k j).0 same)), gone) refl)
      | inr differ ↦ rw differ refl
    ])
    | inr (v, found) ↦
        rw (found, lookup-insert k j (f v) m)
          (elim (Bool-cases (k == j)) [
            | inl same ↦
                rw same (rw (sym (ap (λ i. lookup i m) ((e.test_iff k j).0 same)), found) refl)
            | inr differ ↦ rw differ refl
          ])
  ]

  pub adjust-there :
      (k : K) (f : V → V) (m : List (K × V)) (v : V)
      → lookup k m ≡ some v
      → lookup k (adjust k f m) ≡ some (f v)
  adjust-there k f m v found = rw (lookup-adjust k k f m, (e.test_iff k k).1 refl, found) refl
