-- ===== src/Monitor/Employers.antt =====
-- Which employers monitor/monitor.ts looks at.
use mathlib.Core.Path.{subst}
use quipay_backend.Prelude.{
  String, ◌≡◌, refl, sym, ap, ◌∙◌, inl, inr, Bool, true, false, ◌&&◌, ◌||◌, Option, some, List, [],
  ◌∷◌, ◌++◌, map, arith, eq_iff, Option-cases, if-split, ◌==◌, nat_eq, string_eq, any, All,
}
use quipay_backend.Int.{ℤ}
use quipay_backend.Map
use quipay_backend.Streams.{StreamRow, Treasury}
use quipay_backend.Monitor.Statuses.{
  Database, EmployerTreasuryStatus, is_active, get_active_liabilities, contains, add_keys, map_of,
  all_employers, sum_by_employer, statuses_of, status_with, runway_of,
}
use quipay_backend.Monitor.Rates.{Clock, calculate_exhaustion_date}

abbrev has_key : List (String × ℤ) → String → Bool
has_key m k = any (λ (e : String × ℤ). e.0 == k) m

or_same : (a b c : Bool) → (a || (b || c)) ≡ (b || (a || c))
or_same true true c = refl
or_same true false c = refl
or_same false b c = refl

-- Whoever has a treasury or an active stream.
abbrev pub is_known : Database → String → Bool
is_known db e =
    any (λ (row : String × Treasury). row.0 == e) db.treasury
    || any (λ (s : StreamRow). is_active s.status && s.employer_address == e) db.streams

has_key-insert :
    (k j : String) (v : ℤ) (m : List (String × ℤ))
    → has_key (Map.insert k v m) j ≡ (k == j || has_key m j)
unfolding Map.insert
has_key-insert k j v [] = refl
has_key-insert k j v ((i, u) ∷ m) =
    ground (arith, eq_iff i k, eq_iff i j, eq_iff k j, has_key-insert k j v m)

has_key-map_of :
    (rows m : List (String × ℤ)) (j : String)
    → has_key (map_of rows m) j ≡ (has_key rows j || has_key m j)
has_key-map_of [] m j = refl
has_key-map_of ((k, v) ∷ rows) m j =
    ground (arith, has_key-map_of rows (Map.insert k v m) j, has_key-insert k j v m)

contains-append :
    (ks : List String) (k j : String) → contains (ks ++ k ∷ []) j ≡ (contains ks j || k == j)
contains-append [] k j = ground arith
contains-append (i ∷ ks) k j = ground (arith, contains-append ks k j)

contains-add_keys :
    (rows : List (String × ℤ)) (ks : List String) (j : String)
    → contains (add_keys rows ks) j ≡ (contains ks j || has_key rows j)
contains-add_keys [] ks j = ground arith
contains-add_keys ((k, v) ∷ rows) ks j = ground (
  arith,
  eq_iff k j,
  contains-append ks k j,
  contains-add_keys rows ks j,
  contains-add_keys rows (ks ++ k ∷ []) j,
)

has_key-sum_by_employer :
    (ss : List StreamRow) (j : String)
    → has_key (sum_by_employer ss) j
      ≡ any (λ (s : StreamRow). is_active s.status && s.employer_address == j) ss
has_key-sum_by_employer [] j = refl
has_key-sum_by_employer (s ∷ ss) j =
    let rest = has_key-sum_by_employer ss j in
    if-split
      (λ m.
        has_key m j
        ≡ any (λ (r : StreamRow). is_active r.status && r.employer_address == j) (s ∷ ss))
      (is_active s.status)
      (λ on. rw on (
        has_key-insert s.employer_address j _ (sum_by_employer ss)
        ∙ ap (λ b. s.employer_address == j || b) rest))
      (λ off. rw off rest)

has_key-treasury :
    (rows : List (String × Treasury)) (j : String)
    → has_key (map (λ (row : String × Treasury). (row.0, row.1.balance)) rows) j
      ≡ any (λ (row : String × Treasury). row.0 == j) rows
has_key-treasury [] j = refl
has_key-treasury (row ∷ rows) j = ap (λ b. row.0 == j || b) (has_key-treasury rows j)

pub contains-all_employers :
    (db : Database) (j : String) → contains (all_employers db) j ≡ is_known db j
unfolding all_employers get_active_liabilities
contains-all_employers db j =
    let treasury : List (String × ℤ) =
      map (λ (row : String × Treasury). (row.0, row.1.balance)) db.treasury in
    let due : List (String × ℤ) = sum_by_employer db.streams in
    ground (
      arith,
      contains-add_keys (map_of due []) (add_keys (map_of treasury []) []) j,
      contains-add_keys (map_of treasury []) [] j,
      has_key-map_of due [] j,
      has_key-map_of treasury [] j,
      has_key-treasury db.treasury j,
      has_key-sum_by_employer db.streams j,
    )

-- The computed statuses: one for each employer, in their order.
abbrev pub AreOf : Clock → Database → List String → List EmployerTreasuryStatus → Type 0
AreOf clock db [] [] = Unit
AreOf clock db (e ∷ es) (s ∷ ss) =
    ((date : Option ℤ) × (status_with clock db e date ≡ s)) × AreOf clock db es ss
AreOf clock db _ _ = ⊥

pub statuses_of-AreOf :
    (clock : Clock) (db : Database) (es : List String) (ss : List EmployerTreasuryStatus)
    → statuses_of clock db es ≡ some ss
    → AreOf clock db es ss
unfolding statuses_of
statuses_of-AreOf clock db [] [] h = tt
statuses_of-AreOf clock db [] (s ∷ ss) h = absurd (cc h)
statuses_of-AreOf clock db (e ∷ es) ss h =
    elim (Option-cases (calculate_exhaustion_date clock (runway_of clock db e))) [
      | inl thrown ↦ absurd (cc (rw thrown at h))
      | inr (date, there) ↦ elim (Option-cases (statuses_of clock db es)) [
        | inl failed ↦ absurd (cc (rw (there, failed) at h))
        | inr (rest, done) ↦
            let all = rw (there, done) at h in
            let same : (status_with clock db e date ∷ rest) ≡ ss = cc in
            subst (AreOf clock db (e ∷ es)) same
              ((date, refl), statuses_of-AreOf clock db es rest done)
      ]
    ]

pub AreOf-employers :
    (clock : Clock) (db : Database) (es : List String) (ss : List EmployerTreasuryStatus)
    → AreOf clock db es ss
    → map (λ (s : EmployerTreasuryStatus). s.employer) ss ≡ es
AreOf-employers clock db [] [] h = refl
AreOf-employers clock db [] (s ∷ ss) h = absurd h
AreOf-employers clock db (e ∷ es) [] h = absurd h
AreOf-employers clock db (e ∷ es) (s ∷ ss) h =
    rw
      (
        sym (ap (λ (x : EmployerTreasuryStatus). x.employer) h.0.1),
        AreOf-employers clock db es ss h.1,
      )
      refl

-- The exhaustion date of an employer is a valid date, or `null`.
abbrev pub IsDated : Clock → Database → String → Type 0
IsDated clock db e =
    (date : Option ℤ) × (calculate_exhaustion_date clock (runway_of clock db e) ≡ some date)

pub statuses_of-returns :
    (clock : Clock) (db : Database) (es : List String)
    → All (IsDated clock db) es
    → (ss : List EmployerTreasuryStatus) × (statuses_of clock db es ≡ some ss)
unfolding statuses_of
statuses_of-returns clock db [] h = ([], refl)
statuses_of-returns clock db (e ∷ es) h =
    let rest = statuses_of-returns clock db es h.1 in
    (status_with clock db e h.0.0 ∷ rest.0, rw (h.0.1, rest.1) refl)
