-- ===== src/Nonce/Ownership.antt =====
-- Who has each sequence number: services/nonceManager.ts with the callers that it serves.
use quipay_backend.Prelude.{
  ℕ, ◌+◌, ◌≤◌, ◌≡◌, refl, ap, ◌∙◌, inl, inr, none, some, List, [], ◌∷◌, leb, ltb, if◌then◌else◌,
  true, ◌&&◌, ◌==◌, nat_eq, any, arith, eqb, Bool-cases,
}
use quipay_backend.Nonce.{
  NonceManager, Answer, account, failed, Outcome, ok, thrown, new_manager, get_nonce, release_nonce,
  sort,
}
use quipay_backend.Nonce.Pool.{
  count, count-append, any-count, any-count_pos, Issues, get_nonce-Issues,
}

-- `held` are the nonces that callers have, `used` those of submitted transactions.
pub record World : Type 0 where
  pub manager : NonceManager
  pub held : List ℕ
  pub used : List ℕ

pub data Call : Type 0 where
  gets : Answer → Call
  releases uses : ℕ → Call

-- The first occurrence is taken out.
abbrev pub remove : ℕ → List ℕ → List ℕ
remove n [] = []
remove n (x ∷ xs) = if x == n then xs else x ∷ remove n xs

pub receive : World → NonceManager × Outcome ℕ → World
receive w (m, ok n) = record w { manager = m; held = n ∷ w.held }
receive w (m, thrown message) = record w { manager = m }

-- A caller releases or uses only what it has.
pub step : World → Call → World
step w (gets answer) = receive w (get_nonce w.manager answer)
step w (releases n) =
    if any (λ x. x == n) w.held
    then record w { manager = release_nonce w.manager n; held = remove n w.held }
    else w
step w (uses n) =
    if any (λ x. x == n) w.held then record w { held = remove n w.held; used = n ∷ w.used } else w

pub run : World → List Call → World
run w [] = w
run w (c ∷ cs) = run (step w c) cs

pub start : World
start = record { manager = new_manager; held = []; used = [] }

abbrev pub total : ℕ → World → ℕ
total x w = count x w.held + count x w.manager.available_nonces + count x w.used

-- Each number above the account's sequence and up to the current one stands in exactly one place:
-- with a caller, in the pool, or in a submitted transaction. No other number stands anywhere.
pub data Inv (w : World) : Type 0 where
  fresh : w.manager.current_sequence ≡ none → ((x : ℕ) → total x w ≡ 0) → Inv w
  live :
      (base current : ℕ)
      → w.manager.current_sequence ≡ some current
      → base ≤ current
      → ((x : ℕ) → total x w ≡ (if ltb base x && leb x current then 1 else 0))
      → Inv w

count-remove :
    (a n : ℕ) (xs : List ℕ)
    → any (λ x. x == n) xs ≡ true
    → count a (remove n xs) + (if eqb n a then 1 else 0) ≡ count a xs
count-remove a n [] h = ground arith
count-remove a n (x ∷ xs) h = ground (arith, count-remove a n xs)

-- Releasing a held nonce moves it to the pool: it is not there already.
total-release_nonce :
    (x n : ℕ) (w : World)
    → total n w ≤ 1
    → any (λ y. y == n) w.held ≡ true
    → count x (remove n w.held) + count x (release_nonce w.manager n).available_nonces
      ≡ count x w.held + count x w.manager.available_nonces
unfolding release_nonce
total-release_nonce x n w once h = ground (
  arith,
  count-remove x n w.held h,
  count-remove n n w.held h,
  count-append x w.manager.available_nonces (n ∷ []),
  any-count n w.manager.available_nonces,
  any-count_pos n w.manager.available_nonces,
)

total-le-one : (x : ℕ) (w : World) → Inv w → total x w ≤ 1
total-le-one x w (fresh e z) = omega (arith, z x)
total-le-one x w (live base current e h z) = ground (arith, z x)

-- The invariant looks at the sequence and at the totals alone.
Inv-total :
    (w v : World)
    → v.manager.current_sequence ≡ w.manager.current_sequence
    → ((x : ℕ) → total x v ≡ total x w)
    → Inv w
    → Inv v
Inv-total w v e same (fresh c z) = fresh (e ∙ c) (λ x. same x ∙ z x)
Inv-total w v e same (live base current c h z) = live base current (e ∙ c) h (λ x. same x ∙ z x)

release_nonce-sequence :
    (m : NonceManager) (n : ℕ) → (release_nonce m n).current_sequence ≡ m.current_sequence
unfolding release_nonce
release_nonce-sequence m n = ground arith

-- A caller's number goes back to the pool.
releases-Inv : (w : World) (n : ℕ) → Inv w → Inv (step w (releases n))
unfolding step
releases-Inv w n v = elim (Bool-cases (any (λ x. x == n) w.held)) [
  | inl h ↦ rw h (
      Inv-total w _ (release_nonce-sequence w.manager n)
        (λ x. omega (arith, total-release_nonce x n w (total-le-one n w v) h)) v)
  | inr h ↦ rw h v
]

-- A caller's number becomes that of a transaction.
uses-Inv : (w : World) (n : ℕ) → Inv w → Inv (step w (uses n))
unfolding step
uses-Inv w n v = elim (Bool-cases (any (λ x. x == n) w.held)) [
  | inl h ↦ rw h (Inv-total w _ refl (λ x. ground (arith, count-remove x n w.held h)) v)
  | inr h ↦ rw h v
]

receive-Inv :
    (w : World) (base current : ℕ) (r : NonceManager × Outcome ℕ)
    → base ≤ current
    → ((x : ℕ) → total x w ≡ (if ltb base x && leb x current then 1 else 0))
    → Issues w.manager current r
    → Inv (receive w r)
unfolding receive
receive-Inv w base current (m, thrown message) h z i = absurd i
receive-Inv w base current (m, ok n) h z (inl (some_pool, lowest, taken, e)) =
    live base current e h (λ x. omega (arith, z x, taken x))
receive-Inv w base current (m, ok n) h z (inr (no_pool, next, still, e)) =
    live base (current + 1) e (omega arith)
      (λ x. ground (arith, z x, ap (count x) no_pool, ap (count x) still, next))

-- The first `getNonce` initializes the manager, or throws.
first_get-Inv :
    (w : World) (answer : Answer)
    → w.manager.current_sequence ≡ none
    → ((x : ℕ) → total x w ≡ 0)
    → Inv (receive w (get_nonce w.manager answer))
unfolding get_nonce receive sort
first_get-Inv w (account sequence) e z =
    rw (e, get_nonce) (live sequence (sequence + 1) refl (omega arith) (λ x. ground (arith, z x)))
first_get-Inv w (failed message) e z = rw (e, get_nonce) (fresh e z)

gets-Inv : (w : World) (answer : Answer) → Inv w → Inv (step w (gets answer))
unfolding step
gets-Inv w answer (fresh e z) = first_get-Inv w answer e z
gets-Inv w answer (live base current e h z) =
    receive-Inv w base current _ h z (get_nonce-Issues w.manager answer current e)

pub step-Inv : (w : World) (c : Call) → Inv w → Inv (step w c)
step-Inv w (gets answer) v = gets-Inv w answer v
step-Inv w (releases n) v = releases-Inv w n v
step-Inv w (uses n) v = uses-Inv w n v

run-Inv : (w : World) (cs : List Call) → Inv w → Inv (run w cs)
unfolding run
run-Inv w [] v = v
run-Inv w (c ∷ cs) v = run-Inv (step w c) cs (step-Inv w c v)

start-Inv : Inv start
unfolding start new_manager
start-Inv = fresh refl (λ x. refl)

-- After any calls, in any order and with any answers of the network, from a new manager whose
-- callers release or use only what they hold: before the first answer no number is out; from then
-- on each number above the account's sequence and up to the current one stands in exactly one
-- place, with a caller, in the pool or in a submitted transaction, and no other number stands
-- anywhere. So no number is given out twice, and none is lost.
pub run-start-Inv : (cs : List Call) → Inv (run start cs)
run-start-Inv cs = run-Inv start cs start-Inv
