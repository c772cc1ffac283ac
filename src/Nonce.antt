-- ===== src/Nonce.antt =====
-- services/nonceManager.ts: sequence numbers for the transactions of one Stellar account.
-- A `bigint` sequence is a natural number (Horizon's are not negative), and its decimal text, in
-- which `getNonce` and `releaseNonce` pass it, is the number. The answer of `server.loadAccount`
-- (or of the timeout that races it) is an argument of the operation that asks for it. The
-- `PQueue` of concurrency 1 makes each operation one step.
pub mod Pool
pub mod Ownership
mod Tests
use quipay_backend.Prelude.{
  ℕ, ◌+◌, String, Option, none, some, List, [], ◌∷◌, leb, if◌then◌else◌, Bool, true, false, ◌==◌,
  nat_eq, any, ◌++◌,
}

pub record NonceManager : Type 0 where
  pub current_sequence : Option ℕ
  pub available_nonces : List ℕ
  pub is_initialized : Bool
  pub initialization_error : Option String

-- What `loadAccount` gives before the timeout: the account's sequence, or an error's message.
pub data Answer : Type 0 where
  account : ℕ → Answer
  failed : String → Answer

-- What an operation gives its caller.
pub data Outcome (A : Type 0) : Type 0 where
  ok : A → Outcome A
  thrown : String → Outcome A

pub new_manager : NonceManager
new_manager = record {
  current_sequence = none;
  available_nonces = [];
  is_initialized = false;
  initialization_error = none;
}

-- `initialize`, and `initializeQueueFree`, whose body is the same but for the length of the timeout.
unfoldable pub initialize : NonceManager → Answer → NonceManager × Outcome (Unit {0})
initialize m (account sequence) = (
  record {
    current_sequence = some sequence;
    available_nonces = [];
    is_initialized = true;
    initialization_error = none;
  },
  ok tt,
)
initialize m (failed message) =
    (record m { initialization_error = some message; is_initialized = false }, thrown message)

-- `availableNonces.sort(…)`, ascending.
pub insert_sorted : ℕ → List ℕ → List ℕ
insert_sorted x [] = x ∷ []
insert_sorted x (y ∷ ys) = if leb x y then x ∷ y ∷ ys else y ∷ insert_sorted x ys

pub sort : List ℕ → List ℕ
sort [] = []
sort (x ∷ xs) = insert_sorted x (sort xs)

-- The part of `getNonce` behind the lazy initialization: `shift` of the sorted pool, or the next
-- number of the main sequence.
take_lowest : NonceManager → ℕ → List ℕ → NonceManager × Outcome ℕ
take_lowest m current [] = (record m { current_sequence = some (current + 1) }, ok (current + 1))
take_lowest m current (lowest ∷ rest) = (record m { available_nonces = rest }, ok lowest)

issue : NonceManager → Option ℕ → NonceManager × Outcome ℕ
issue m none = (m, thrown "not initialized")
issue m (some current) = take_lowest m current (sort m.available_nonces)

-- After a failed lazy initialization the error is thrown on.
after_init : NonceManager × Outcome (Unit {0}) → NonceManager × Outcome ℕ
after_init (m, ok _) = issue m m.current_sequence
after_init (m, thrown message) = (m, thrown message)

unfoldable pub get_nonce : NonceManager → Answer → NonceManager × Outcome ℕ
unfolding after_init issue take_lowest initialize
get_nonce m answer = elim m.current_sequence [
  | none ↦ after_init (initialize m answer)
  | some current ↦ issue m (some current)
]

-- A nonce that is in the pool already is not put there again.
unfoldable pub release_nonce : NonceManager → ℕ → NonceManager
release_nonce m nonce =
    if any (λ n. n == nonce) m.available_nonces
    then m
    else record m { available_nonces = m.available_nonces ++ nonce ∷ [] }

pub is_healthy : NonceManager → Bool
is_healthy m = elim m.initialization_error [ none ↦ m.is_initialized | some _ ↦ false ]
