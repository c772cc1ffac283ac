-- ===== src/Wallets.antt =====
-- services/walletVerification.ts: proving that a wallet belongs to a worker. The signature checks of
-- the Stellar SDK, WebCrypto and viem are a parameter; so are random bytes and the clock.
pub mod Single
pub mod Proved
pub mod Challenges
mod Tests
use quipay_backend.Prelude.{
  ℕ, zero, suc, ◌+◌, ◌-◌, ◌*◌, ◌/◌, ◌%◌, ◌^◌, ◌≤◌, ◌<◌, max, min, String, ◌≡◌, refl, sym, ap, ◌∙◌,
  ◌≢◌, ◌↔◌, ◌⊎◌, inl, inr, Bool, true, false, not, ◌&&◌, ◌||◌, Option, none, some, List, [], ◌∷◌,
  ◌++◌, map, arith, eq_iff, ltb, leb, eqb, if◌then◌else◌, lt→ltb, le→leb, eqb_iff, Bool-cases,
  Option-cases, or_else, if-both, if-split, if-true, if-false, Key, ◌==◌, nat_eq, string_eq,
  ==_refl, length, get_elem?, take, drop, keep, any, find, length-append, length-drop, length-take,
  take-append-drop, All, All-append, All-drop,
}
use Prim.Native.String
use quipay_backend.Map

pub data Chain : Type 0 where
  stellar evm : Chain

abbrev pub same_chain : Chain → Chain → Bool
same_chain stellar stellar = true
same_chain evm evm = true
same_chain _ _ = false

-- A row of `wallet_challenges`.
pub record Challenge : Type 0 where
  pub id : ℕ
  pub address : String
  pub chain : Chain
  pub nonce : String
  pub privy_id : String
  pub expires_at : ℕ
  pub created_at : ℕ

-- The columns of `workers` that the code reads and writes; `verified` may be NULL.
pub record Wallet : Type 0 where
  pub address : Option String
  pub verified : Option Bool

pub record Worker : Type 0 where
  pub wallet_stellar : Wallet
  pub wallet_base : Wallet

-- The two tables, where the pool is there; `ids` is the sequence of the challenges' ids.
pub record Store : Type 0 where
  pub challenges : List Challenge
  pub ids : ℕ
  pub workers : List (String × Worker)

-- The Ed25519 check of a text under a Stellar address, `none` where a step throws; the EVM address
-- that a signature recovers to, `none` where that throws; and `toLowerCase`.
pub record Crypto : Type 0 where
  pub ed25519_verify : String → String → String → Option Bool
  pub recover_message_address : String → String → Option String
  pub lower_case : String → String

abbrev pub challenge_ttl_ms : ℕ
challenge_ttl_ms = 5 * 60 * 1000

abbrev pub challenge_text : String → String
challenge_text nonce = String.◌++◌ "quipay-verify:" nonce

pub is_for : String → Chain → Challenge → Bool
is_for address chain row = row.address == address && same_chain row.chain chain

-- The row that `createChallenge` inserts.
abbrev pub new_challenge : ℕ → String → Chain → String → String → ℕ → Challenge
new_challenge id address chain privy_id nonce now = record {
  id = id;
  address = address;
  chain = chain;
  nonce = nonce;
  privy_id = privy_id;
  expires_at = now + challenge_ttl_ms;
  created_at = now;
}

-- `createChallenge` with the random nonce and the time.
pub create_challenge : String → Chain → String → String → ℕ → Store → (String × ℕ) × Store
unfolding is_for
create_challenge address chain privy_id nonce now s = (
  (challenge_text nonce, now + challenge_ttl_ms),
  record s {
    ids = suc s.ids;
    challenges =
        keep (λ (row : Challenge). not (is_for address chain row)) s.challenges
        ++ (new_challenge s.ids address chain privy_id nonce now ∷ []);
  },
)

pub verify_stellar_signature : Crypto → String → String → String → Bool
verify_stellar_signature crypto address challenge signature =
    or_else (crypto.ed25519_verify address challenge signature) false

pub verify_evm_signature : Crypto → String → String → String → Bool
verify_evm_signature crypto address challenge signature =
    elim (crypto.recover_message_address challenge signature) [
      | none ↦ false
      | some recovered ↦ crypto.lower_case recovered == crypto.lower_case address
    ]

pub verify_signature : Crypto → Chain → String → String → String → Bool
unfolding verify_stellar_signature verify_evm_signature
verify_signature crypto stellar address challenge signature =
    verify_stellar_signature crypto address challenge signature
verify_signature crypto evm address challenge signature =
    verify_evm_signature crypto address challenge signature

-- `VerifyResult`, with a constructor for each error text.
pub data VerifyResult : Type 0 where
  success no_pending expired mismatch invalid_signature : VerifyResult

-- The row with the greatest `created_at`.
abbrev pub newest : List Challenge → Option Challenge
newest [] = none
newest (row ∷ rows) = elim (newest rows) [
  | none ↦ some row
  | some other ↦ if ltb row.created_at other.created_at then some other else some row
]

pub is_pending_for : String → Chain → String → Challenge → Bool
unfolding is_for
is_pending_for address chain privy_id row = is_for address chain row && row.privy_id == privy_id

pub delete_challenge : ℕ → Store → Store
delete_challenge id s = record s {
  challenges = keep (λ (row : Challenge). not (row.id == id)) s.challenges;
}

-- `verified = TRUE`, and the address where the column has none.
abbrev link : String → Wallet → Wallet
link address wallet = record {
  address = some (or_else wallet.address address);
  verified = some true;
}

abbrev pub link_on : Chain → String → Worker → Worker
link_on stellar address worker = record worker {
  wallet_stellar = link address worker.wallet_stellar;
}
link_on evm address worker = record worker { wallet_base = link address worker.wallet_base }

-- What the SELECT of `verifyAndLink` finds: `ORDER BY created_at DESC LIMIT 1`.
abbrev pub select_challenge : String → Chain → String → Store → Option Challenge
select_challenge address chain privy_id s =
    newest (keep (is_pending_for address chain privy_id) s.challenges)

-- The rest of `verifyAndLink`, from the challenge that its SELECT has found. The queries are statements
-- of the pool and no transaction: the store here may be a later one than that of the SELECT.
pub verify_stored :
    Crypto
    → String
    → Chain
    → String
    → String
    → String
    → ℕ
    → Store
    → Option Challenge
    → VerifyResult × Store
unfolding verify_signature delete_challenge
verify_stored crypto address chain challenge signature privy_id now s none = (no_pending, s)
verify_stored crypto address chain challenge signature privy_id now s (some stored) =
    if ltb stored.expires_at now
    then (expired, delete_challenge stored.id s)
    else if not (challenge == challenge_text stored.nonce)
    then (mismatch, s)
    else if not (verify_signature crypto chain address challenge signature)
    then (invalid_signature, s)
    else (
      success,
      delete_challenge stored.id
          (record s { workers = Map.adjust privy_id (link_on chain address) s.workers }),
    )

-- A call of `verifyAndLink` during which no other statement runs.
pub verify_and_link :
    Crypto → String → Chain → String → String → String → ℕ → Store → VerifyResult × Store
unfolding verify_stored is_pending_for
verify_and_link crypto address chain challenge signature privy_id now s =
    verify_stored crypto address chain challenge signature privy_id now s
      (select_challenge address chain privy_id s)

abbrev status_of : Option Worker → Bool × Bool
status_of none = (false, false)
status_of (some worker) =
    (or_else worker.wallet_stellar.verified false, or_else worker.wallet_base.verified false)

pub get_wallet_verification_status : String → Store → Bool × Bool
get_wallet_verification_status privy_id s = status_of (Map.lookup privy_id s.workers)

pub cleanup_expired_challenges : ℕ → Store → ℕ × Store
cleanup_expired_challenges now s =
    let left = keep (λ (row : Challenge). not (ltb row.expires_at now)) s.challenges in
    (length s.challenges - length left, record s { challenges = left })
