-- ===== src/Wallets/Single.antt =====
-- That services/walletVerification.ts keeps one challenge at most for an address on a chain.
use quipay_backend.Prelude.{
  ℕ, ◌+◌, ◌≤◌, String, ◌≡◌, refl, sym, ap, ◌∙◌, inl, inr, Bool, true, false, not, Option, none,
  some, List, [], ◌∷◌, ◌++◌, arith, ltb, if◌then◌else◌, eqb_iff, Bool-cases, if-both, if-false,
  ◌==◌, nat_eq, string_eq, length, keep,
}
use quipay_backend.Wallets.{
  new_challenge, same_chain, Chain, stellar, evm, Challenge, Worker, Store, Crypto, VerifyResult,
  challenge_text, is_for, is_pending_for, newest, create_challenge, verify_signature,
  delete_challenge, verify_stored, verify_and_link, cleanup_expired_challenges,
}

module _ {A : Type 0} where
  -- What a test keeps is shorter under a stronger test, or of a part of the list.
  pub length-keep_sub :
      (p q : A → Bool)
      → ((x : A) → q x ≡ true → p x ≡ true)
      → (xs : List A) → length (keep q xs) ≤ length (keep p xs)
  length-keep_sub p q sub [] = omega arith
  length-keep_sub p q sub (x ∷ xs) = ground (arith, sub x, length-keep_sub p q sub xs)

  length-keep-keep :
      (p q : A → Bool) (xs : List A) → length (keep p (keep q xs)) ≤ length (keep p xs)
  length-keep-keep p q [] = omega arith
  length-keep-keep p q (x ∷ xs) = ground (arith, length-keep-keep p q xs)

  length-keep_append :
      (p : A → Bool) (xs ys : List A)
      → length (keep p (xs ++ ys)) ≡ length (keep p xs) + length (keep p ys)
  length-keep_append p [] ys = omega arith
  length-keep_append p (x ∷ xs) ys = ground (arith, length-keep_append p xs ys)

  length-keep-not : (p : A → Bool) (xs : List A) → length (keep p (keep (λ x. not (p x)) xs)) ≡ 0
  length-keep-not p [] = refl
  length-keep-not p (x ∷ xs) = ground (arith, length-keep-not p xs)

  pub nil_of_length : (xs : List A) → length xs ≡ 0 → xs ≡ []
  nil_of_length [] h = refl
  nil_of_length (x ∷ xs) h = absurd (omega (arith, h))

-- The challenges of an address on a chain.
unfoldable pub open_challenges : String → Chain → Store → ℕ
open_challenges address chain s = length (keep (is_for address chain) s.challenges)

-- There is one challenge at most for an address on a chain.
unfoldable pub IsSingle : Store → Type 0
IsSingle s = (address : String) (chain : Chain) → open_challenges address chain s ≤ 1

pub for_of_pending :
    (address : String) (chain : Chain) (privy_id : String) (row : Challenge)
    → is_pending_for address chain privy_id row ≡ true
    → is_for address chain row ≡ true
unfolding is_pending_for
for_of_pending address chain privy_id row h = ground (arith, h)

newest_only :
    (b : Bool) (row stored : Challenge) (rows : List Challenge)
    → rows ≡ []
    → newest (if b then row ∷ rows else rows) ≡ some stored
    → row ≡ stored
newest_only true row stored rows nil h =
    let only : some row ≡ some stored = sym (ap (λ l. newest (row ∷ l)) nil) ∙ h in cc only
newest_only false row stored rows nil h =
    let nothing : none ≡ some stored = sym (ap newest nil) ∙ h in absurd (cc nothing)

-- Where one row at most is for an address and chain, taking out the row found takes out all.
pub spent :
    (address : String) (chain : Chain) (privy_id : String) (stored : Challenge)
    (rows : List Challenge)
    → length (keep (is_for address chain) rows) ≤ 1
    → newest (keep (is_pending_for address chain privy_id) rows) ≡ some stored
    → length
        (keep (is_for address chain) (keep (λ (row : Challenge). not (row.id == stored.id)) rows))
      ≡ 0
spent address chain privy_id stored [] few found = refl
spent address chain privy_id stored (row ∷ rows) few found =
    elim (Bool-cases (is_for address chain row)) [
      | inl mine ↦
          let alone : length (keep (is_for address chain) rows) ≡ 0 = ground (arith, few, mine) in
          let none_other = nil_of_length (keep (is_pending_for address chain privy_id) rows) (
            omega (
              arith,
              alone,
              length-keep_sub (is_for address chain) (is_pending_for address chain privy_id)
                  (for_of_pending address chain privy_id) rows,
            )) in
          let rest =
            length-keep-keep (is_for address chain) (λ (r : Challenge). not (r.id == stored.id))
              rows in
          let same = newest_only _ row stored _ none_other found in
          let gone = ap (λ (r : Challenge). r.id) same in
          ground (arith, eqb_iff row.id stored.id, gone, rest, alone)
      | inr other ↦
          let unpending : is_pending_for address chain privy_id row ≡ false =
            ground (arith, other, for_of_pending address chain privy_id row) in
          let later =
            spent address chain privy_id stored rows (ground (arith, few, other))
              (sym (ap newest (if-false _ _ unpending)) ∙ found) in
          ground (arith, other, later)
    ]

same_chain-eq : (c d : Chain) → same_chain c d ≡ true → c ≡ d
same_chain-eq stellar stellar h = refl
same_chain-eq evm evm h = refl
same_chain-eq stellar evm h = absurd (ground (arith, h))
same_chain-eq evm stellar h = absurd (ground (arith, h))

new_challenge-is_for :
    (id : ℕ) (a : String) (c : Chain) (privy_id nonce : String) (now : ℕ) (b : String) (d : Chain)
    → is_for b d (new_challenge id a c privy_id nonce now) ≡ true
    → (a ≡ b) × (c ≡ d)
unfolding is_for
new_challenge-is_for id a c privy_id nonce now b d h =
    ((string_eq.test_iff a b).0 (ground (arith, h)), same_chain-eq c d (ground (arith, h)))

left_for_new :
    (a b : String) (c d : Chain) (rows : List Challenge)
    → a ≡ b
    → c ≡ d
    → length (keep (is_for b d) (keep (λ (row : Challenge). not (is_for a c row)) rows)) ≡ 0
left_for_new a b c d rows same on = rw (same, on) (length-keep-not (is_for b d) rows)

pub create_challenge-IsSingle :
    (address : String) (chain : Chain) (privy_id nonce : String) (now : ℕ) (s : Store)
    → IsSingle s
    → IsSingle (create_challenge address chain privy_id nonce now s).1
unfolding IsSingle open_challenges create_challenge
create_challenge-IsSingle address chain privy_id nonce now s single b d =
    let row = new_challenge s.ids address chain privy_id nonce now in
    let others = keep (λ (r : Challenge). not (is_for address chain r)) s.challenges in
    let sum = length-keep_append (is_for b d) others (row ∷ []) in
    let fewer =
      length-keep-keep (is_for b d) (λ (r : Challenge). not (is_for address chain r))
        s.challenges in
    elim (Bool-cases (is_for b d row)) [
      | inl mine ↦
          let same = new_challenge-is_for s.ids address chain privy_id nonce now b d mine in
          let none_left = left_for_new address b chain d s.challenges same.0 same.1 in
          ground (arith, sum, none_left, mine)
      | inr other ↦ ground (arith, sum, fewer, single b d, other)
    ]

delete_challenge-IsSingle : (id : ℕ) (s : Store) → IsSingle s → IsSingle (delete_challenge id s)
unfolding IsSingle open_challenges delete_challenge
delete_challenge-IsSingle id s single b d = omega (
  arith,
  single b d,
  length-keep-keep (is_for b d) (λ (row : Challenge). not (row.id == id)) s.challenges,
)

workers-IsSingle :
    (s : Store) (workers : List (String × Worker))
    → IsSingle s
    → IsSingle (record s { workers = workers })
unfolding IsSingle open_challenges
workers-IsSingle s workers single = single

cleanup-IsSingle :
    (now : ℕ) (s : Store) → IsSingle s → IsSingle (cleanup_expired_challenges now s).1
unfolding IsSingle open_challenges cleanup_expired_challenges
cleanup-IsSingle now s single b d = omega (
  arith,
  single b d,
  length-keep-keep (is_for b d) (λ (row : Challenge). not (ltb row.expires_at now)) s.challenges,
)

verify_stored-IsSingle :
    (crypto : Crypto) (address : String) (chain : Chain) (challenge signature privy_id : String)
    (now : ℕ) (s : Store) (found : Option Challenge)
    → IsSingle s
    → IsSingle (verify_stored crypto address chain challenge signature privy_id now s found).1
unfolding verify_stored
verify_stored-IsSingle crypto address chain challenge signature privy_id now s none single = single
verify_stored-IsSingle crypto address chain challenge signature privy_id now s (some stored)
      single =
    if-both Kept (ltb stored.expires_at now) (delete_challenge-IsSingle stored.id s single) (
      if-both Kept (not (challenge == challenge_text stored.nonce)) single (
        if-both Kept (not (verify_signature crypto chain address challenge signature)) single
          (delete_challenge-IsSingle stored.id _ (workers-IsSingle s _ single))))
  where
    Kept : VerifyResult × Store → Type 0
    Kept r = IsSingle r.1

-- Whatever the calls, an address has one challenge at most on a chain: a new challenge takes the
-- place of the old ones, a verification and a clean-up only take challenges out.
pub IsSingle-kept :
    (s : Store)
    → IsSingle s
    → ((address : String) (chain : Chain) (privy_id nonce : String) (now : ℕ)
        → IsSingle (create_challenge address chain privy_id nonce now s).1)
      × ((crypto : Crypto) (address : String) (chain : Chain)
            (challenge signature privy_id : String) (now : ℕ)
          → IsSingle (verify_and_link crypto address chain challenge signature privy_id now s).1)
      × ((now : ℕ) → IsSingle (cleanup_expired_challenges now s).1)
unfolding verify_and_link
IsSingle-kept s single = (
  (λ address chain privy_id nonce now.
      create_challenge-IsSingle address chain privy_id nonce now s single),
  (λ crypto address chain challenge signature privy_id now.
      verify_stored-IsSingle crypto address chain challenge signature privy_id now s _ single),
  (λ now. cleanup-IsSingle now s single),
)
