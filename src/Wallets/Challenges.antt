-- ===== src/Wallets/Challenges.antt =====
-- What services/walletVerification.ts promises of a verified wallet.
use quipay_backend.Prelude.{
  ℕ, ◌≤◌, String, ◌≡◌, refl, ap, ◌∙◌, inl, inr, true, not, Option, none, some, arith, eq_iff, ltb,
  if◌then◌else◌, Bool-cases, or_else, if-split, ◌==◌, nat_eq, string_eq, keep,
}
use mathlib.Core.Option
use quipay_backend.Map
use quipay_backend.Wallets.{
  Chain, stellar, evm, Challenge, Wallet, Worker, Store, Crypto, VerifyResult, success, no_pending,
  challenge_text, is_for, is_pending_for, newest, link_on, verify_signature, delete_challenge,
  verify_stored, verify_and_link, is_for,
}
use quipay_backend.Wallets.Proved.{
  IsProved, link_on-linked, same_chain_eq, verify_signature-IsSigned, newest-All, newest-latest,
  All-keep_self,
}
use quipay_backend.Wallets.Single.{
  length-keep_sub, nil_of_length, open_challenges, IsSingle, for_of_pending, spent,
}

nothing_pending :
    (crypto : Crypto) (address : String) (chain : Chain) (challenge signature privy_id : String)
    (now : ℕ) (s : Store)
    → open_challenges address chain s ≡ 0
    → verify_and_link crypto address chain challenge signature privy_id now s ≡ (no_pending, s)
unfolding verify_and_link verify_stored open_challenges
nothing_pending crypto address chain challenge signature privy_id now s spent =
    let none_pending = nil_of_length (keep (is_pending_for address chain privy_id) s.challenges) (
      omega (
        arith,
        spent,
        length-keep_sub (is_for address chain) (is_pending_for address chain privy_id)
            (for_of_pending address chain privy_id) s.challenges,
      )) in
    ap (verify_stored crypto address chain challenge signature privy_id now s)
      (ap newest none_pending)

-- A success from the challenge found, in terms of the statements that it makes.
abbrev WasLinked :
    Crypto
    → String
    → Chain
    → String
    → String
    → String
    → ℕ
    → Store
    → Option Challenge
    → Store
    → Type 0
WasLinked crypto address chain challenge signature privy_id now s found left =
    (stored : Challenge) × (found ≡ some stored)
    × (now ≤ stored.expires_at)
    × (challenge ≡ challenge_text stored.nonce)
    × (verify_signature crypto chain address challenge signature ≡ true)
    × (left
        ≡ delete_challenge stored.id
            (record s { workers = Map.adjust privy_id (link_on chain address) s.workers }))

module _ (crypto : Crypto) (address : String) (chain : Chain)
    (challenge signature privy_id : String) (now : ℕ) where
  -- The answer of a call depends on what its SELECT has found, and not on the store that it then meets:
  -- two calls whose SELECTs both run before the DELETE of the first both succeed, with one challenge.
  verify_stored-raced :
      (found : Option Challenge) (s later : Store)
      → (verify_stored crypto address chain challenge signature privy_id now s found).0
        ≡ (verify_stored crypto address chain challenge signature privy_id now later found).0
  unfolding verify_stored
  verify_stored-raced none s later = refl
  verify_stored-raced (some stored) s later = elim (Bool-cases (ltb stored.expires_at now)) [
    | inl late ↦ rw late refl
    | inr timely ↦ elim (Bool-cases (challenge == challenge_text stored.nonce)) [
      | inl same ↦ elim (Bool-cases (verify_signature crypto chain address challenge signature)) [
        | inl good ↦ rw (timely, same, good) refl
        | inr bad ↦ rw (timely, same, bad) refl
      ]
      | inr other ↦ rw (timely, other) refl
    ]
  ]

module _ (crypto : Crypto) (address : String) (chain : Chain)
    (challenge signature privy_id : String) (now : ℕ) (s : Store) where
  verify_stored-WasLinked :
      (found : Option Challenge)
      → (verify_stored crypto address chain challenge signature privy_id now s found).0 ≡ success
      → WasLinked crypto address chain challenge signature privy_id now s found
          (verify_stored crypto address chain challenge signature privy_id now s found).1
  unfolding verify_stored
  verify_stored-WasLinked none = λ ok. absurd (cc ok)
  verify_stored-WasLinked (some stored) =
      if-split Sound (ltb stored.expires_at now) (λ _ ok. absurd (cc ok))
        (λ timely.
          if-split Sound (not (challenge == challenge_text stored.nonce)) (λ _ ok. absurd (cc ok))
            (λ right.
              if-split Sound (not (verify_signature crypto chain address challenge signature))
                (λ _ ok. absurd (cc ok))
                (λ valid ok. (
                  stored,
                  refl,
                  ground (arith, timely),
                  (string_eq.test_iff challenge (challenge_text stored.nonce)).0
                      (ground (arith, right)),
                  ground (arith, valid),
                  refl,
                ))))
    where
      Sound : VerifyResult × Store → Type 0
      Sound r =
          r.0 ≡ success
          → WasLinked crypto address chain challenge signature privy_id now s (some stored) r.1

  verify_and_link-WasLinked :
      (verify_and_link crypto address chain challenge signature privy_id now s).0 ≡ success
      → WasLinked crypto address chain challenge signature privy_id now s
          (newest (keep (is_pending_for address chain privy_id) s.challenges))
          (verify_and_link crypto address chain challenge signature privy_id now s).1
  unfolding verify_and_link
  verify_and_link-WasLinked ok = verify_stored-WasLinked _ ok

  -- `verifyAndLink` succeeds only for a challenge that is stored for this address, chain and worker, as
  -- the newest of these, has not expired, and is signed: on Stellar the Ed25519 check of the address
  -- accepts the signature, on the other chain the signature recovers to the address, but for case.
  -- Where no other statement runs during the call, it then takes this challenge out of the table, and
  -- marks the chain's column of the worker's row as verified, with the address that the row had there,
  -- or with this one where it had none; other rows stay.
  pub verify_and_link_sound :
      (verify_and_link crypto address chain challenge signature privy_id now s).0 ≡ success
      → IsProved crypto address chain challenge signature privy_id now s
          (verify_and_link crypto address chain challenge signature privy_id now s).1
  unfolding is_pending_for is_for delete_challenge
  verify_and_link_sound ok =
      let was = verify_and_link-WasLinked ok in
      let mine =
        newest-All (λ (row : Challenge). is_pending_for address chain privy_id row ≡ true) _ was.0
          (All-keep_self (is_pending_for address chain privy_id) s.challenges) was.1 in
      (
        was.0,
        was.1,
        newest-latest _ was.0 was.1,
        (eq_iff was.0.address address).0 (ground (arith, mine)),
        same_chain_eq was.0.chain chain (ground (arith, mine)),
        (eq_iff was.0.privy_id privy_id).0 (ground (arith, mine)),
        was.2,
        was.3,
        verify_signature-IsSigned crypto chain address challenge signature was.4,
        ap (λ (t : Store). t.challenges) was.5,
        λ w.
            ap (λ (t : Store). Map.lookup w t.workers) was.5
            ∙ Map.lookup-adjust privy_id w (link_on chain address) s.workers
            ∙ ap
                (λ (f : Worker → Worker).
                  if privy_id == w
                  then Option.map f (Map.lookup w s.workers)
                  else Map.lookup w s.workers)
                (link_on-linked chain address),
      )

  -- Where an address has one challenge at most on the chain, a success leaves it none: every call that
  -- begins after it has ended, for the address and chain, by whatever worker with whatever challenge and
  -- signature, finds none pending and changes nothing. Calls that overlap are another matter.
  pub verify_and_link-single_use :
      (again other_signature other_id : String) (later : ℕ)
      → IsSingle s
      → (verify_and_link crypto address chain challenge signature privy_id now s).0 ≡ success
      → verify_and_link crypto address chain again other_signature other_id later
          (verify_and_link crypto address chain challenge signature privy_id now s).1
        ≡ (no_pending, (verify_and_link crypto address chain challenge signature privy_id now s).1)
  unfolding IsSingle open_challenges delete_challenge
  verify_and_link-single_use again other_signature other_id later single ok =
      let proved = verify_and_link-WasLinked ok in
      rw proved.5 (
        nothing_pending crypto address chain again other_signature other_id later _
          (spent address chain privy_id proved.0 s.challenges (single address chain) proved.1))

-- The columns of a worker for a chain.
abbrev pub wallet_on : Chain → Worker → Wallet
wallet_on stellar worker = worker.wallet_stellar
wallet_on evm worker = worker.wallet_base

-- A worker whose row has another address on the chain: the success marks that other address as
-- verified, which no signature was checked for.
pub verify_and_link-keeps_address :
    (crypto : Crypto) (address held : String) (chain : Chain)
    (challenge signature privy_id : String) (now : ℕ) (s : Store) (worker : Worker)
    → (verify_and_link crypto address chain challenge signature privy_id now s).0 ≡ success
    → Map.lookup privy_id s.workers ≡ some worker
    → (wallet_on chain worker).address ≡ some held
    → (after : Worker) × (Map.lookup privy_id
          (verify_and_link crypto address chain challenge signature privy_id now s).1.workers
        ≡ some after)
      × (wallet_on chain after ≡ record { address = some held; verified = some true })
unfolding delete_challenge
verify_and_link-keeps_address crypto address held chain c g privy_id now s worker ok there holds =
    let proved = verify_and_link-WasLinked crypto address chain c g privy_id now s ok in
    (
      link_on chain address worker,
      ap (λ (t : Store). Map.lookup privy_id t.workers) proved.5
          ∙ Map.adjust-there privy_id (link_on chain address) s.workers worker there,
      has_linked chain worker holds,
    )
  where
    has_linked :
        (on : Chain) (before : Worker)
        → (wallet_on on before).address ≡ some held
        → wallet_on on (link_on on address before)
          ≡ record { address = some held; verified = some true }
    has_linked stellar before h =
        ap (λ o. record { address = some (or_else o address); verified = some true }) h
    has_linked evm before h =
        ap (λ o. record { address = some (or_else o address); verified = some true }) h
