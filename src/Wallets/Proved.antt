-- ===== src/Wallets/Proved.antt =====
-- What a success of `verifyAndLink` of services/walletVerification.ts stands for, in words that are not
-- those of the code.
use Prim.Native.String
use mathlib.Core.Option
use mathlib.Core.Path.{subst}
use quipay_backend.Prelude.{
  ℕ, ◌≤◌, String, ◌≡◌, refl, sym, ap, ◌∙◌, inl, inr, Bool, true, not, Option, none, some, List, [],
  ◌∷◌, arith, eq_iff, ltb, if◌then◌else◌, Option-cases, or_else, if-both, if-split, ◌==◌, nat_eq,
  string_eq, keep, All,
}
use quipay_backend.Map
use quipay_backend.Wallets.{
  Chain, stellar, evm, Challenge, Worker, Store, Crypto, is_pending_for, newest, link_on,
  same_chain, verify_signature, verify_stellar_signature, verify_evm_signature, select_challenge,
}

-- The signature is good for the address.
abbrev pub IsSigned : Crypto → Chain → String → String → String → Type 0
IsSigned crypto stellar address challenge signature =
    crypto.ed25519_verify address challenge signature ≡ some true
IsSigned crypto evm address challenge signature =
    (recovered : String) × (crypto.recover_message_address challenge signature ≡ some recovered)
    × (crypto.lower_case recovered ≡ crypto.lower_case address)

-- The row of a worker whose column of the chain has become verified.
abbrev pub linked : Chain → String → Worker → Worker
linked stellar address worker = record worker {
  wallet_stellar = record {
    address = some (or_else worker.wallet_stellar.address address);
    verified = some true;
  };
}
linked evm address worker = record worker {
  wallet_base = record {
    address = some (or_else worker.wallet_base.address address);
    verified = some true;
  };
}

-- What a success proves, and what it leaves.
abbrev pub IsProved :
    Crypto → String → Chain → String → String → String → ℕ → Store → Store → Type 0
IsProved crypto address chain challenge signature privy_id now s left =
    (stored : Challenge) × (select_challenge address chain privy_id s ≡ some stored)
    × All (λ (row : Challenge). row.created_at ≤ stored.created_at)
        (keep (is_pending_for address chain privy_id) s.challenges)
    × (stored.address ≡ address)
    × (stored.chain ≡ chain)
    × (stored.privy_id ≡ privy_id)
    × (now ≤ stored.expires_at)
    × (challenge ≡ String.◌++◌ "quipay-verify:" stored.nonce)
    × IsSigned crypto chain address challenge signature
    × (left.challenges ≡ keep (λ (row : Challenge). not (row.id == stored.id)) s.challenges)
    × ((w : String)
        → Map.lookup w left.workers ≡ (
            if privy_id == w
            then Option.map (linked chain address) (Map.lookup w s.workers)
            else Map.lookup w s.workers))

pub link_on-linked :
    (chain : Chain) (address : String) → link_on chain address ≡ linked chain address
link_on-linked stellar address = refl
link_on-linked evm address = refl

pub same_chain_eq : (a b : Chain) → same_chain a b ≡ true → a ≡ b
same_chain_eq stellar stellar h = refl
same_chain_eq stellar evm h = absurd (cc h)
same_chain_eq evm stellar h = absurd (cc h)
same_chain_eq evm evm h = refl

pub verify_signature-IsSigned :
    (crypto : Crypto) (chain : Chain) (address challenge signature : String)
    → verify_signature crypto chain address challenge signature ≡ true
    → IsSigned crypto chain address challenge signature
unfolding verify_signature verify_stellar_signature verify_evm_signature
verify_signature-IsSigned crypto stellar address challenge signature good =
    elim (Option-cases (crypto.ed25519_verify address challenge signature)) [
      | inl throws ↦ absurd (cc (rw throws at good))
      | inr (b, answer) ↦ let yes_b : b ≡ true = rw answer at good in answer ∙ ap some yes_b
    ]
verify_signature-IsSigned crypto evm address challenge signature good =
    elim (Option-cases (crypto.recover_message_address challenge signature)) [
      | inl throws ↦ absurd (cc (rw (throws, verify_evm_signature) at good))
      | inr (recovered, answer) ↦ (
        recovered,
        answer,
        (eq_iff (crypto.lower_case recovered) (crypto.lower_case address)).0
            (rw (answer, verify_evm_signature) at good),
      )
    ]

pub newest-All :
    (P : Challenge → Type 0) (rows : List Challenge) (stored : Challenge)
    → All P rows
    → newest rows ≡ some stored
    → P stored
newest-All P [] stored h found = absurd (cc found)
newest-All P (row ∷ rows) stored h found = elim (Option-cases (newest rows)) [
  | inl alone ↦ subst P (cc (rw alone at found)) h.0
  | inr (other, later) ↦ newer other (newest-All P rows other h.1 later) (rw later at found)
]
  where
    newer :
        (other : Challenge)
        → P other
        → (if ltb row.created_at other.created_at then some other else some row) ≡ some stored
        → P stored
    newer other p =
        if-both (λ (o : Option Challenge). o ≡ some stored → P stored)
          (ltb row.created_at other.created_at) (λ e. subst P (cc e) p) (λ e. subst P (cc e) h.0)

All-before :
    (s t : ℕ) (rows : List Challenge)
    → s ≤ t
    → All (λ (row : Challenge). row.created_at ≤ s) rows
    → All (λ (row : Challenge). row.created_at ≤ t) rows
All-before s t [] le h = tt
All-before s t (row ∷ rows) le h = (omega (arith, le, h.0), All-before s t rows le h.1)

nothing-newest : (rows : List Challenge) → newest rows ≡ none → rows ≡ []
nothing-newest [] h = refl
nothing-newest (row ∷ rows) h = elim (Option-cases (newest rows)) [
  | inl alone ↦ absurd (cc (rw alone at h))
  | inr (other, later) ↦ absurd (
      if-both (λ (o : Option Challenge). o ≡ none → ⊥) (ltb row.created_at other.created_at)
        (λ e. cc e) (λ e. cc e) (rw later at h))
]

pub newest-latest :
    (rows : List Challenge) (stored : Challenge)
    → newest rows ≡ some stored
    → All (λ (row : Challenge). row.created_at ≤ stored.created_at) rows
newest-latest [] stored found = tt
newest-latest (row ∷ rows) stored found = elim (Option-cases (newest rows)) [
  | inl alone ↦
      let same : row ≡ stored = cc (rw alone at found) in
      subst
        (λ (l : List Challenge).
          All (λ (r : Challenge). r.created_at ≤ stored.created_at) (row ∷ l))
        (sym (nothing-newest rows alone))
        (omega (arith, ap (λ (r : Challenge). r.created_at) same), tt)
  | inr (other, later) ↦ newer other (newest-latest rows other later) (rw later at found)
]
  where
    newer :
        (other : Challenge)
        → All (λ (r : Challenge). r.created_at ≤ other.created_at) rows
        → (if ltb row.created_at other.created_at then some other else some row) ≡ some stored
        → All (λ (r : Challenge). r.created_at ≤ stored.created_at) (row ∷ rows)
    newer other all =
        if-split
          (λ (o : Option Challenge).
            o ≡ some stored
            → All (λ (r : Challenge). r.created_at ≤ stored.created_at) (row ∷ rows))
          (ltb row.created_at other.created_at)
          (λ t e.
            let same : other ≡ stored = cc e in
            subst
              (λ (x : Challenge). All (λ (r : Challenge). r.created_at ≤ x.created_at) (row ∷ rows))
              same (ground (arith, t), all))
          (λ f e.
            let same : row ≡ stored = cc e in
            subst
              (λ (x : Challenge). All (λ (r : Challenge). r.created_at ≤ x.created_at) (row ∷ rows))
              same
              (
                omega arith,
                All-before other.created_at row.created_at rows (ground (arith, f)) all,
              ))

pub All-keep_self :
    (p : Challenge → Bool) (rows : List Challenge) → All (λ row. p row ≡ true) (keep p rows)
All-keep_self p [] = tt
All-keep_self p (row ∷ rows) =
    if-split (All (λ r. p r ≡ true)) (p row) (λ t. (t, All-keep_self p rows))
      (λ f. All-keep_self p rows)
