-- ===== src/Cctp/Attested.antt =====
-- Which transfers services/attestationPoller.ts is to attest, in words that are not those of the code.
use mathlib.Core.Path.{subst}
use quipay_backend.Prelude.{
  ℕ, String, ◌≡◌, refl, sym, ap, ◌∙◌, ◌≢◌, ◌↔◌, ◌⊎◌, inl, inr, Bool, true, false, ◌&&◌, Option,
  none, some, [], ◌∷◌, arith, eq_iff, if◌then◌else◌, Bool-cases, Option-cases, if-split, ◌==◌,
  nat_eq, string_eq, take, keep,
}
use quipay_backend.Map
use quipay_backend.Cctp.Attestations.{
  Transfers, TransferRow, TransferStatus, pending, completed, failed, is_pending, has_hash,
  pending_transfers, attested, complete, Iris, IrisAnswer, not_ok, found, IrisMessage,
  supported_chains, is_usable, read_answer, attested_row, told, get_chain_config, fetch_attestation,
}

-- A transfer waits while it is pending and has the hash of its message.
abbrev pub is_waiting : TransferStatus → Option String → Bool
is_waiting pending (some hash) = true
is_waiting _ _ = false

abbrev pub first_waiting : Transfers → Transfers
first_waiting table =
    take 50 (keep (λ (e : String × TransferRow). is_waiting e.1.status e.1.message_hash) table)

waiting_test :
    (status : TransferStatus) (hash : Option String)
    → is_pending status && has_hash hash ≡ is_waiting status hash
waiting_test pending none = refl
waiting_test pending (some hash) = refl
waiting_test attested hash = refl
waiting_test completed hash = refl
waiting_test failed hash = refl

keep-waiting :
    (table : Transfers)
    → keep (λ (e : String × TransferRow). is_pending e.1.status && has_hash e.1.message_hash) table
      ≡ keep (λ (e : String × TransferRow). is_waiting e.1.status e.1.message_hash) table
keep-waiting [] = refl
keep-waiting (e ∷ table) = rw (waiting_test e.1.status e.1.message_hash, keep-waiting table) refl

pub pending_transfers-waiting : (table : Transfers) → pending_transfers table ≡ first_waiting table
unfolding pending_transfers
pending_transfers-waiting table = ap (take 50) (keep-waiting table)

-- The chains of the source, in lower case, with their domains.
abbrev pub IsDomain : String → ℕ → Type 0
IsDomain chain domain =
    ((chain ≡ "ethereum") × (domain ≡ 0))
    ⊎ ((chain ≡ "base") × (domain ≡ 6))
    ⊎ ((chain ≡ "arbitrum") × (domain ≡ 3))
    ⊎ ((chain ≡ "optimism") × (domain ≡ 2))

-- The API has an attestation for a transfer: the answer for its domain and transaction is complete, and
-- its first message has one that is neither empty nor "PENDING".
abbrev pub HasAttestation : Iris → TransferRow → String → Option String → Type 0
HasAttestation iris r a message =
    (domain : ℕ) × IsDomain (iris.lower_case r.source_chain) domain
    × (iris.messages domain r.source_tx_hash
        ≡ found true (some (record { attestation = some a; message = message })))
    × (a ≢ "")
    × (a ≢ "PENDING")

-- The row as attested; an empty message is NULL.
abbrev pub with_attestation : String → Option String → TransferRow → TransferRow
with_attestation a none r = record r {
  status = attested;
  attestation = some a;
  cctp_message = none;
}
with_attestation a (some m) r = record r {
  status = attested;
  attestation = some a;
  cctp_message = if m == "" then none else some m;
}

pub attested_row-with :
    (a : String) (m : Option String) (r : TransferRow) → attested_row a m r ≡ with_attestation a m r
attested_row-with a none r = refl
attested_row-with a (some m) r = refl

usable_iff : (a : String) → (is_usable a ≡ true) ↔ ((a ≢ "") × (a ≢ "PENDING"))
usable_iff a = (
  λ t. (
    λ e. absurd (let same = (eq_iff a "").1 e in ground (arith, t, same)),
    λ e. absurd (let same = (eq_iff a "PENDING").1 e in ground (arith, t, same)),
  ),
  λ h. elim (Bool-cases (a == "")) [
    | inl e ↦ absurd (h.0 ((eq_iff a "").0 e))
    | inr e ↦ elim (Bool-cases (a == "PENDING")) [
      | inl p ↦ absurd (h.1 ((eq_iff a "PENDING").0 p))
      | inr p ↦ rw (e, p) refl
    ]
  ],
)

IsDomain-listed :
    (chain : String) (domain : ℕ)
    → IsDomain chain domain
    → Map.lookup chain supported_chains ≡ some domain
unfolding Map.lookup
IsDomain-listed chain domain (inl h) = rw (h.0, h.1) refl
IsDomain-listed chain domain (inr (inl h)) = rw (h.0, h.1) refl
IsDomain-listed chain domain (inr (inr (inl h))) = rw (h.0, h.1) refl
IsDomain-listed chain domain (inr (inr (inr h))) = rw (h.0, h.1) refl

listed-IsDomain :
    (chain : String) (domain : ℕ)
    → Map.lookup chain supported_chains ≡ some domain
    → IsDomain chain domain
unfolding Map.lookup
listed-IsDomain chain domain =
    if-split Found ("ethereum" == chain)
      (λ t e. inl (sym ((eq_iff "ethereum" chain).0 t), sym (cc e)))
      (λ _.
        if-split Found ("base" == chain)
          (λ t e. inr (inl (sym ((eq_iff "base" chain).0 t), sym (cc e))))
          (λ _.
            if-split Found ("arbitrum" == chain)
              (λ t e. inr (inr (inl (sym ((eq_iff "arbitrum" chain).0 t), sym (cc e)))))
              (λ _.
                if-split Found ("optimism" == chain)
                  (λ t e. inr (inr (inr (sym ((eq_iff "optimism" chain).0 t), sym (cc e)))))
                  (λ _ e. absurd (cc e)))))
  where
    Found : Option ℕ → Type 0
    Found o = o ≡ some domain → IsDomain chain domain

read_answer-complete :
    (answer : IrisAnswer) (a : String) (message : Option String)
    → read_answer answer ≡ some (complete a message)
    → (answer ≡ found true (some (record { attestation = some a; message = message })))
      × (a ≢ "")
      × (a ≢ "PENDING")
read_answer-complete not_ok a message h = absurd (cc h)
read_answer-complete (found false first) a message h = absurd (cc h)
read_answer-complete (found true none) a message h = absurd (cc h)
read_answer-complete (found true (some m)) a message h = elim (Option-cases m.attestation) [
  | inl missing ↦ absurd (cc (rw missing at h))
  | inr (b, given) ↦ elim (Bool-cases (is_usable b)) [
    | inl good ↦
        let same : some (complete b m.message) ≡ some (complete a message) =
          rw (given, good) at h in
        let text : b ≡ a = cc in
        let rest : m.message ≡ message = cc in
        let usable =
          subst (λ (x : String). (x ≢ "") × (x ≢ "PENDING")) text ((usable_iff b).0 good) in
        let whole = message_eq m a message (given ∙ ap some text) rest in
        (ap (λ (x : IrisMessage). found true (some x)) whole, usable.0, usable.1)
    | inr bad ↦ absurd (cc (rw (given, bad) at h))
  ]
]
  where
    message_eq :
        (m : IrisMessage) (a : String) (message : Option String)
        → m.attestation ≡ some a
        → m.message ≡ message
        → m ≡ record { attestation = some a; message = message }
    message_eq m a message p q = rw (sym p, sym q) refl

pub HasAttestation-told :
    (iris : Iris) (r : TransferRow) (a : String) (message : Option String)
    → HasAttestation iris r a message
    → told iris r ≡ some (complete a message)
unfolding told get_chain_config fetch_attestation
HasAttestation-told iris r a message h =
    rw
      (
        told,
        IsDomain-listed (iris.lower_case r.source_chain) h.0 h.1,
        h.2,
        (usable_iff a).1 (h.3, h.4),
      )
      refl

pub told-HasAttestation :
    (iris : Iris) (r : TransferRow) (a : String) (message : Option String)
    → told iris r ≡ some (complete a message)
    → HasAttestation iris r a message
unfolding told get_chain_config fetch_attestation
told-HasAttestation iris r a message h =
    elim (Option-cases (Map.lookup (iris.lower_case r.source_chain) supported_chains)) [
      | inl unknown ↦ absurd (cc (rw (unknown, told) at h))
      | inr (domain, listed) ↦
          let read = read_answer-complete _ a message (rw (listed, told) at h) in
          (
            domain,
            listed-IsDomain (iris.lower_case r.source_chain) domain listed,
            read.0,
            read.1,
            read.2,
          )
    ]
