-- ===== src/Cctp/Polled.antt =====
-- What a cycle of services/attestationPoller.ts does to each transfer.
use quipay_backend.Prelude.{
  ℕ, zero, suc, String, ◌≡◌, refl, sym, ap, ◌∙◌, ◌⊎◌, inl, inr, Bool, true, false, ◌&&◌, Option,
  none, some, [], ◌∷◌, eq_iff, if◌then◌else◌, Bool-cases, if-both, if-true, if-false, ◌==◌, nat_eq,
  string_eq, take, keep, any, All,
}
use quipay_backend.Map
use quipay_backend.Cctp.Attested.{
  HasAttestation, with_attestation, first_waiting, attested_row-with, HasAttestation-told,
  told-HasAttestation, pending_transfers-waiting,
}
use quipay_backend.Cctp.Attestations.{
  Transfers, TransferRow, AttestationResult, still_pending, complete, Iris, attested_row,
  pending_transfers, is_pending, has_hash, told, settle, poll_all, poll_cycle,
}

-- What becomes of a row by what the worker is told, where the update answers or not.
abbrev pub row_after : Bool → Option AttestationResult → TransferRow → TransferRow
row_after updates none row = row
row_after updates (some still_pending) row = row
row_after false (some (complete a message)) row = row
row_after true (some (complete a message)) row = attested_row a message row

row_after-twice :
    (b : Bool) (o : Option AttestationResult) (row : TransferRow)
    → row_after b o (row_after b o row) ≡ row_after b o row
row_after-twice b none row = refl
row_after-twice b (some still_pending) row = refl
row_after-twice false (some (complete a message)) row = refl
row_after-twice true (some (complete a message)) row = refl

-- The primary key: a row of the table is the one that its id finds.
abbrev pub IsFound : Transfers → String × TransferRow → Type 0
IsFound table e = Map.lookup e.0 table ≡ some e.1

abbrev pub is_one_of : Transfers → String → Bool
is_one_of es id = any (λ (e : String × TransferRow). e.0 == id) es

lookup-settle-other :
    (b : Bool) (o : Option AttestationResult) (id j : String) (table : Transfers)
    → (id == j) ≡ false
    → Map.lookup j (settle b id o table) ≡ Map.lookup j table
lookup-settle-other b none id j table h = refl
lookup-settle-other b (some still_pending) id j table h = refl
lookup-settle-other false (some (complete a message)) id j table h = refl
lookup-settle-other true (some (complete a message)) id j table h =
    Map.lookup-adjust id j (attested_row a message) table ∙ if-false (id == j) _ h

lookup-settle-same :
    (b : Bool) (o : Option AttestationResult) (id : String) (table : Transfers) (row : TransferRow)
    → Map.lookup id table ≡ some row
    → Map.lookup id (settle b id o table) ≡ some (row_after b o row)
lookup-settle-same b none id table row h = h
lookup-settle-same b (some still_pending) id table row h = h
lookup-settle-same false (some (complete a message)) id table row h = h
lookup-settle-same true (some (complete a message)) id table row h =
    Map.adjust-there id (attested_row a message) table row h

lookup-poll_all :
    (updates : String → Bool) (iris : Iris) (live es table : Transfers) (j : String)
    (r now : TransferRow)
    → Map.lookup j live ≡ some r
    → All (IsFound live) es
    → Map.lookup j table ≡ some now
    → row_after (updates j) (told iris r) now ≡ row_after (updates j) (told iris r) r
    → Map.lookup j (poll_all updates iris es table)
      ≡ (if is_one_of es j then some (row_after (updates j) (told iris r) r) else some now)
lookup-poll_all updates iris live [] table j r now found h there same = there
lookup-poll_all updates iris live ((i, q) ∷ es) table j r now found h there same =
    let f : TransferRow → TransferRow = row_after (updates j) (told iris r) in
    let next = settle (updates i) i (told iris q) table in
    elim (Bool-cases (i == j)) [
      | inl eq ↦
          let here = (eq_iff i j).0 eq in
          let row : q ≡ r = (let first = h.0 in cc) in
          let settled : Map.lookup j next ≡ some (f now) =
            rw (here, row) (lookup-settle-same (updates j) (told iris r) j table now there) in
          let after = row_after-twice (updates j) (told iris r) now ∙ same in
          let rest =
            lookup-poll_all updates iris live es next j r (f now) found h.1 settled after in
          rw eq (rest ∙ if-both (λ o. o ≡ some (f r)) (is_one_of es j) refl (ap some same))
      | inr other ↦ rw other (
          lookup-poll_all updates iris live es next j r now found h.1
            (lookup-settle-other (updates i) (told iris q) i j table other ∙ there) same)
    ]

All-keep :
    (P : String × TransferRow → Type 0) (p : String × TransferRow → Bool) (es : Transfers)
    → All P es
    → All P (keep p es)
All-keep P p [] h = tt
All-keep P p (e ∷ es) h = if-both (All P) (p e) (h.0, All-keep P p es h.1) (All-keep P p es h.1)

All-take :
    (P : String × TransferRow → Type 0) (n : ℕ) (es : Transfers) → All P es → All P (take n es)
All-take P zero es h = tt
All-take P (suc n) [] h = tt
All-take P (suc n) (e ∷ es) h = (h.0, All-take P n es h.1)

lookup-poll_cycle-row_after :
    (updates : String → Bool) (iris : Iris) (table : Transfers) (j : String) (r : TransferRow)
    → All (IsFound table) table
    → Map.lookup j table ≡ some r
    → Map.lookup j (poll_cycle true updates iris table) ≡ (
        if is_one_of (pending_transfers table) j
        then some (row_after (updates j) (told iris r) r)
        else some r)
unfolding poll_cycle pending_transfers
lookup-poll_cycle-row_after updates iris table j r keyed found =
    lookup-poll_all updates iris table (pending_transfers table) table j r r found
      (All-take (IsFound table) 50 _ (
        All-keep (IsFound table)
          (λ (e : String × TransferRow). is_pending e.1.status && has_hash e.1.message_hash) table
          keyed))
      found refl

-- A transfer is to be attested: it is one of the first fifty that wait, its update answers, and the API has
-- an attestation for it.
abbrev pub IsDue : (String → Bool) → Iris → Transfers → String → TransferRow → Type 0
IsDue updates iris table j r =
    (is_one_of (first_waiting table) j ≡ true)
    × (updates j ≡ true)
    × ((a : String) × (message : Option String) × HasAttestation iris r a message)

-- Where the ids are primary keys and the listing answers, a cycle attests a transfer if it is one of the
-- first fifty that are pending with a hash, the API has a complete answer for its domain and transaction
-- with an attestation that is neither empty nor "PENDING", and its update answers: its row then has the
-- status attested, this attestation, and the message, or NULL for an empty one. Otherwise its row stays
-- as it is. An error of one stops no other.
pub lookup-poll_cycle :
    (updates : String → Bool) (iris : Iris) (table : Transfers) (j : String) (r : TransferRow)
    → All (IsFound table) table
    → Map.lookup j table ≡ some r
    → ((a : String) × (message : Option String) × IsDue updates iris table j r
        × HasAttestation iris r a message
        × (Map.lookup j (poll_cycle true updates iris table) ≡ some (with_attestation a message r)))
      ⊎ (¬ IsDue updates iris table j r
          × (Map.lookup j (poll_cycle true updates iris table) ≡ some r))
lookup-poll_cycle updates iris table j r keyed found =
    let after : Map.lookup j (poll_cycle true updates iris table) ≡ (
        if is_one_of (first_waiting table) j
        then some (row_after (updates j) (told iris r) r)
        else some r) =
      lookup-poll_cycle-row_after updates iris table j r keyed found
      ∙ ap
          (λ (es : Transfers).
            if is_one_of es j then some (row_after (updates j) (told iris r) r) else some r)
          (pending_transfers-waiting table) in
    elim (Bool-cases (is_one_of (first_waiting table) j)) [
      | inr not_waiting ↦
          inr (λ due. absurd (cc (sym due.0 ∙ not_waiting)), after ∙ if-false _ _ not_waiting)
      | inl waits ↦ polled (updates j) (told iris r) refl refl waits (after ∙ if-true _ _ waits)
    ]
  where
    polled :
        (b : Bool) (o : Option AttestationResult)
        → updates j ≡ b
        → told iris r ≡ o
        → is_one_of (first_waiting table) j ≡ true
        → Map.lookup j (poll_cycle true updates iris table) ≡ some (row_after b o r)
        → ((a : String) × (message : Option String) × IsDue updates iris table j r
            × HasAttestation iris r a message
            × (Map.lookup j (poll_cycle true updates iris table)
                ≡ some (with_attestation a message r)))
          ⊎ (¬ IsDue updates iris table j r
              × (Map.lookup j (poll_cycle true updates iris table) ≡ some r))
    polled b none answers says waits after =
        inr (
          λ due. absurd (cc (sym says ∙ HasAttestation-told iris r due.2.0 due.2.1 due.2.2)),
          after,
        )
    polled b (some still_pending) answers says waits after =
        inr (
          λ due. absurd (cc (sym says ∙ HasAttestation-told iris r due.2.0 due.2.1 due.2.2)),
          after,
        )
    polled false (some (complete a message)) answers says waits after =
        inr (λ due. absurd (cc (sym due.1 ∙ answers)), after)
    polled true (some (complete a message)) answers says waits after =
        let has = told-HasAttestation iris r a message says in
        inl (
          a,
          message,
          (waits, answers, (a, message, has)),
          has,
          after ∙ ap some (attested_row-with a message r),
        )
