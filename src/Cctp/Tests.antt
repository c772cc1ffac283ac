-- ===== src/Cctp/Tests.antt =====
-- Runs of services/cctpIndexer.ts, and its theorems at inputs.
use quipay_backend.Prelude.{
  ℕ, zero, suc, String, ◌≡◌, refl, sym, ◌⊎◌, true, Option, none, some, List, [], ◌∷◌, ◌++◌, arith,
  eqb, if◌then◌else◌, if-both, ◌==◌, nat_eq, string_eq, All,
}
use quipay_backend.Int.{ℤ}
use quipay_backend.Cctp.{
  Log, State, Node, parse_cctp_message, value, index_chain, index_cycles, process_logs,
}
use quipay_backend.Cctp.Messages.{Message, encode, parse_cctp_message-encode}
use quipay_backend.Map
use quipay_backend.Cctp.Attestations.{
  Transfers, TransferRow, pending, attested, Iris, found, not_ok, poll_cycle, pending_transfers,
  told, get_chain_config, fetch_attestation,
}
use quipay_backend.Cctp.Attested.{HasAttestation, with_attestation}
use quipay_backend.Cctp.Polled.{IsDue, lookup-poll_cycle}
use quipay_backend.Cctp.Progress.{
  IsIndexed, HasUniqueTxs, IsListed, IsComplete, index_cycles-indexes,
}

abbrev digits : ℕ → ℕ → List ℕ
digits zero d = []
digits (suc n) d = d ∷ digits n d

-- Five, to the recipient 1…1.
abbrev five : Message
five = record {
  version = digits 8 0;
  source_domain = digits 8 0;
  destination_domain = digits 8 6;
  nonce = digits 16 7;
  sender = digits 64 9;
  recipient = digits 64 1;
  destination_caller = digits 64 0;
  amount = digits 63 0 ++ 5 ∷ [];
  body = [];
}

parse_cctp_message-encode_example :
    parse_cctp_message (encode five)
    ≡ some (record { message_hash = encode five; amount = value (digits 12 1 ++ digits 52 0) })
parse_cctp_message-encode_example =
    parse_cctp_message-encode five (refl, refl, refl, refl, refl, refl, refl, refl)

abbrev log_a : Log
log_a = record { transaction_hash = "0xa"; data_hex = [] }

abbrev log_b : Log
log_b = record { transaction_hash = "0xb"; data_hex = encode five }

-- The logs of blocks 11 and 12.
abbrev chain : ℕ → List Log
chain b = if eqb b 11 then log_a ∷ [] else if eqb b 12 then log_b ∷ [] else []

abbrev all_logs : ℤ → ℕ → Option (List Log)
all_logs from to = some (log_a ∷ log_b ∷ [])

abbrev at_head : Node
at_head = record { get_block_number = some 12; get_logs = all_logs }

abbrev offline : Node
offline = record { get_block_number = some 12; get_logs = λ from to. none }

abbrev start : State
start = record {
  client = record { chain_key = "base"; last_block = 10 };
  transfers = [];
  detected = [];
}

at_head-IsComplete : IsComplete chain at_head
at_head-IsComplete from to b logs answer after before =
    let same : (log_a ∷ log_b ∷ []) ≡ logs = cc in
    if-both (All (IsListed logs)) (eqb b 11) (rw (sym same) (refl, tt))
      (if-both (All (IsListed logs)) (eqb b 12) (rw (sym same) (refl, tt)) tt)

offline-IsComplete : IsComplete chain offline
offline-IsComplete from to b logs answer after before = absurd (cc answer)

index_cycles-indexes_example :
    All
      (IsIndexed (index_cycles (λ log. true) (offline ∷ at_head ∷ []) start).transfers)
      (log_b ∷ [])
    × HasUniqueTxs (index_cycles (λ log. true) (offline ∷ at_head ∷ []) start).transfers
unfolding index_cycles index_chain process_logs
index_cycles-indexes_example =
    index_cycles-indexes chain (offline ∷ at_head ∷ []) start 12
      (offline-IsComplete, (at_head-IsComplete, tt)) (omega arith) tt (omega arith) (omega arith)

abbrev waiting : String → TransferRow
waiting tx_hash = record {
  source_chain = "base";
  source_tx_hash = tx_hash;
  message_hash = some "0xm";
  status = pending;
  attestation = none;
  cctp_message = none;
}

abbrev two_waiting : Transfers
two_waiting = ("t1", waiting "0xa") ∷ ("t2", waiting "0xb") ∷ []

-- It has an attestation of the second only, and fails for the first.
abbrev iris : Iris
iris = record {
  lower_case = λ name. name;
  messages = λ domain tx_hash.
      if tx_hash == "0xb"
      then found true (some (record { attestation = some "0xs"; message = some "0xn" }))
      else not_ok;
}

lookup-poll_cycle_example :
    ((a : String) × (message : Option String) × IsDue
        (λ id. true)
        iris
        two_waiting
        "t2"
        (waiting "0xb")
      × HasAttestation iris (waiting "0xb") a message
      × (Map.lookup "t2" (poll_cycle true (λ id. true) iris two_waiting)
          ≡ some (with_attestation a message (waiting "0xb"))))
    ⊎ (¬ IsDue (λ id. true) iris two_waiting "t2" (waiting "0xb")
        × (Map.lookup "t2" (poll_cycle true (λ id. true) iris two_waiting) ≡ some (waiting "0xb")))
unfolding Map.lookup
lookup-poll_cycle_example =
    lookup-poll_cycle (λ id. true) iris two_waiting "t2" (waiting "0xb") (refl, (refl, tt)) refl

-- The second of two that wait is attested.
second_attested :
    Map.lookup "t2" (poll_cycle true (λ id. true) iris two_waiting)
    ≡ some (record (waiting "0xb") {
      status = attested;
      attestation = some "0xs";
      cctp_message = some "0xn";
    })
unfolding poll_cycle told pending_transfers get_chain_config fetch_attestation Map.lookup Map.adjust
    Map.insert
second_attested = refl
