-- ===== src/Cctp.antt =====
-- services/cctpIndexer.ts: the indexer of the USDC transfers that other chains announce. The bytes of a
-- message are the values of its hexadecimal digits; the node of a chain is a parameter.
pub mod Messages
pub mod Progress
pub mod Attestations
pub mod Starvation
pub mod Attested
pub mod Polled
mod Tests
use quipay_backend.Prelude.{
  ℕ, ◌+◌, ◌*◌, String, Bool, true, false, not, ◌||◌, Option, none, some, List, [], ◌∷◌, ◌++◌, ltb,
  eqb, if◌then◌else◌, ◌==◌, nat_eq, string_eq, take, drop, any,
}
use quipay_backend.Int.{ℤ, pos, negsuc, sub_ℕ}

abbrev pub value_from : ℕ → List ℕ → ℕ
value_from acc [] = acc
value_from acc (d ∷ ds) = value_from (acc * 16 + d) ds

-- `parseInt(…, 16)` and `BigInt("0x…")`
abbrev pub value : List ℕ → ℕ
value ds = value_from 0 ds

pub record ParsedMessage : Type 0 where
  pub message_hash : List ℕ
  pub amount : ℕ

abbrev pub is_empty : List ℕ → Bool
is_empty [] = true
is_empty (d ∷ ds) = false

-- `hex.slice(156, 220)`
abbrev pub amount_hex : List ℕ → List ℕ
amount_hex hex = take 64 (drop 156 hex)

-- `NaN` is no version, and `BigInt("0x")` throws.
unfoldable pub parse_cctp_message : List ℕ → Option ParsedMessage
parse_cctp_message hex =
    if is_empty hex || not (eqb (value (take 8 hex)) 0)
    then none
    else if is_empty (amount_hex hex)
    then none
    else some (record { message_hash = hex; amount = value (amount_hex hex) })

pub record Log : Type 0 where
  pub transaction_hash : String
  pub data_hex : List ℕ

-- A row of `cross_chain_transfers`, a pending deposit.
pub record Transfer : Type 0 where
  pub source_chain : String
  pub amount : ℕ
  pub source_tx_hash : String
  pub message_hash : List ℕ

pub record ChainClient : Type 0 where
  pub chain_key : String
  pub last_block : ℕ

-- `detected` are the events of the web socket.
pub record State : Type 0 where
  pub client : ChainClient
  pub transfers : List Transfer
  pub detected : List String

abbrev pub is_indexed : String → List Transfer → Bool
is_indexed tx_hash table = any (λ (t : Transfer). t.source_tx_hash == tx_hash) table

abbrev amount_of : Option ParsedMessage → ℕ
amount_of none = 0
amount_of (some m) = m.amount

abbrev hash_of : List ℕ → Option ParsedMessage → List ℕ
hash_of hex none = hex
hash_of hex (some m) = m.message_hash

abbrev pub transfer_of : String → Log → Transfer
transfer_of chain_key log =
    let parsed = parse_cctp_message log.data_hex in
    record {
      source_chain = chain_key;
      amount = amount_of parsed;
      source_tx_hash = log.transaction_hash;
      message_hash = hash_of log.data_hex parsed;
    }

-- One turn of the loop; `answers` is false where the database throws, which is only logged.
abbrev pub process_log : (answers : Bool) → Log → State → State
process_log false log s = s
process_log true log s = if is_indexed log.transaction_hash s.transfers then s else record s {
  transfers = s.transfers ++ transfer_of s.client.chain_key log ∷ [];
  detected = s.detected ++ log.transaction_hash ∷ [];
}

-- The loop over the logs, each with the answer of the database.
unfoldable pub process_logs : (Log → Bool) → List Log → State → State
unfolding parse_cctp_message
process_logs answers [] s = s
process_logs answers (log ∷ logs) s = process_logs answers logs (process_log (answers log) log s)

-- The node of a chain at one time: its head and its logs of a range of blocks, where it answers.
pub record Node : Type 0 where
  pub get_block_number : Option ℕ
  pub get_logs : ℤ → ℕ → Option (List Log)

-- `latestBlock - BigInt(2000)` may be negative.
abbrev pub from_block : ℕ → ℕ → ℤ
from_block last latest = if ltb 0 last then pos (last + 1) else sub_ℕ latest 2000

abbrev is_after : ℤ → ℕ → Bool
is_after (pos n) latest = ltb latest n
is_after (negsuc n) latest = false

abbrev pub at_block : ℕ → State → State
at_block latest s = record s { client = record s.client { last_block = latest } }

abbrev pub index_logs : (Log → Bool) → ℕ → Option (List Log) → State → State
index_logs answers latest none s = s
index_logs answers latest (some logs) s = at_block latest (process_logs answers logs s)

abbrev pub index_from : (Log → Bool) → Node → Option ℕ → State → State
index_from answers node none s = s
index_from answers node (some latest) s =
    let from = from_block s.client.last_block latest in
    if is_after from latest then s else index_logs answers latest (node.get_logs from latest) s

-- A failure of the node is logged, and the block stays.
unfoldable pub index_chain : (has_database : Bool) → (Log → Bool) → Node → State → State
unfolding process_logs
index_chain false answers node s = s
index_chain true answers node s = index_from answers node node.get_block_number s

-- One indexer cycle after another, for one chain.
unfoldable pub index_cycles : (Log → Bool) → List Node → State → State
unfolding index_chain
index_cycles answers [] s = s
index_cycles answers (node ∷ nodes) s = index_cycles answers nodes (index_chain true answers node s)
