-- ===== src/Cctp/Attestations.antt =====
-- services/attestationPoller.ts, with `fetchAttestation` and `getChainConfig` of services/cctpService.ts:
-- the worker that waits for the attestations of the transfers. The Iris API is a parameter, and so is
-- `toLowerCase`; names that every object inherits are no chains here.
use quipay_backend.Prelude.{
  ℕ, String, Bool, true, false, not, ◌&&◌, Option, none, some, List, [], ◌∷◌, if◌then◌else◌, ◌==◌,
  nat_eq, string_eq, take, keep,
}
use quipay_backend.Map

pub data TransferStatus : Type 0 where
  pending attested completed failed : TransferStatus

-- A row of `cross_chain_transfers`, but for its id and the columns that the worker leaves alone.
pub record TransferRow : Type 0 where
  pub source_chain : String
  pub source_tx_hash : String
  pub message_hash : Option String
  pub status : TransferStatus
  pub attestation : Option String
  pub cctp_message : Option String

abbrev pub Transfers : Type 0
Transfers = List (String × TransferRow)

-- The first of `data.messages`.
pub record IrisMessage : Type 0 where
  pub attestation : Option String
  pub message : Option String

-- The answer of the API: an error, or whether `data.status` is `complete`, with the first message.
pub data IrisAnswer : Type 0 where
  not_ok : IrisAnswer
  found : (is_complete : Bool) → Option IrisMessage → IrisAnswer

pub data AttestationResult : Type 0 where
  still_pending : AttestationResult
  complete : (attestation : String) (message : Option String) → AttestationResult

abbrev pub is_usable : String → Bool
is_usable a = not (a == "") && not (a == "PENDING")

abbrev pub result_of : IrisMessage → Option String → AttestationResult
result_of m none = still_pending
result_of m (some a) = if is_usable a then complete a m.message else still_pending

abbrev pub read_answer : IrisAnswer → Option AttestationResult
read_answer not_ok = none
read_answer (found false first) = some still_pending
read_answer (found true none) = some still_pending
read_answer (found true (some m)) = some (result_of m m.attestation)

pub record Iris : Type 0 where
  pub lower_case : String → String
  pub messages : (source_domain : ℕ) (tx_hash : String) → IrisAnswer

-- `none` where it throws.
unfoldable pub fetch_attestation : Iris → String → ℕ → Option AttestationResult
fetch_attestation iris tx_hash source_domain = read_answer (iris.messages source_domain tx_hash)

-- The domains of `CCTP_SUPPORTED_CHAINS`.
abbrev pub supported_chains : List (String × ℕ)
supported_chains = ("ethereum", 0) ∷ ("base", 6) ∷ ("arbitrum", 3) ∷ ("optimism", 2) ∷ []

unfoldable pub get_chain_config : Iris → String → Option ℕ
unfolding Map.lookup
get_chain_config iris chain = Map.lookup (iris.lower_case chain) supported_chains

abbrev pub is_pending : TransferStatus → Bool
is_pending pending = true
is_pending attested = false
is_pending completed = false
is_pending failed = false

abbrev pub has_hash : Option String → Bool
has_hash none = false
has_hash (some h) = true

-- `LIMIT 50` without an order: the rows stand as in the table.
unfoldable pub pending_transfers : Transfers → Transfers
pending_transfers table =
    take 50 (
      keep (λ (e : String × TransferRow). is_pending e.1.status && has_hash e.1.message_hash) table)

-- What the worker is told about a transfer; `none` where its chain is unknown or the call throws.
unfoldable pub told : Iris → TransferRow → Option AttestationResult
unfolding fetch_attestation get_chain_config
told iris row = elim (get_chain_config iris row.source_chain) [
  | none ↦ none
  | some domain ↦ fetch_attestation iris row.source_tx_hash domain
]

-- `result.message || null`
abbrev pub or_null : Option String → Option String
or_null none = none
or_null (some m) = if m == "" then none else some m

abbrev pub attested_row : String → Option String → TransferRow → TransferRow
attested_row a message row = record row {
  status = attested;
  attestation = some a;
  cctp_message = or_null message;
}

-- `updates` is false where the statement throws, which is only logged.
abbrev pub settle : (updates : Bool) → String → Option AttestationResult → Transfers → Transfers
settle updates id none table = table
settle updates id (some still_pending) table = table
settle false id (some (complete a message)) table = table
settle true id (some (complete a message)) table = Map.adjust id (attested_row a message) table

abbrev pub poll_all : (String → Bool) → Iris → Transfers → Transfers → Transfers
poll_all updates iris [] table = table
poll_all updates iris (e ∷ es) table =
    poll_all updates iris es (settle (updates e.0) e.0 (told iris e.1) table)

-- Whether there is a database and it answers the listing.
unfoldable pub poll_cycle :
    (lists : Bool) → (updates : String → Bool) → Iris → Transfers → Transfers
unfolding pending_transfers told Map.adjust
poll_cycle false updates iris table = table
poll_cycle true updates iris table = poll_all updates iris (pending_transfers table) table

unfoldable pub poll_cycles : List Iris → Transfers → Transfers
unfolding poll_cycle
poll_cycles [] table = table
poll_cycles (iris ∷ later) table = poll_cycles later (poll_cycle true (λ id. true) iris table)
