-- ===== src/Cctp/Progress.antt =====
-- What the cycles of services/cctpIndexer.ts have indexed of a chain.
use mathlib.Core.Path.{subst}
use quipay_backend.Prelude.{
  ℕ, ◌+◌, ◌≤◌, ◌<◌, String, ◌≡◌, refl, ◌∙◌, inl, inr, Bool, true, false, ◌||◌, some, List, [], ◌∷◌,
  ◌++◌, arith, eq_iff, ltb, leb, lt→ltb, Bool-cases, Option-cases, if-split, ◌==◌, nat_eq,
  string_eq, ==_refl, any, All,
}
use quipay_backend.Int.{pos}
use quipay_backend.Cctp.{
  Log, Transfer, State, Node, is_indexed, transfer_of, process_log, process_logs, at_block,
  index_chain, index_cycles,
}

-- A log whose transaction is in the table.
abbrev pub IsIndexed : List Transfer → Log → Type 0
IsIndexed table log = is_indexed log.transaction_hash table ≡ true

-- No two rows have one transaction.
abbrev pub HasUniqueTxs : List Transfer → Type 0
HasUniqueTxs [] = Unit
HasUniqueTxs (t ∷ ts) = (is_indexed t.source_tx_hash ts ≡ false) × HasUniqueTxs ts

is_indexed-append :
    (ts : List Transfer) (t : Transfer) (k : String)
    → is_indexed k (ts ++ t ∷ []) ≡ (is_indexed k ts || t.source_tx_hash == k)
is_indexed-append [] t k = ground arith
is_indexed-append (s ∷ ts) t k = ground (arith, is_indexed-append ts t k)

append-HasUniqueTxs :
    (ts : List Transfer) (t : Transfer)
    → HasUniqueTxs ts
    → is_indexed t.source_tx_hash ts ≡ false
    → HasUniqueTxs (ts ++ t ∷ [])
append-HasUniqueTxs [] t h new = (refl, tt)
append-HasUniqueTxs (s ∷ ts) t h new = (
  ground (
    arith,
    is_indexed-append ts t s.source_tx_hash,
    h.0,
    new,
    eq_iff s.source_tx_hash t.source_tx_hash,
    eq_iff t.source_tx_hash s.source_tx_hash,
  ),
  append-HasUniqueTxs ts t h.1 (ground (arith, new)),
)

-- What a turn of the loop keeps.
abbrev IsGrown : State → State → Type 0
IsGrown s u =
    ((k : String) → is_indexed k s.transfers ≡ true → is_indexed k u.transfers ≡ true)
    × (HasUniqueTxs s.transfers → HasUniqueTxs u.transfers)
    × (u.client.last_block ≡ s.client.last_block)

process_log-IsGrown :
    (answers : Bool) (log : Log) (s : State) → IsGrown s (process_log answers log s)
process_log-IsGrown false log s = (λ k h. h, λ h. h, refl)
process_log-IsGrown true log s =
    if-split (IsGrown s) (is_indexed log.transaction_hash s.transfers)
      (λ _. (λ k h. h, λ h. h, refl))
      (λ new. (
        λ k h. rw (is_indexed-append s.transfers (transfer_of s.client.chain_key log) k, h) refl,
        λ h. append-HasUniqueTxs s.transfers (transfer_of s.client.chain_key log) h new,
        refl,
      ))

process_logs-IsGrown :
    (answers : Log → Bool) (logs : List Log) (s : State) → IsGrown s (process_logs answers logs s)
unfolding process_logs
process_logs-IsGrown answers [] s = (λ k h. h, λ h. h, refl)
process_logs-IsGrown answers (log ∷ logs) s =
    let one = process_log-IsGrown (answers log) log s in
    let rest = process_logs-IsGrown answers logs (process_log (answers log) log s) in
    (λ k h. rest.0 k (one.0 k h), λ h. rest.1 (one.1 h), rest.2 ∙ one.2)

process_log-indexes : (log : Log) (s : State) → IsIndexed (process_log true log s).transfers log
process_log-indexes log s =
    if-split (λ (u : State). IsIndexed u.transfers log)
      (is_indexed log.transaction_hash s.transfers) (λ there. there)
      (λ new.
        rw
          (
            is_indexed-append s.transfers (transfer_of s.client.chain_key log) log.transaction_hash,
            new,
          )
          (==_refl log.transaction_hash))

-- Where the database answers, every log that is listed is indexed.
process_logs-indexes :
    (logs : List Log) (s : State)
    → All (IsIndexed (process_logs (λ log. true) logs s).transfers) logs
unfolding process_logs
process_logs-indexes [] s = tt
process_logs-indexes (log ∷ logs) s =
    let one = process_log true log s in
    (
      (process_logs-IsGrown (λ log. true) logs one).0 log.transaction_hash
          (process_log-indexes log s),
      process_logs-indexes logs one,
    )

-- A log whose transaction is that of a listed one.
abbrev pub IsListed : List Log → Log → Type 0
IsListed logs log = any (λ (l : Log). l.transaction_hash == log.transaction_hash) logs ≡ true

-- A node that lists, where it answers, the logs of all blocks of the range.
abbrev pub IsComplete : (ℕ → List Log) → Node → Type 0
IsComplete chain node =
    (from to b : ℕ) (logs : List Log)
    → node.get_logs (pos from) to ≡ some logs
    → from ≤ b
    → b ≤ to
    → All (IsListed logs) (chain b)

listed-IsIndexed :
    (table : List Transfer) (logs : List Log) (log : Log)
    → All (IsIndexed table) logs
    → IsListed logs log
    → IsIndexed table log
listed-IsIndexed table [] log h there = absurd (cc there)
listed-IsIndexed table (l ∷ logs) log h there =
    elim (Bool-cases (l.transaction_hash == log.transaction_hash)) [
      | inl same ↦
          subst (λ k. is_indexed k table ≡ true)
            ((eq_iff l.transaction_hash log.transaction_hash).0 same) h.0
      | inr other ↦ listed-IsIndexed table logs log h.1 (rw other at there)
    ]

All-listed-IsIndexed :
    (table : List Transfer) (logs block : List Log)
    → All (IsIndexed table) logs
    → All (IsListed logs) block
    → All (IsIndexed table) block
All-listed-IsIndexed table logs [] h there = tt
All-listed-IsIndexed table logs (log ∷ block) h there =
    (listed-IsIndexed table logs log h there.0, All-listed-IsIndexed table logs block h there.1)

All-grown :
    (old new : List Transfer) (block : List Log)
    → ((k : String) → is_indexed k old ≡ true → is_indexed k new ≡ true)
    → All (IsIndexed old) block
    → All (IsIndexed new) block
All-grown old new [] f h = tt
All-grown old new (log ∷ block) f h = (f log.transaction_hash h.0, All-grown old new block f h.1)

module _ (chain : ℕ → List Log) (first : ℕ) where
  -- The blocks behind the first one, up to the last that was scanned, are indexed; each transaction once.
  abbrev IsCovered : State → Type 0
  IsCovered s =
      ((b : ℕ) → first < b → b ≤ s.client.last_block → All (IsIndexed s.transfers) (chain b))
      × (0 < s.client.last_block)
      × HasUniqueTxs s.transfers

  scanned :
      (logs : List Log) (s : State) (latest : ℕ)
      → IsCovered s
      → s.client.last_block + 1 ≤ latest
      → ((b : ℕ) → s.client.last_block + 1 ≤ b → b ≤ latest → All (IsListed logs) (chain b))
      → IsCovered (at_block latest (process_logs (λ log. true) logs s))
  scanned logs s latest h ahead listed =
      let grown = process_logs-IsGrown (λ log. true) logs s in
      let u = process_logs (λ log. true) logs s in
      (
        λ b behind below. elim (Bool-cases (leb b s.client.last_block)) [
          | inl old ↦
              All-grown s.transfers u.transfers (chain b) grown.0
                (h.0 b behind (ground (arith, old)))
          | inr new ↦
              All-listed-IsIndexed u.transfers logs (chain b) (process_logs-indexes logs s)
                (listed b (ground (arith, new)) below)
        ],
        omega (arith, ahead),
        grown.1 h.2,
      )

  index_chain-IsCovered :
      (node : Node) (s : State)
      → IsComplete chain node
      → IsCovered s
      → IsCovered (index_chain true (λ log. true) node s)
  unfolding index_chain
  index_chain-IsCovered node s complete h =
      let from = s.client.last_block + 1 in
      elim (Option-cases node.get_block_number) [
        | inl failed ↦ rw failed h
        | inr (latest, head) ↦
            rw (head, lt→ltb 0 s.client.last_block h.1)
              (if-split IsCovered (ltb latest from) (λ _. h)
                (λ ahead. elim (Option-cases (node.get_logs (pos from) latest)) [
                  | inl failed ↦ rw failed h
                  | inr (logs, found) ↦ rw found (
                      scanned logs s latest h (ground (arith, ahead))
                        (λ b after before. complete from latest b logs found after before))
                ]))
      ]

  index_cycles-IsCovered :
      (nodes : List Node) (s : State)
      → All (IsComplete chain) nodes
      → IsCovered s
      → IsCovered (index_cycles (λ log. true) nodes s)
  unfolding index_cycles
  index_cycles-IsCovered [] s complete h = h
  index_cycles-IsCovered (node ∷ nodes) s complete h =
      index_cycles-IsCovered nodes (index_chain true (λ log. true) node s) complete.1
        (index_chain-IsCovered node s complete.0 h)

-- While the database answers, no transaction is passed by, whenever the node fails to answer: where the node
-- lists all logs of the blocks that it is asked for, and a block has been scanned before, then after any
-- number of cycles the transaction of each log of a block behind that one, up to the last that has been
-- scanned since, is in the table; and no transaction is there twice, if none was before.
pub index_cycles-indexes :
    (chain : ℕ → List Log) (nodes : List Node) (s : State) (b : ℕ)
    → All (IsComplete chain) nodes
    → 0 < s.client.last_block
    → HasUniqueTxs s.transfers
    → s.client.last_block < b
    → b ≤ (index_cycles (λ log. true) nodes s).client.last_block
    → All (IsIndexed (index_cycles (λ log. true) nodes s).transfers) (chain b)
      × HasUniqueTxs (index_cycles (λ log. true) nodes s).transfers
index_cycles-indexes chain nodes s b complete started unique behind below =
    let start : IsCovered chain s.client.last_block s =
      (λ c after before. absurd (omega (arith, after, before)), started, unique) in
    let done = index_cycles-IsCovered chain s.client.last_block nodes s complete start in
    (done.0 b behind below, done.2)
