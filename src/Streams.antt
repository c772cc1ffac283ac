-- ===== src/Streams.antt =====
-- db/queries.ts: the stream, treasury, audit and withdrawal tables and the operations that change
-- them, with the cache that they invalidate. A table is a list or an association list by its
-- primary key; a transaction is one step, since the hooks that break it are for tests only. `NOW()`
-- columns and the Redis copy of the payroll summaries are left out. `A` is what the cache holds.
pub mod Balances
pub mod Effects
pub mod Reconcile
pub mod Caching
pub mod Refunds
mod Tests
use quipay_backend.Prelude.{
  ℕ, ◌+◌, ◌-◌, String, Bool, true, false, Option, none, some, List, [], ◌∷◌, ◌++◌, if◌then◌else◌,
  or_else, nat_eq, string_eq,
}
use Prim.Native.String
use quipay_backend.Int.{ℤ, pos, ◌+ℤ◌, ◌-ℤ◌, at_least_zero}
use quipay_backend.Map
use quipay_backend.Cache.{SimpleCache}
use quipay_backend.Cache

pub data Status : Type 0 where
  active paused completed cancelled : Status

-- What `softDeleteStream` writes in `deleted_at`, `deleted_by` and `cancel_reason`.
pub record Deletion : Type 0 where
  pub deleted_by : String
  pub cancel_reason : Option String

-- A row of `payroll_streams`, but for its key.
pub record StreamRow : Type 0 where
  pub employer_address : String
  pub worker_address : String
  pub total_amount : ℤ
  pub withdrawn_amount : ℤ
  pub start_ts : ℤ
  pub end_ts : ℤ
  pub status : Status
  pub closed_at : Option ℕ
  pub ledger_created : ℕ
  pub deletion : Option Deletion

-- A row of `treasury_balances`, but for its key, the employer.
pub record Treasury : Type 0 where
  pub balance : ℤ
  pub token : String

-- A row of `stream_audit_log`: the action with the amount of its metadata.
pub data Action : Type 0 where
  created : (total_amount : ℤ) → Action
  cancelled : (old_status : Status) (reason : Option String) (refund_amount : ℤ) → Action

pub record AuditEntry : Type 0 where
  pub stream_id : ℕ
  pub changed_by : String
  pub action : Action

pub record Withdrawal : Type 0 where
  pub stream_id : ℕ
  pub worker : String
  pub amount : ℤ
  pub ledger : ℕ
  pub ledger_ts : ℕ

pub record Store (A : Type 0) : Type 0 where
  pub connected : Bool
  pub streams : List (ℕ × StreamRow)
  pub treasury : List (String × Treasury)
  pub audit_log : List AuditEntry
  pub withdrawals : List Withdrawal
  pub sync_cursors : List (String × ℕ)
  pub cache : SimpleCache A

-- The parameters of `upsertStream`.
pub record UpsertParams : Type 0 where
  pub stream_id : ℕ
  pub employer : String
  pub worker : String
  pub total_amount : ℤ
  pub withdrawn_amount : ℤ
  pub start_ts : ℤ
  pub end_ts : ℤ
  pub status : Status
  pub closed_at : Option ℕ
  pub ledger : ℕ
  pub changed_by : Option String

-- `INSERT … ON CONFLICT (employer) DO NOTHING` with balance 0.
ensure_treasury : String → List (String × Treasury) → List (String × Treasury)
ensure_treasury employer t = elim (Map.lookup employer t) [
  | none ↦ Map.insert employer (record { balance = pos 0; token = "USDC" }) t
  | some _ ↦ t
]

-- `UPDATE treasury_balances SET balance = balance + $2 WHERE employer = $1`
add_balance : String → ℤ → List (String × Treasury) → List (String × Treasury)
add_balance employer amount t = elim (Map.lookup employer t) [
  | none ↦ t
  | some row ↦ Map.insert employer (record row { balance = row.balance +ℤ amount }) t
]

pub adjust_treasury : String → ℤ → List (String × Treasury) → List (String × Treasury)
unfolding ensure_treasury add_balance
adjust_treasury employer amount t = add_balance employer amount (ensure_treasury employer t)

pub new_row : UpsertParams → StreamRow
new_row p = record {
  employer_address = p.employer;
  worker_address = p.worker;
  total_amount = p.total_amount;
  withdrawn_amount = p.withdrawn_amount;
  start_ts = p.start_ts;
  end_ts = p.end_ts;
  status = p.status;
  closed_at = p.closed_at;
  ledger_created = p.ledger;
  deletion = none;
}

-- `ON CONFLICT (stream_id) DO UPDATE SET …`
pub updated_row : UpsertParams → StreamRow → StreamRow
updated_row p row = record row {
  withdrawn_amount = p.withdrawn_amount;
  status = p.status;
  closed_at = p.closed_at;
}

abbrev pub address_key : String → String
address_key address = String.◌++◌ "analytics:address:" address

abbrev pub payroll_prefix : String → String
payroll_prefix employer = String.◌++◌ (String.◌++◌ "analytics:payroll:" employer) ":"

abbrev pub summary_prefix : String → String
summary_prefix org = String.◌++◌ (String.◌++◌ "payroll-summary:" org) ":"

module _ {A : Type 0} where
  -- The transaction of `upsertStream`: only a first insertion is charged and logged.
  upsert_rows : UpsertParams → Store A → Store A
  unfolding new_row updated_row
  upsert_rows p s = elim (Map.lookup p.stream_id s.streams) [
    | none ↦ record s {
      streams = Map.insert p.stream_id (new_row p) s.streams;
      treasury = adjust_treasury p.employer (pos 0 -ℤ p.total_amount) s.treasury;
      audit_log =
          s.audit_log
          ++ record {
            stream_id = p.stream_id;
            changed_by = or_else p.changed_by p.employer;
            action = created p.total_amount;
          }
            ∷ [];
    }
    | some row ↦ record s { streams = Map.insert p.stream_id (updated_row p row) s.streams }
  ]

  upsert_cache : UpsertParams → SimpleCache A → SimpleCache A
  upsert_cache p c =
      let c1 = Cache.invalidate_by_prefix (Cache.del c "analytics:summary") "analytics:trends:" in
      let c2 = Cache.del (Cache.del c1 (address_key p.employer)) (address_key p.worker) in
      let c3 = Cache.invalidate_by_prefix c2 (payroll_prefix p.employer) in
      Cache.invalidate_by_prefix c3 (summary_prefix p.employer)

  pub upsert_stream : UpsertParams → Store A → Store A
  unfolding upsert_rows upsert_cache
  upsert_stream p s =
      if s.connected
      then (let t = upsert_rows p s in record t { cache = upsert_cache p t.cache })
      else s

  -- `getStreamById`, which does not see deleted streams.
  pub get_stream_by_id : ℕ → Store A → Option StreamRow
  get_stream_by_id id s = elim (Map.lookup id s.streams) [
    | none ↦ none
    | some row ↦ elim row.deletion [ none ↦ some row | some _ ↦ none ]
  ]

  withdrawal_cache : Option StreamRow → String → SimpleCache A → SimpleCache A
  withdrawal_cache stream worker c =
      let c1 = Cache.del (Cache.del c (address_key worker)) "analytics:summary" in
      elim stream [
        | none ↦ c1
        | some row ↦
            Cache.invalidate_by_prefix
              (Cache.invalidate_by_prefix c1 (payroll_prefix row.employer_address))
              (summary_prefix row.employer_address)
      ]

  pub record_withdrawal : Withdrawal → Store A → Store A
  unfolding withdrawal_cache
  record_withdrawal w s =
      if s.connected
      then (record s {
        withdrawals = s.withdrawals ++ w ∷ [];
        cache = withdrawal_cache (get_stream_by_id w.stream_id s) w.worker s.cache;
      })
      else s

  -- The transaction of `softDeleteStream` for a stream that is there and not deleted. The refund is
  -- `GREATEST(total_amount - withdrawn_amount, 0)`.
  delete_rows : ℕ → Deletion → StreamRow → Store A → Store A
  delete_rows id d row s =
      let refund = at_least_zero (row.total_amount -ℤ row.withdrawn_amount) in
      record s {
        streams = Map.insert id (record row { deletion = some d; status = cancelled }) s.streams;
        treasury = adjust_treasury row.employer_address refund s.treasury;
        audit_log =
            s.audit_log
            ++ record {
              stream_id = id;
              changed_by = d.deleted_by;
              action = cancelled row.status d.cancel_reason refund;
            }
              ∷ [];
        cache =
            Cache.invalidate_by_prefix (Cache.del s.cache "analytics:summary") "analytics:trends:";
      }

  -- `none` is the `DatabaseError` of a missing pool.
  pub soft_delete_stream : ℕ → Deletion → Store A → Option (Bool × Store A)
  unfolding delete_rows
  soft_delete_stream id d s =
      if s.connected
      then (elim (get_stream_by_id id s) [
        | none ↦ some (false, s)
        | some row ↦ some (true, delete_rows id d row s)
      ])
      else none

  pub get_last_synced_ledger : String → Store A → ℕ
  get_last_synced_ledger contract_id s = or_else (Map.lookup contract_id s.sync_cursors) 0

  pub update_sync_cursor : String → ℕ → Store A → Store A
  update_sync_cursor contract_id ledger s = record s {
    sync_cursors = Map.insert contract_id ledger s.sync_cursors;
  }
