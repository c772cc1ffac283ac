-- ===== src/Streams/Tests.antt =====
-- Runs of the stream operations of db/queries.ts, and their laws at inputs.
use quipay_backend.Prelude.{
  ℕ, String, ◌≡◌, refl, sym, true, none, some, List, [], ◌∷◌, nat_eq, string_eq,
}
use quipay_backend.Int.{ℤ, pos, negsuc, ◌+ℤ◌, ◌-ℤ◌}
use quipay_backend.Map
use quipay_backend.Streams.{
  StreamRow, Status, active, Store, UpsertParams, Withdrawal, Deletion, updated_row, upsert_stream,
  soft_delete_stream, record_withdrawal,
}
use quipay_backend.Streams.Balances.{balance_of, impacts, IsReconciled}
use quipay_backend.Streams.Reconcile.{
  Operation, upserts, withdraws, soft_deletes, moves_cursor, perform_all, perform_all-IsReconciled,
}
use quipay_backend.Streams.Effects.{upsert_stream-replay}
use quipay_backend.Streams.Refunds.{record_withdrawals, soft_delete_stream-after-withdrawals}

abbrev store : Store ℕ
store = record {
  connected = true;
  streams = [];
  treasury = ("GEMP", record { balance = pos 500; token = "USDC" }) ∷ [];
  audit_log = [];
  withdrawals = [];
  sync_cursors = [];
  cache = ("analytics:summary", record { value = 7; expiry = 90 }) ∷ [];
}

abbrev params : UpsertParams
params = record {
  stream_id = 4;
  employer = "GEMP";
  worker = "GWRK";
  total_amount = pos 120;
  withdrawn_amount = pos 0;
  start_ts = pos 10;
  end_ts = pos 20;
  status = active;
  closed_at = none;
  ledger = 77;
  changed_by = none;
}

abbrev withdrawal : Withdrawal
withdrawal = record { stream_id = 4; worker = "GWRK"; amount = pos 90; ledger = 80; ledger_ts = 80 }

abbrev deletion : Deletion
deletion = record { deleted_by = "admin"; cancel_reason = none }

charged_once :
    balance_of "GEMP" (upsert_stream params (upsert_stream params store)).treasury ≡ pos 380
unfolding upsert_stream quipay_backend.Streams.upsert_rows quipay_backend.Streams.adjust_treasury
    Map.lookup Map.insert ◌+ℤ◌ ◌-ℤ◌
charged_once = refl

abbrev history : List Operation
history =
    upserts params
    ∷ withdraws withdrawal
    ∷ soft_deletes 4 deletion
    ∷ upserts params
    ∷ moves_cursor "CQUIPAY" 80
    ∷ []

perform_all-IsReconciled_example :
    IsReconciled (λ e. balance_of e store.treasury) (perform_all store history)
unfolding impacts
perform_all-IsReconciled_example =
    perform_all-IsReconciled (λ e. balance_of e store.treasury) store history
      (record { known = tt; balanced = λ e. sym (quipay_backend.Int.+ℤ-zero _) })

upsert_stream-replay_example :
    let first = upsert_stream params store in
    let second = upsert_stream params first in
    (second.treasury ≡ first.treasury)
    × (second.audit_log ≡ first.audit_log)
    × ((row : StreamRow) × (Map.lookup 4 first.streams ≡ some row)
        × (Map.lookup 4 second.streams
            ≡ some (record row {
              withdrawn_amount = params.withdrawn_amount;
              status = params.status;
              closed_at = params.closed_at;
            })))
upsert_stream-replay_example = upsert_stream-replay params params store refl refl

soft_delete_stream-after-withdrawals_example :
    (t : Store ℕ) × (soft_delete_stream 4 deletion
        (record_withdrawals (upsert_stream params store) (withdrawal ∷ []))
      ≡ some (true, t))
    × ((e : String) → balance_of e t.treasury ≡ balance_of e store.treasury)
unfolding Map.lookup
soft_delete_stream-after-withdrawals_example =
    soft_delete_stream-after-withdrawals params store (withdrawal ∷ []) deletion 120 refl refl refl
      refl
