-- ===== src/Syncer.antt =====
-- syncer.ts: the historical sync of contract events into the store. The network, the queue's state
-- and the database's failures are parameters: `rpc k c` is the answer to the `k`-th `getEvents`
-- from ledger `c` (`none` if it throws), and `write_fails` says which events' writes throw. The
-- log calls are left out.
pub mod Windows
pub mod Events
pub mod Progress
pub mod Stalling
pub mod Coverage
mod Tests
use quipay_backend.Prelude.{
  ℕ, zero, suc, ◌+◌, ◌-◌, ◌*◌, ◌/◌, ◌%◌, ◌^◌, ◌≤◌, ◌<◌, max, min, String, ◌≡◌, refl, sym, ap, ◌∙◌,
  ◌≢◌, ◌↔◌, ◌⊎◌, inl, inr, Bool, true, false, not, ◌&&◌, ◌||◌, Option, none, some, List, [], ◌∷◌,
  ◌++◌, map, arith, eq_iff, ltb, leb, eqb, if◌then◌else◌, lt→ltb, le→leb, eqb_iff, Bool-cases,
  Option-cases, or_else, if-both, if-true, Key, ◌==◌, nat_eq, string_eq, ==_refl, length, get_elem?,
  take, drop, keep, any, find, length-append, length-drop, length-take, take-append-drop, All,
  All-append, All-drop,
}
use mathlib.Core.Option
use quipay_backend.Int.{ℤ, pos}
use quipay_backend.Streams.{
  Status, active, cancelled, Store, UpsertParams, Withdrawal, upsert_stream, record_withdrawal,
  get_last_synced_ledger, update_sync_cursor,
}
use quipay_backend.Jobs.{JobError, JobOptions, World, Promised, resolved, rejected, enqueue_job}
use Events.{
  Event, Runtime, Kind, stream_created, funds_withdrawn, stream_cancelled, SyncedStreamEvent,
  parse_event,
}

-- A message of `emitStreamEvent`.
pub record Emitted : Type 0 where
  pub event_type : String
  pub stream_id : ℕ
  pub employer : Option String
  pub worker : String

-- The store, the messages sent, and the variables of `runSync`'s closure. `ingested` records which
-- events the loop of `ingestEvents` has gone through, and `requests` how often `getEvents` was called.
pub record Sync (A : Type 0) : Type 0 where
  pub store : Store A
  pub emitted : List Emitted
  pub ingested : List Event
  pub cursor : ℕ
  pub total_ingested : ℕ
  pub requests : ℕ

-- `payload` of the jobs of `runSync`.
pub record SyncPayload : Type 0 where
  pub start_ledger : ℕ
  pub limit : ℕ
  pub contract : String

abbrev pub batch_size : ℕ
batch_size = 200

upsert_of : SyncedStreamEvent → Status → Option ℕ → ℕ → UpsertParams
upsert_of parsed status closed_at ledger = record {
  stream_id = parsed.stream_id;
  employer = parsed.employer_address;
  worker = parsed.worker_address;
  total_amount = or_else parsed.total_amount (pos 0);
  withdrawn_amount = pos 0;
  start_ts = or_else parsed.start_ts (pos 0);
  end_ts = or_else parsed.end_ts (pos 0);
  status = status;
  closed_at = closed_at;
  ledger = ledger;
  changed_by = none;
}

withdrawal_of : SyncedStreamEvent → ℕ → Withdrawal
withdrawal_of parsed ledger = record {
  stream_id = parsed.stream_id;
  worker = parsed.worker_address;
  amount = or_else parsed.withdrawn_amount (pos 0);
  ledger = ledger;
  ledger_ts = ledger;
}

message : String → SyncedStreamEvent → Option String → Emitted
message event_type parsed employer = record {
  event_type = event_type;
  stream_id = parsed.stream_id;
  employer = employer;
  worker = parsed.worker_address;
}

module _ {A : Type 0} where
  emit : Emitted → Sync A → Sync A
  emit m s = record s { emitted = s.emitted ++ m ∷ [] }

  -- The branches of `ingestEvents` on the kind of a parsed event.
  ingest_kind : Kind → SyncedStreamEvent → ℕ → Sync A → Sync A
  unfolding emit upsert_of withdrawal_of message
  ingest_kind stream_created parsed ledger s =
      emit (message "stream_created" parsed (some parsed.employer_address))
        (record s { store = upsert_stream (upsert_of parsed active none ledger) s.store })
  ingest_kind funds_withdrawn parsed ledger s =
      emit (message "withdrawal" parsed none)
        (record s { store = record_withdrawal (withdrawal_of parsed ledger) s.store })
  ingest_kind stream_cancelled parsed ledger s =
      emit (message "stream_cancelled" parsed (some parsed.employer_address)) (record s {
        store = upsert_stream (upsert_of parsed cancelled (some ledger) ledger) s.store;
      })

module _ {A : Type 0} (js : Runtime) (write_fails : Event → Bool) where
  -- One round of `ingestEvents`. A write that throws is rolled back and logged, and the loop goes on.
  pub ingest_event : Event → Sync A → Sync A
  unfolding ingest_kind
  ingest_event event s =
      let seen = record s { ingested = s.ingested ++ event ∷ [] } in
      elim (parse_event js event) [
        | none ↦ seen
        | some parsed ↦
            if write_fails event then seen else ingest_kind parsed.kind parsed event.ledger seen
      ]

  pub ingest_events : List Event → Sync A → Sync A
  ingest_events [] s = s
  ingest_events (event ∷ events) s = ingest_events events (ingest_event event s)

-- `events[events.length - 1].ledger`
abbrev pub last_ledger : Event → List Event → ℕ
last_ledger event [] = event.ledger
last_ledger event (next ∷ events) = last_ledger next events

-- The error of a `getEvents` that throws.
abbrev pub get_events_failed : JobError
get_events_failed = record { message = "getEvents failed"; stack = none }

-- The cursor after a batch: past its last event's ledger, or past the end if it is empty.
abbrev pub next_cursor : ℕ → List Event → ℕ
next_cursor latest [] = latest + 1
next_cursor latest (event ∷ events) = last_ledger event events + 1

pub sync_options : String → ℕ → JobOptions SyncPayload (Unit {0})
sync_options contract cursor = record {
  job_type = "ledger_sync_batch";
  payload = record { start_ledger = cursor; limit = batch_size; contract = contract };
  context = tt;
  max_retries = 3;
  base_delay_ms = 3000;
}

-- `CONTRACT_ID || "default"`
cursor_key : String → String
cursor_key contract = if contract == "" then "default" else contract

module _ {A : Type 0} (js : Runtime) (write_fails : Event → Bool)
    (rpc : ℕ → ℕ → Option (List Event)) (contract : String) (dlq_up shutting_down : Bool) where
  -- The closure that `runSync` enqueues.
  pub sync_job : ℕ → Sync A → Sync A × Option JobError
  sync_job latest s =
      let asked = record s { requests = s.requests + 1 } in
      elim (rpc s.requests s.cursor) [
        | none ↦ (asked, some get_events_failed)
        | some events ↦
            let done = ingest_events js write_fails events asked in
            (
              record done {
                cursor = next_cursor latest events;
                total_ingested = done.total_ingested + length events;
              },
              none,
            )
      ]

  -- The body of the loop: `try { await enqueueJob(…) } catch { cursor += BATCH_SIZE }`.
  pub sync_batch : ℕ → World (Sync A) SyncPayload (Unit {0}) → World (Sync A) SyncPayload (Unit {0})
  unfolding sync_options
  sync_batch latest w =
      elim (enqueue_job (sync_options contract w.state.cursor) dlq_up shutting_down
        (sync_job latest) w) [
          | resolved v ↦ v
          | rejected ↦ record w { state = record w.state { cursor = w.state.cursor + batch_size } }
        ]

  -- `while (cursor <= latestLedger)`, on fuel; `none` means that it ran out.
  pub sync_loop :
      ℕ → ℕ → World (Sync A) SyncPayload (Unit {0}) → Option (World (Sync A) SyncPayload (Unit {0}))
  sync_loop zero latest w = none
  sync_loop (suc fuel) latest w =
      let rest = sync_loop fuel latest (sync_batch latest w) in
      if leb w.state.cursor latest then rest else some w

  set_store :
      Store A → World (Sync A) SyncPayload (Unit {0}) → World (Sync A) SyncPayload (Unit {0})
  set_store store w = record w { state = record w.state { store = store } }

  -- The task of `runSync`, where `latest` is the answer of `getLatestLedger`.
  pub sync_task :
      ℕ
      → ℕ
      → ℕ
      → World (Sync A) SyncPayload (Unit {0})
      → Option (World (Sync A) SyncPayload (Unit {0}))
  unfolding set_store cursor_key
  sync_task fuel sync_start latest w =
      let start =
        max (get_last_synced_ledger (cursor_key contract) w.state.store + 1) (sync_start + 1) in
      let started = record w { state = record w.state { cursor = start; total_ingested = 0 } } in
      if ltb latest start
      then some w
      else Option.map
          (λ v. set_store (update_sync_cursor (cursor_key contract) latest v.state.store) v)
          (sync_loop fuel latest started)
