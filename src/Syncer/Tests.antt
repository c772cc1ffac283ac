-- ===== src/Syncer/Tests.antt =====
-- Runs of the sync of syncer.ts, and its laws at inputs.
use quipay_backend.Prelude.{
  ℕ, zero, suc, ◌≤◌, ◌<◌, ◌≡◌, refl, true, false, Option, none, some, List, [], ◌∷◌, ◌++◌, arith,
  nat_eq, string_eq, take, All,
}
use quipay_backend.Int.{pos, ◌-ℤ◌, ◌*ℤ◌}
use quipay_backend.Jobs.{World}
use quipay_backend.Streams.{Store}
use quipay_backend.Syncer.{Sync, SyncPayload, batch_size, sync_loop}
use quipay_backend.Syncer.Events.{
  Event, Runtime, bigint, text, symbol, value, parse_event, stream_created,
}
use quipay_backend.Syncer.Progress.{sync_loop-ends}
use quipay_backend.Syncer.Stalling.{sync_loop-stalls}
use quipay_backend.Syncer.Windows.{from}
use quipay_backend.Syncer.Coverage.{sync_loop-skips}

abbrev js : Runtime
js = record { to_number = λ s. none; to_bigint = λ s. none; to_text = λ v. "value" }

abbrev created : Event
created = record {
  id = "e1";
  ledger = 12;
  topics = symbol "stream" ∷ symbol "created" ∷ value (text "GWRK") ∷ value (text "GEMP") ∷ [];
  value =
      some
        (bigint (pos 4) ∷ text "CUSDC" ∷ bigint (pos 3) ∷ bigint (pos 100) ∷ bigint (pos 140) ∷ []);
}

abbrev later_event : Event
later_event = record created { id = "e2"; ledger = 15 }

abbrev chain : List Event
chain = created ∷ later_event ∷ []

decoded :
    parse_event js created
    ≡ some (record {
      kind = stream_created;
      stream_id = 4;
      employer_address = "GEMP";
      worker_address = "GWRK";
      token_address = some "value";
      total_amount = some (pos 120);
      start_ts = some (pos 100);
      end_ts = some (pos 140);
      withdrawn_amount = none;
    })
unfolding parse_event ◌-ℤ◌ ◌*ℤ◌
decoded = refl

abbrev store : Store ℕ
store = record {
  connected = true;
  streams = [];
  treasury = [];
  audit_log = [];
  withdrawals = [];
  sync_cursors = [];
  cache = [];
}

abbrev world : World (Sync ℕ) SyncPayload (Unit {0})
world = record {
  state = record {
    store = store;
    emitted = [];
    ingested = [];
    cursor = 10;
    total_ingested = 0;
    requests = 0;
  };
  dead_letters = [];
  delays = [];
  calls = 0;
}

abbrev rpc : ℕ → ℕ → Option (List Event)
rpc k c = some (take batch_size (from c chain))

All-take_from : (n c : ℕ) (es : List Event) → All (λ e. c ≤ e.ledger) (take n (from c es))
All-take_from n c es = go n (from c es) (all c es)
  where
    all : (c : ℕ) (es : List Event) → All (λ e. c ≤ e.ledger) (from c es)
    all c [] = tt
    all c (e ∷ es) = ground (arith, all c es)

    go :
        (n : ℕ) (xs : List Event) → All (λ e. c ≤ e.ledger) xs → All (λ e. c ≤ e.ledger) (take n xs)
    go zero xs h = tt
    go (suc n) [] h = tt
    go (suc n) (x ∷ xs) (p, h) = (p, go n xs h)

sync_loop-stalls_example :
    sync_loop {A = ℕ} js (λ e. false) (λ k c. none) "C" true false 50 20 world ≡ none
sync_loop-stalls_example =
    sync_loop-stalls js (λ e. false) (λ k c. none) "C" true 20 10 50 world (λ k. refl) refl
      (omega arith)

sync_loop-ends_example :
    (v : World (Sync ℕ) SyncPayload (Unit {0})) × (sync_loop js
        (λ e. false)
        rpc
        "C"
        true
        false
        30
        20
        world
      ≡ some v)
    × (20 < v.state.cursor)
sync_loop-ends_example =
    sync_loop-ends js (λ e. false) rpc "C" true 20 30 world
      (λ k c. (take batch_size (from c chain), refl, All-take_from batch_size c chain))
      (omega arith) (omega arith)

run_ends :
    (v : World (Sync ℕ) SyncPayload (Unit {0})) × (sync_loop js
        (λ e. false)
        rpc
        "C"
        true
        false
        30
        20
        world
      ≡ some v)
    × (20 < v.state.cursor)
run_ends =
    sync_loop-ends js (λ e. false) rpc "C" true 20 30 world
      (λ k c. (take batch_size (from c chain), refl, All-take_from batch_size c chain))
      (omega arith) (omega arith)

sync_loop-skips_example :
    (more : List Event) × (run_ends.0.state.ingested ≡ chain ++ more)
    × All (λ e. 16 ≤ e.ledger) more
sync_loop-skips_example =
    sync_loop-skips js (λ e. false) rpc "C" true 20 chain (λ k c. refl) 29 world run_ends.0
      (omega arith) run_ends.1
