-- ===== src/Syncer/Coverage.antt =====
-- Which events the sync of syncer.ts ingests, where `getEvents` answers as its documentation says:
-- the first events of the chain from the asked ledger on, in the chain's order, at most `limit`.
use mathlib.Core.List.{append_assoc, append-nil}
use quipay_backend.Prelude.{
  ℕ, zero, suc, ◌≤◌, String, ◌≡◌, sym, ap, ◌∙◌, inl, inr, Bool, false, Option, some, List, [], ◌++◌,
  arith, leb, le→leb, Bool-cases, if-true, if-false, nat_eq, string_eq, take, All, All-append,
}
use quipay_backend.Jobs.{World}
use quipay_backend.Syncer.{Sync, SyncPayload, batch_size, next_cursor, sync_batch, sync_loop}
use quipay_backend.Syncer.Events.{Event, Runtime}
use quipay_backend.Syncer.Progress.{next_cursor-gt, sync_batch-answered}
use quipay_backend.Syncer.Windows.{from, Documented, All-from, All-take, All-weaken}

module _ {A : Type 0} (js : Runtime) (write_fails : Event → Bool)
    (rpc : ℕ → ℕ → Option (List Event)) (contract : String) (dlq_up : Bool) (latest : ℕ)
    (chain : List Event) (documented : Documented chain rpc) where
  abbrev loop :
      ℕ → World (Sync A) SyncPayload (Unit {0}) → Option (World (Sync A) SyncPayload (Unit {0}))
  loop fuel w = sync_loop js write_fails rpc contract dlq_up false fuel latest w

  abbrev next : World (Sync A) SyncPayload (Unit {0}) → World (Sync A) SyncPayload (Unit {0})
  next w = sync_batch js write_fails rpc contract dlq_up false latest w

  sync_loop-window :
      (fuel : ℕ) (w v : World (Sync A) SyncPayload (Unit {0}))
      → loop fuel w ≡ some v
      → (more : List Event) × (v.state.ingested ≡ w.state.ingested ++ more)
        × All (λ e. w.state.cursor ≤ e.ledger) more
  unfolding sync_loop
  sync_loop-window zero w v e = cc
  sync_loop-window (suc fuel) w v e = elim (Bool-cases (leb w.state.cursor latest)) [
    | inl running ↦
        let c = w.state.cursor in
        let es = take batch_size (from c chain) in
        let (events, cursor) =
          sync_batch-answered js write_fails rpc contract dlq_up latest es w (documented _ c) in
        let (more, ingested, later) =
          sync_loop-window fuel (next w) v (sym (if-true _ (some w) running) ∙ e) in
        let below = All-take _ batch_size (from c chain) (All-from c chain) in
        let grows = next_cursor-gt c latest es (ground arith) below in
        (
          es ++ more,
          ingested ∙ ap (λ l. l ++ more) events ∙ append_assoc w.state.ingested es more,
          All-append (λ f. c ≤ f.ledger) es more below
              (All-weaken c (next w).state.cursor more (omega (arith, cursor)) later),
        )
    | inr done ↦
        let same : some w ≡ some v = sym (if-false _ (loop fuel (next w)) done) ∙ e in
        let stopped : v ≡ w = cc same in
        (
          [],
          ap (λ (u : World (Sync A) SyncPayload (Unit {0})). u.state.ingested) stopped
              ∙ sym (append-nil w.state.ingested),
          tt,
        )
  ]

  -- After a batch the sync ingests only events of ledgers behind the batch's last one: if a batch
  -- ends inside a ledger, the rest of that ledger's events are never ingested, though the loop ends
  -- and the cursor of the store passes them.
  pub sync_loop-skips :
      (fuel : ℕ) (w v : World (Sync A) SyncPayload (Unit {0}))
      → w.state.cursor ≤ latest
      → loop (suc fuel) w ≡ some v
      → let batch = take batch_size (from w.state.cursor chain) in
        (more : List Event) × (v.state.ingested ≡ w.state.ingested ++ (batch ++ more))
        × All (λ e. next_cursor latest batch ≤ e.ledger) more
  unfolding sync_loop
  sync_loop-skips fuel w v h e =
      let c = w.state.cursor in
      let es = take batch_size (from c chain) in
      let (events, cursor) =
        sync_batch-answered js write_fails rpc contract dlq_up latest es w (documented _ c) in
      let (more, ingested, later) =
        sync_loop-window fuel (next w) v (sym (if-true _ (some w) (le→leb c latest h)) ∙ e) in
      (
        more,
        ingested ∙ ap (λ l. l ++ more) events ∙ append_assoc w.state.ingested es more,
        All-weaken (next_cursor latest es) (next w).state.cursor more (omega (arith, cursor)) later,
      )
