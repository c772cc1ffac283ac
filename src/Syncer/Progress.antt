-- ===== src/Syncer/Progress.antt =====
-- The sync loop of syncer.ts where `getEvents` answers.
use mathlib.Core.List.{append-nil, append_assoc}
use quipay_backend.Prelude.{
  ℕ, zero, suc, ◌+◌, ◌≤◌, ◌<◌, String, ◌≡◌, refl, sym, ap, ◌∙◌, inl, inr, Bool, false, Option, none,
  some, List, [], ◌∷◌, ◌++◌, arith, leb, Bool-cases, Option-cases, if-both, if-true, if-false,
  nat_eq, string_eq, All,
}
use quipay_backend.Jobs.{JobError, World, called}
use quipay_backend.Jobs.Laws.{enqueue_job-first}
use quipay_backend.Syncer.{
  Sync, SyncPayload, ingest_event, ingest_events, ingest_kind, last_ledger, next_cursor, sync_job,
  sync_options, sync_batch, sync_loop,
}
use quipay_backend.Syncer.Events.{Event, Runtime, Kind, SyncedStreamEvent, parse_event}

-- The answers are events from the asked ledger on.
abbrev pub Answers : (ℕ → ℕ → Option (List Event)) → Type 0
Answers rpc = (k c : ℕ) → (es : List Event) × (rpc k c ≡ some es) × All (λ e. c ≤ e.ledger) es

last_ledger-ge :
    (c : ℕ) (e : Event) (es : List Event) → All (λ e. c ≤ e.ledger) (e ∷ es) → c ≤ last_ledger e es
last_ledger-ge c e [] h = h.0
last_ledger-ge c e (f ∷ es) h = last_ledger-ge c f es h.1

pub next_cursor-gt :
    (c latest : ℕ) (es : List Event)
    → c ≤ latest
    → All (λ e. c ≤ e.ledger) es
    → c < next_cursor latest es
next_cursor-gt c latest [] h k = omega arith
next_cursor-gt c latest (e ∷ es) h k = omega (arith, last_ledger-ge c e es k)

module _ {A : Type 0} where
  -- Ingesting leaves the loop's variables.
  abbrev SameLoop : Sync A → Sync A → Type 0
  SameLoop t s = (t.ingested ≡ s.ingested) × (t.cursor ≡ s.cursor) × (t.requests ≡ s.requests)

  ingest_kind-SameLoop :
      (k : Kind) (p : SyncedStreamEvent) (l : ℕ) (s : Sync A) → SameLoop (ingest_kind k p l s) s
  unfolding ingest_kind
  ingest_kind-SameLoop Kind.stream_created p l s = (refl, refl, refl)
  ingest_kind-SameLoop _ p l s = (refl, refl, refl)

module _ {A : Type 0} (js : Runtime) (write_fails : Event → Bool) where
  -- The loop has gone through these events more, and has left its other variables.
  abbrev HasSeen : List Event → Sync A → Sync A → Type 0
  HasSeen es t s =
      (t.ingested ≡ s.ingested ++ es) × (t.cursor ≡ s.cursor) × (t.requests ≡ s.requests)

  ingest_event-HasSeen :
      (e : Event) (s : Sync A) → HasSeen (e ∷ []) (ingest_event js write_fails e s) s
  unfolding ingest_event
  ingest_event-HasSeen e s =
      let seen : Sync A = record s { ingested = s.ingested ++ e ∷ [] } in
      elim (Option-cases (parse_event js e)) [
        | inl skipped ↦ rw (skipped, ingest_event) (refl, refl, refl)
        | inr (p, parsed) ↦
            rw (parsed, ingest_event)
              (if-both (λ t. HasSeen (e ∷ []) t s) (write_fails e) (refl, refl, refl)
                (ingest_kind-SameLoop p.kind p e.ledger seen))
      ]

  ingest_events-HasSeen :
      (es : List Event) (s : Sync A) → HasSeen es (ingest_events js write_fails es s) s
  unfolding ingest_events
  ingest_events-HasSeen [] s = (sym (append-nil s.ingested), refl, refl)
  ingest_events-HasSeen (e ∷ es) s =
      let first = ingest_event-HasSeen e s in
      let rest = ingest_events-HasSeen es (ingest_event js write_fails e s) in
      (
        rest.0 ∙ ap (λ l. l ++ es) first.0 ∙ append_assoc s.ingested (e ∷ []) es,
        rest.1 ∙ first.1,
        rest.2 ∙ first.2,
      )

module _ {A : Type 0} (js : Runtime) (write_fails : Event → Bool)
    (rpc : ℕ → ℕ → Option (List Event)) (contract : String) (dlq_up : Bool) (latest : ℕ) where
  abbrev job : Sync A → Sync A × Option JobError
  job = sync_job js write_fails rpc contract dlq_up false latest

  sync_job-answered :
      (es : List Event) (s : Sync A)
      → rpc s.requests s.cursor ≡ some es
      → ((job s).0.ingested ≡ s.ingested ++ es)
        × ((job s).0.cursor ≡ next_cursor latest es)
        × ((job s).1 ≡ none)
  unfolding sync_job
  sync_job-answered es s answered =
      let seen = ingest_events-HasSeen js write_fails es (record s { requests = s.requests + 1 }) in
      rw (answered, sync_job) (seen.0, refl, refl)

  sync_batch-first :
      (w : World (Sync A) SyncPayload (Unit {0}))
      → (job w.state).1 ≡ none
      → (sync_batch js write_fails rpc contract dlq_up false latest w).state ≡ (job w.state).0
  unfolding sync_batch
  sync_batch-first w done =
      rw
        (
          enqueue_job-first (sync_options contract w.state.cursor) dlq_up job 2 w refl done,
          sync_batch,
        )
        (unfold called in refl)

  -- What a batch does whose request is answered.
  pub sync_batch-answered :
      (es : List Event) (w : World (Sync A) SyncPayload (Unit {0}))
      → rpc w.state.requests w.state.cursor ≡ some es
      → let v = sync_batch js write_fails rpc contract dlq_up false latest w in
        (v.state.ingested ≡ w.state.ingested ++ es) × (v.state.cursor ≡ next_cursor latest es)
  sync_batch-answered es w answered =
      let (events, cursor, fine) = sync_job-answered es w.state answered in
      let state = sync_batch-first w fine in
      (ap (λ (s : Sync A). s.ingested) state ∙ events, ap (λ (s : Sync A). s.cursor) state ∙ cursor)

  -- If every `getEvents` answers with events from the asked ledger on, the loop ends within
  -- `latest + 2 - cursor` rounds, and the cursor is then past the latest ledger.
  pub sync_loop-ends :
      (fuel : ℕ) (w : World (Sync A) SyncPayload (Unit {0}))
      → Answers rpc
      → latest + 1 < fuel + w.state.cursor
      → 0 < fuel
      → (v : World (Sync A) SyncPayload (Unit {0})) × (sync_loop js write_fails rpc contract dlq_up
            false fuel latest w
          ≡ some v)
        × (latest < v.state.cursor)
  unfolding sync_loop
  sync_loop-ends zero w answers h pos = absurd (omega arith)
  sync_loop-ends (suc fuel) w answers h pos = elim (Bool-cases (leb w.state.cursor latest)) [
    | inl more ↦
        let (es, answered, from) = answers w.state.requests w.state.cursor in
        let next = sync_batch js write_fails rpc contract dlq_up false latest w in
        let cursor = (sync_batch-answered es w answered).1 in
        let grows = next_cursor-gt w.state.cursor latest es (ground arith) from in
        let (v, ends, past) =
          sync_loop-ends fuel next answers (omega (arith, cursor)) (ground arith) in
        (v, if-true _ (some w) more ∙ ends, past)
    | inr done ↦ (
      w,
      if-false _
          (sync_loop js write_fails rpc contract dlq_up false fuel latest
            (sync_batch js write_fails rpc contract dlq_up false latest w))
          done,
      ground arith,
    )
  ]
