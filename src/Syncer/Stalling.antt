-- ===== src/Syncer/Stalling.antt =====
-- The sync loop of syncer.ts where `getEvents` keeps failing at a ledger.
use quipay_backend.Prelude.{
  ℕ, zero, suc, ◌≤◌, String, ◌≡◌, refl, ap, ◌∙◌, inl, inr, Bool, false, Option, none, some, List,
  arith, le→leb, if-true, nat_eq, string_eq,
}
use quipay_backend.Jobs.{JobError, World}
use quipay_backend.Jobs.Laws.{after, Fails, enqueue_job-outcome}
use quipay_backend.Syncer.{
  Sync, SyncPayload, sync_job, sync_options, sync_batch, sync_loop, get_events_failed,
}
use quipay_backend.Syncer.Events.{Event, Runtime}

module _ {A : Type 0} (js : Runtime) (write_fails : Event → Bool)
    (rpc : ℕ → ℕ → Option (List Event)) (contract : String) (dlq_up : Bool) (latest : ℕ) where
  abbrev job : Sync A → Sync A × Option JobError
  job = sync_job js write_fails rpc contract dlq_up false latest

  -- A call at a ledger where `getEvents` fails leaves the cursor, and fails.
  sync_job-stuck :
      (c : ℕ) (s : Sync A)
      → ((k : ℕ) → rpc k c ≡ none)
      → s.cursor ≡ c
      → ((job s).0.cursor ≡ c) × Fails job s
  unfolding sync_job
  sync_job-stuck c s down e =
      let failed : rpc s.requests s.cursor ≡ none = ap (rpc s.requests) e ∙ down s.requests in
      (ground (arith, failed, e), (get_events_failed, ground (arith, failed)))

  after-stuck :
      (c k : ℕ) (s : Sync A)
      → ((k : ℕ) → rpc k c ≡ none)
      → s.cursor ≡ c
      → (after job k s).cursor ≡ c
  after-stuck c zero s down e = e
  after-stuck c (suc k) s down e = after-stuck c k (job s).0 down (sync_job-stuck c s down e).0

  -- So the batch's job is exhausted, and the cursor stays.
  sync_batch-stuck :
      (c : ℕ) (w : World (Sync A) SyncPayload (Unit {0}))
      → ((k : ℕ) → rpc k c ≡ none)
      → w.state.cursor ≡ c
      → (sync_batch js write_fails rpc contract dlq_up false latest w).state.cursor ≡ c
  unfolding sync_batch
  sync_batch-stuck c w down e =
      let (v, done, how) =
        enqueue_job-outcome (sync_options contract w.state.cursor) dlq_up job 2 w refl in
      rw (done, sync_batch)
        (elim how [
          | inl ok ↦
              let (_, (error, failed)) =
                sync_job-stuck c (after job ok.k w.state) down
                  (after-stuck c ok.k w.state down e) in
              absurd (cc (failed, ok.success))
          | inr bad ↦ rw bad.state (after-stuck c 3 w.state down e)
        ])

  -- If `getEvents` throws at every call from one ledger, up to the latest one, and the cursor of the
  -- sync reaches it, the loop does not end: it runs out of any fuel. The queue swallows the error
  -- of the exhausted job, so the branch that skips the batch is not taken.
  pub sync_loop-stalls :
      (c fuel : ℕ) (w : World (Sync A) SyncPayload (Unit {0}))
      → ((k : ℕ) → rpc k c ≡ none)
      → w.state.cursor ≡ c
      → c ≤ latest
      → sync_loop js write_fails rpc contract dlq_up false fuel latest w ≡ none
  unfolding sync_loop
  sync_loop-stalls c zero w down e h = refl
  sync_loop-stalls c (suc fuel) w down e h =
      let next = sync_batch js write_fails rpc contract dlq_up false latest w in
      let rest = sync_loop-stalls c fuel next down (sync_batch-stuck c w down e) h in
      if-true _ (some w) (le→leb w.state.cursor latest (omega arith)) ∙ rest
