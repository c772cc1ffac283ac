-- ===== src/Archive/Emptied.antt =====
-- What a retention cycle of services/archiveService.ts whose statements all answer leaves behind.
use quipay_backend.Prelude.{
  ℕ, ◌+◌, ◌*◌, ◌≤◌, ◌<◌, ◌≡◌, refl, Bool, true, false, ◌&&◌, some, List, [], ◌∷◌, arith, ltb,
  if-split, nat_eq, string_eq, length, take, All,
}
use quipay_backend.Lock.{acquired, Run, with_advisory_lock}
use quipay_backend.Archive.Tables.{
  is_expired_log, is_expired_snapshot, is_expired_event, archived_log, archived_snapshot,
  archived_webhook,
}
use quipay_backend.Archive.Stores.{
  answered, World, Batch, Config, ArchiveRetentionSummary, list_expired, is_last, ends_loop,
  add_result, no_rows, run_single_archive_batch, run_batches, run_archive_retention_cycle,
}
use quipay_backend.Archive.Drained.{count, none-count, batch-count}

-- Three cutoffs, one for each table.
pub record Cutoffs : Type 0 where
  pub audit : ℕ
  pub metric : ℕ
  pub webhook : ℕ

module _ (t : Cutoffs) where
  -- How many rows of the three tables have expired at the cutoffs.
  abbrev pub old_logs : World → ℕ
  old_logs w = count (λ e. is_expired_log t.audit e.1) w.logs.live

  abbrev pub old_snapshots : World → ℕ
  old_snapshots w = count (λ e. is_expired_snapshot t.metric e.1) w.snapshots.live

  abbrev pub old_events : World → ℕ
  old_events w = count (λ e. is_expired_event t.webhook e.1) w.events.live

  abbrev pub HasAtMost : ℕ → World → Type 0
  HasAtMost n w = (old_logs w ≤ n) × (old_snapshots w ≤ n) × (old_events w ≤ n)

  -- No row of the three tables has expired at the cutoffs.
  abbrev pub HasNoOld : World → Type 0
  HasNoOld w =
      All (λ e. is_expired_log t.audit e.1 ≡ false) w.logs.live
      × All (λ e. is_expired_snapshot t.metric e.1 ≡ false) w.snapshots.live
      × All (λ e. is_expired_event t.webhook e.1 ≡ false) w.events.live

  -- A batch whose statements all answer, at cutoffs that are not earlier.
  abbrev pub IsAnswered : Batch → Type 0
  IsAnswered b =
      (t.audit ≤ b.audit_cutoff)
      × (t.metric ≤ b.metric_cutoff)
      × (t.webhook ≤ b.webhook_cutoff)
      × (b.lists ≡ true)
      × (b.audit_answers ≡ answered)
      × (b.metric_answers ≡ answered)
      × (b.webhook_answers ≡ answered)

earlier-cutoff : (time t cutoff : ℕ) → t ≤ cutoff → ltb time t ≡ (ltb time cutoff && ltb time t)
earlier-cutoff time t cutoff h = ground (arith, h)

and_earlier : (b c d : Bool) → d ≡ (c && d) → (b && d) ≡ ((b && c) && d)
and_earlier true c d h = h
and_earlier false c d h = refl

all_true : (a b c : Bool) → (a && (b && c)) ≡ true → (a ≡ true) × (b ≡ true) × (c ≡ true)
all_true true true c h = (refl, refl, h)
all_true true false c h = absurd (cc h)
all_true false b c h = absurd (cc h)

ltb→lt : (a b : ℕ) → ltb a b ≡ true → a < b
ltb→lt a b h = ground (arith, h)

at_most_none : {n : ℕ} → n ≡ 0 → n ≤ 0
at_most_none h = omega (arith, h)

no_more : {n : ℕ} → n ≤ 0 → n ≡ 0
no_more h = omega (arith, h)

module _ (c : Config) (t : Cutoffs) where
  batch-takes :
      (b : Batch) (w : World) (n : ℕ)
      → IsAnswered t b
      → HasAtMost t (c.batch_size + n) w
      → (r : ArchiveRetentionSummary) × ((run_single_archive_batch c b w).0 ≡ some r)
        × HasAtMost t n (run_single_archive_batch c b w).1
        × (is_last c r ≡ true → HasAtMost t 0 (run_single_archive_batch c b w).1)
  unfolding run_single_archive_batch
  batch-takes b w n h most =
      let logs =
        batch-count (is_expired_log b.audit_cutoff) (is_expired_log t.audit) (λ r. r.timestamp)
          t.audit (λ r. earlier-cutoff r.timestamp t.audit b.audit_cutoff h.0)
          (archived_log c.anonymizer) c.batch_size w.logs in
      let snapshots =
        batch-count (is_expired_snapshot b.metric_cutoff) (is_expired_snapshot t.metric)
          (λ r. r.captured_at) t.metric
          (λ r. earlier-cutoff r.captured_at t.metric b.metric_cutoff h.1) archived_snapshot
          c.batch_size w.snapshots in
      let events =
        batch-count (is_expired_event b.webhook_cutoff) (is_expired_event t.webhook)
          (λ r. r.created_at) t.webhook
          (λ r. and_earlier _ _ _ (earlier-cutoff r.created_at t.webhook b.webhook_cutoff h.2))
          (archived_webhook c.anonymizer c.host) c.batch_size w.events in
      rw (h.3, h.4, h.5, h.6)
        (
          record {
            audit_logs_archived = length (
                list_expired (is_expired_log b.audit_cutoff) (λ r. r.timestamp) c.batch_size
                  w.logs.live);
            metric_snapshots_archived = length (
                list_expired (is_expired_snapshot b.metric_cutoff) (λ r. r.captured_at) c.batch_size
                  w.snapshots.live);
            webhook_events_archived = length (
                list_expired (is_expired_event b.webhook_cutoff) (λ r. r.created_at) c.batch_size
                  w.events.live);
          },
          rw (logs.0, snapshots.0, events.0) refl,
          (
            omega (arith, logs.1, most.0),
            omega (arith, snapshots.1, most.1),
            omega (arith, events.1, most.2),
          ),
          λ last.
              let each = all_true _ _ _ last in
              (
                at_most_none (logs.2 (ltb→lt _ _ each.0)),
                at_most_none (snapshots.2 (ltb→lt _ _ each.1)),
                at_most_none (events.2 (ltb→lt _ _ each.2)),
              ),
        )

  batches-empty :
      (bs : List Batch) (w : World × ArchiveRetentionSummary)
      → All (IsAnswered t) bs
      → HasAtMost t (c.batch_size * length bs) w.0
      → ((run_batches c bs w).0 ≡ true) × HasAtMost t 0 (run_batches c bs w).1.0
  unfolding run_batches
  batches-empty [] w h most =
      (refl, (omega (arith, most.0), omega (arith, most.1), omega (arith, most.2)))
  batches-empty (b ∷ bs) w h most =
      let Ends : Run (World × ArchiveRetentionSummary) → Type 0 =
        λ ran. (ran.0 ≡ true) × HasAtMost t 0 ran.1.0 in
      let n = c.batch_size * length bs in
      let took =
        batch-takes b w.0 n h.0
          (omega (arith, most.0), omega (arith, most.1), omega (arith, most.2)) in
      let ran = run_single_archive_batch c b w.0 in
      let next : World × ArchiveRetentionSummary = (ran.1, add_result c w.1 ran.0) in
      if-split Ends (ends_loop c ran.0) (λ last. (rw took.1 refl, took.3 (rw took.1 at last)))
        (λ more. batches-empty bs next h.1 took.2)

  -- A cycle leaves nothing old behind: where both databases are configured, the lock is taken and given
  -- back, all statements of the batches answer, at cutoffs that are not earlier than three given ones,
  -- and each table has at most so many rows that have expired at the given cutoffs as the batches can
  -- take together, the cycle returns a summary, and no row of the three tables has expired at those
  -- cutoffs, even if the loop has ended early.
  pub run_archive_retention_cycle-HasNoOld :
      (batches : List Batch) (w : World)
      → All (IsAnswered t) (take c.max_batches batches)
      → HasAtMost t (c.batch_size * length (take c.max_batches batches)) w
      → ((s : ArchiveRetentionSummary) × ((run_archive_retention_cycle c true true acquired true
              batches w).0
            ≡ some s))
        × HasNoOld t (run_archive_retention_cycle c true true acquired true batches w).1
  unfolding run_archive_retention_cycle with_advisory_lock
  run_archive_retention_cycle-HasNoOld batches w h most =
      let done = batches-empty (take c.max_batches batches) (w, no_rows c) h most in
      let s = (run_batches c (take c.max_batches batches) (w, no_rows c)).1.1 in
      (
        (s, rw done.0 refl),
        (
          none-count _ _ (no_more done.1.0),
          none-count _ _ (no_more done.1.1),
          none-count _ _ (no_more done.1.2),
        ),
      )
