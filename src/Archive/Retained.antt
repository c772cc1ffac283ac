-- ===== src/Archive/Retained.antt =====
-- What a retention cycle of services/archiveService.ts does with the rows of the three tables.
use quipay_backend.Prelude.{
  Bool, ◌&&◌, Option, List, [], ◌∷◌, if-both, nat_eq, string_eq, take, any,
}
use quipay_backend.Lock.{LockAnswer, acquired, held, lock_throws, Run, with_advisory_lock}
use quipay_backend.Archive.Tables.{
  AuditLogRow, MetricSnapshotRow, WebhookArchiveRow, is_expired_log, is_expired_snapshot,
  is_expired_event, archived_log, archived_snapshot, archived_webhook,
}
use quipay_backend.Archive.Stores.{
  World, Batch, Config, ArchiveRetentionSummary, ends_loop, add_result, no_rows,
  run_single_archive_batch, run_batches, run_archive_retention_cycle,
}
use quipay_backend.Archive.Kept.{IsSound, IsKept, unchanged-IsKept, IsKept-then, batch-IsStep}

module _ (c : Config) where
  -- The three stores are sound.
  abbrev pub IsSoundWorld : World → Type 0
  IsSoundWorld w =
      IsSound (archived_log c.anonymizer) w.logs
      × IsSound archived_snapshot w.snapshots
      × IsSound (archived_webhook c.anonymizer c.host) w.events

  -- The rows of the three stores are kept, where those that meet the tests may have moved.
  abbrev IsKeptWhere :
      (AuditLogRow → Bool)
      → (MetricSnapshotRow → Bool)
      → (WebhookArchiveRow → Bool)
      → (before after : World) → Type 0
  IsKeptWhere p q r w v =
      IsKept (archived_log c.anonymizer) p w.logs v.logs
      × IsKept archived_snapshot q w.snapshots v.snapshots
      × IsKept (archived_webhook c.anonymizer c.host) r w.events v.events

  -- The same where those may have moved that had expired at the cutoff of one of the batches; a webhook
  -- event that is pending never has.
  abbrev pub IsKeptWorld : List Batch → (before after : World) → Type 0
  IsKeptWorld bs =
      IsKeptWhere (λ r. any (λ (b : Batch). is_expired_log b.audit_cutoff r) bs)
        (λ r. any (λ (b : Batch). is_expired_snapshot b.metric_cutoff r) bs)
        (λ r. any (λ (b : Batch). is_expired_event b.webhook_cutoff r) bs)

  abbrev IsKeptOnce : Batch → (before after : World) → Type 0
  IsKeptOnce b =
      IsKeptWhere (is_expired_log b.audit_cutoff) (is_expired_snapshot b.metric_cutoff)
        (is_expired_event b.webhook_cutoff)

  unchanged_world :
      (p : AuditLogRow → Bool) (q : MetricSnapshotRow → Bool) (r : WebhookArchiveRow → Bool)
      (w : World)
      → IsKeptWhere p q r w w
  unchanged_world p q r w = (
    unchanged-IsKept (archived_log c.anonymizer) p w.logs,
    unchanged-IsKept archived_snapshot q w.snapshots,
    unchanged-IsKept (archived_webhook c.anonymizer c.host) r w.events,
  )

  batch-safe :
      (b : Batch) (w : World)
      → IsSoundWorld w
      → IsSoundWorld (run_single_archive_batch c b w).1
        × IsKeptOnce b w (run_single_archive_batch c b w).1
  unfolding run_single_archive_batch
  batch-safe b w sound =
      let logs =
        batch-IsStep (archived_log c.anonymizer) (is_expired_log b.audit_cutoff) w.logs
          b.audit_answers (λ r. r.timestamp) c.batch_size sound.0 in
      let snapshots =
        batch-IsStep archived_snapshot (is_expired_snapshot b.metric_cutoff) w.snapshots
          b.metric_answers (λ r. r.captured_at) c.batch_size sound.1 in
      let events =
        batch-IsStep (archived_webhook c.anonymizer c.host) (is_expired_event b.webhook_cutoff)
          w.events b.webhook_answers (λ r. r.created_at) c.batch_size sound.2 in
      if-both
        (λ (ran : Option ArchiveRetentionSummary × World).
          IsSoundWorld ran.1 × IsKeptOnce b w ran.1)
        b.lists ((logs.0, snapshots.0, events.0), (logs.1, snapshots.1, events.1))
        (sound, unchanged_world _ _ _ w)

  kept-then :
      (b : Batch) (bs : List Batch) (w v u : World)
      → IsKeptOnce b w v
      → IsKeptWorld bs v u
      → IsKeptWorld (b ∷ bs) w u
  kept-then b bs w v u first second = (
    IsKept-then (archived_log c.anonymizer) (is_expired_log b.audit_cutoff) _ w.logs v.logs u.logs
        first.0 second.0,
    IsKept-then archived_snapshot (is_expired_snapshot b.metric_cutoff) _ w.snapshots v.snapshots
        u.snapshots first.1 second.1,
    IsKept-then (archived_webhook c.anonymizer c.host) (is_expired_event b.webhook_cutoff) _
        w.events v.events u.events first.2 second.2,
  )

  batches-safe :
      (bs : List Batch) (w : World × ArchiveRetentionSummary)
      → IsSoundWorld w.0
      → IsSoundWorld (run_batches c bs w).1.0 × IsKeptWorld bs w.0 (run_batches c bs w).1.0
  unfolding run_batches
  batches-safe [] w sound = (sound, unchanged_world _ _ _ w.0)
  batches-safe (b ∷ bs) w sound =
      let Safe : Run (World × ArchiveRetentionSummary) → Type 0 =
        λ ran. IsSoundWorld ran.1.0 × IsKeptWorld (b ∷ bs) w.0 ran.1.0 in
      let ran = run_single_archive_batch c b w.0 in
      let once = batch-safe b w.0 sound in
      let stopped : IsSoundWorld ran.1 × IsKeptWorld (b ∷ bs) w.0 ran.1 =
        (once.0, kept-then b bs w.0 ran.1 ran.1 once.1 (unchanged_world _ _ _ ran.1)) in
      let next : World × ArchiveRetentionSummary = (ran.1, add_result c w.1 ran.0) in
      let rest = batches-safe bs next once.0 in
      if-both Safe (ends_loop c ran.0) stopped
        (rest.0, kept-then b bs w.0 ran.1 (run_batches c bs next).1.0 once.1 rest.1)

  -- Whatever the databases and the lock answer, a cycle loses nothing: where the ids of the three live
  -- tables are primary keys and an archived copy of a row that is still live is that row as converted,
  -- the same holds after the cycle; each row of the three tables is still in its table, or it had
  -- expired at the cutoff of one of the batches that were run and the archive has it as converted; and
  -- every row of the archive stays as it was. A webhook event that is pending never expires.
  pub run_archive_retention_cycle-IsKeptWorld :
      (pool archive_pool : Bool) (lock : LockAnswer) (unlocks : Bool) (batches : List Batch)
      (w : World)
      → IsSoundWorld w
      → IsSoundWorld (run_archive_retention_cycle c pool archive_pool lock unlocks batches w).1
        × IsKeptWorld
            (take c.max_batches batches)
            w
            (run_archive_retention_cycle c pool archive_pool lock unlocks batches w).1
  unfolding run_archive_retention_cycle with_advisory_lock
  run_archive_retention_cycle-IsKeptWorld pool archive_pool lock unlocks batches w sound =
      let Safe : Option ArchiveRetentionSummary × World → Type 0 =
        λ ran. IsSoundWorld ran.1 × IsKeptWorld (take c.max_batches batches) w ran.1 in
      if-both Safe (pool && archive_pool) (locked lock) (sound, unchanged_world _ _ _ w)
    where
      locked :
          (answer : LockAnswer)
          → let ran =
              with_advisory_lock answer unlocks
                (run_batches c (take c.max_batches batches))
                (w, no_rows c) in
            IsSoundWorld ran.1.0 × IsKeptWorld (take c.max_batches batches) w ran.1.0
      locked acquired = batches-safe (take c.max_batches batches) (w, no_rows c) sound
      locked held = (sound, unchanged_world _ _ _ w)
      locked lock_throws = (sound, unchanged_world _ _ _ w)
