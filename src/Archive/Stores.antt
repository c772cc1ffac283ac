-- ===== src/Archive/Stores.antt =====
-- The batches of services/archiveService.ts: a live table and its archive in another database, each a
-- list of rows under their ids.
use quipay_backend.Prelude.{
  ℕ, ◌+◌, Bool, true, false, not, ◌&&◌, Option, none, some, List, [], ◌∷◌, ltb, leb, if◌then◌else◌,
  ◌==◌, nat_eq, string_eq, length, take, keep, any,
}
use quipay_backend.Map
use quipay_backend.Lock.{LockAnswer, Run, with_advisory_lock}
use quipay_backend.Archive.Anonymizer.{Anonymizer}
use quipay_backend.Archive.Tables.{
  AuditLogRow, ArchivedLog, MetricSnapshotRow, ArchivedSnapshot, WebhookArchiveRow, ArchivedWebhook,
  is_expired_log, is_expired_snapshot, is_expired_event, archived_log, archived_snapshot,
  archived_webhook, Text,
}

pub record Store (A B : Type 0) : Type 0 where
  pub live : List (ℕ × A)
  pub archived : List (ℕ × B)

-- How the statements of one table answer: one up to `COMMIT` throws, and the transaction is rolled
-- back; only the `DELETE` throws; or all answer.
pub data Answers : Type 0 where
  unsaved undeleted answered : Answers

module _ {A : Type 0} where
  abbrev pub insert_by : (A → ℕ) → ℕ × A → List (ℕ × A) → List (ℕ × A)
  insert_by time e [] = e ∷ []
  insert_by time e (f ∷ fs) =
      if leb (time e.1) (time f.1) then e ∷ f ∷ fs else f ∷ insert_by time e fs

  -- `ORDER BY … ASC`
  abbrev pub order_by : (A → ℕ) → List (ℕ × A) → List (ℕ × A)
  order_by time [] = []
  order_by time (e ∷ es) = insert_by time e (order_by time es)

  -- `SELECT … WHERE … ORDER BY … LIMIT $2`
  unfoldable pub list_expired : (A → Bool) → (A → ℕ) → ℕ → List (ℕ × A) → List (ℕ × A)
  list_expired expired time size table =
      take size (order_by time (keep (λ (e : ℕ × A). expired e.1) table))

  abbrev pub is_one_of : List (ℕ × A) → ℕ → Bool
  is_one_of rows id = any (λ (e : ℕ × A). e.0 == id) rows

  -- `DELETE … WHERE id = ANY($1)` with the ids of the rows.
  unfoldable pub delete_rows : List (ℕ × A) → List (ℕ × A) → List (ℕ × A)
  delete_rows rows table = keep (λ (e : ℕ × A). not (is_one_of rows e.0)) table

abbrev insert_unless : {B : Type 0} → Option B → ℕ → B → List (ℕ × B) → List (ℕ × B)
insert_unless none id row table = Map.insert id row table
insert_unless (some old) id row table = table

abbrev pub insert_missing : {B : Type 0} → ℕ → B → List (ℕ × B) → List (ℕ × B)
insert_missing id row table = insert_unless (Map.lookup id table) id row table

module _ {A B : Type 0} (convert : A → B) where
  -- `INSERT … ON CONFLICT (original_id) DO NOTHING` for each row.
  unfoldable pub insert_rows : List (ℕ × A) → List (ℕ × B) → List (ℕ × B)
  unfolding Map.lookup Map.insert
  insert_rows [] table = table
  insert_rows (e ∷ es) table = insert_rows es (insert_missing e.0 (convert e.1) table)

  -- One of the three archiving functions: how many rows it says it has archived, `none` where it throws.
  unfoldable pub archive_rows : Answers → List (ℕ × A) → Store A B → Option ℕ × Store A B
  unfolding insert_rows delete_rows
  archive_rows a [] s = (some 0, s)
  archive_rows unsaved (e ∷ es) s = (none, s)
  archive_rows undeleted (e ∷ es) s =
      (none, record s { archived = insert_rows (e ∷ es) s.archived })
  archive_rows answered (e ∷ es) s = (
    some (length (e ∷ es)),
    record { live = delete_rows (e ∷ es) s.live; archived = insert_rows (e ∷ es) s.archived },
  )

-- The databases, as far as the service reads and writes them.
pub record World : Type 0 where
  pub logs : Store AuditLogRow ArchivedLog
  pub snapshots : Store MetricSnapshotRow ArchivedSnapshot
  pub events : Store WebhookArchiveRow ArchivedWebhook

pub record ArchiveRetentionSummary : Type 0 where
  pub audit_logs_archived : ℕ
  pub metric_snapshots_archived : ℕ
  pub webhook_events_archived : ℕ

-- The clock and the answers that a batch meets: the three cutoffs, whether the three listings answer,
-- and the answers of each table.
pub record Batch : Type 0 where
  pub audit_cutoff : ℕ
  pub metric_cutoff : ℕ
  pub webhook_cutoff : ℕ
  pub lists : Bool
  pub audit_answers : Answers
  pub metric_answers : Answers
  pub webhook_answers : Answers

pub record Config : Type 0 where
  pub anonymizer : Anonymizer
  pub host : Text → Option Text
  pub batch_size : ℕ
  pub max_batches : ℕ

-- `Promise.all`: a result where all three have one.
abbrev pub all_three : Option ℕ → Option ℕ → Option ℕ → Option ArchiveRetentionSummary
all_three none m w = none
all_three (some a) none w = none
all_three (some a) (some m) none = none
all_three (some a) (some m) (some w) =
    some (record {
      audit_logs_archived = a;
      metric_snapshots_archived = m;
      webhook_events_archived = w;
    })

module _ (c : Config) where
  abbrev pub archive_audit_logs :
      Batch → Store AuditLogRow ArchivedLog → Option ℕ × Store AuditLogRow ArchivedLog
  archive_audit_logs b s =
      archive_rows (archived_log c.anonymizer) b.audit_answers
        (list_expired (is_expired_log b.audit_cutoff) (λ r. r.timestamp) c.batch_size s.live) s

  abbrev pub archive_metric_snapshots :
      Batch
      → Store MetricSnapshotRow ArchivedSnapshot
      → Option ℕ × Store MetricSnapshotRow ArchivedSnapshot
  archive_metric_snapshots b s =
      archive_rows archived_snapshot b.metric_answers
        (list_expired (is_expired_snapshot b.metric_cutoff) (λ r. r.captured_at) c.batch_size
          s.live)
        s

  abbrev pub archive_webhook_events :
      Batch
      → Store WebhookArchiveRow ArchivedWebhook
      → Option ℕ × Store WebhookArchiveRow ArchivedWebhook
  archive_webhook_events b s =
      archive_rows (archived_webhook c.anonymizer c.host) b.webhook_answers
        (list_expired (is_expired_event b.webhook_cutoff) (λ r. r.created_at) c.batch_size s.live) s

  -- Each of the three runs to its end, also where another throws.
  unfoldable pub run_single_archive_batch : Batch → World → Option ArchiveRetentionSummary × World
  unfolding list_expired archive_rows
  run_single_archive_batch b w =
      let logs = archive_audit_logs b w.logs in
      let snapshots = archive_metric_snapshots b w.snapshots in
      let events = archive_webhook_events b w.events in
      if b.lists
      then (
        all_three logs.0 snapshots.0 events.0,
        record { logs = logs.1; snapshots = snapshots.1; events = events.1 },
      )
      else (none, w)

  abbrev pub add_summary :
      ArchiveRetentionSummary → ArchiveRetentionSummary → ArchiveRetentionSummary
  add_summary s t = record {
    audit_logs_archived = s.audit_logs_archived + t.audit_logs_archived;
    metric_snapshots_archived = s.metric_snapshots_archived + t.metric_snapshots_archived;
    webhook_events_archived = s.webhook_events_archived + t.webhook_events_archived;
  }

  -- The condition of the `break`.
  abbrev pub is_last : ArchiveRetentionSummary → Bool
  is_last r =
      ltb r.audit_logs_archived c.batch_size
      && (ltb r.metric_snapshots_archived c.batch_size
          && ltb r.webhook_events_archived c.batch_size)

  -- Nothing is added where the batch throws.
  abbrev pub add_result :
      ArchiveRetentionSummary → Option ArchiveRetentionSummary → ArchiveRetentionSummary
  add_result s none = s
  add_result s (some r) = add_summary s r

  abbrev pub resolves : Option ArchiveRetentionSummary → Bool
  resolves none = false
  resolves (some r) = true

  abbrev pub ends_loop : Option ArchiveRetentionSummary → Bool
  ends_loop none = true
  ends_loop (some r) = is_last r

  -- The loop, over the batches that are left.
  unfoldable pub run_batches :
      List Batch → World × ArchiveRetentionSummary → Run (World × ArchiveRetentionSummary)
  unfolding run_single_archive_batch
  run_batches [] w = (true, w)
  run_batches (b ∷ bs) w =
      let ran = run_single_archive_batch b w.0 in
      let next : World × ArchiveRetentionSummary = (ran.1, add_result w.1 ran.0) in
      let rest = run_batches bs next in if ends_loop ran.0 then (resolves ran.0, next) else rest

  abbrev pub no_rows : ArchiveRetentionSummary
  no_rows = record {
    audit_logs_archived = 0;
    metric_snapshots_archived = 0;
    webhook_events_archived = 0;
  }

  abbrev pub summary_of :
      Run (World × ArchiveRetentionSummary) → Option ArchiveRetentionSummary × World
  summary_of run = (if run.0 then some run.1.1 else none, run.1.0)

  -- Whether both databases are configured, the answers of the lock, and those of the batches, of which
  -- `safeMaxBatches` are run at most.
  unfoldable pub run_archive_retention_cycle :
      (pool archive_pool : Bool)
      → LockAnswer
      → (unlocks : Bool) → List Batch
      → World
      → Option ArchiveRetentionSummary × World
  unfolding run_batches with_advisory_lock
  run_archive_retention_cycle pool archive_pool lock unlocks batches w =
      if pool && archive_pool
      then summary_of
          (with_advisory_lock lock unlocks (run_batches (take c.max_batches batches)) (w, no_rows))
      else (some no_rows, w)
