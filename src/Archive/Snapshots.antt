-- ===== src/Archive/Snapshots.antt =====
-- The settings of services/archiveService.ts and its snapshots of the metrics.
use quipay_backend.Prelude.{
  ℕ, zero, suc, Bool, true, false, Option, none, some, [], ◌∷◌, ◌++◌, nat_eq, string_eq,
}
use quipay_backend.Archive.Tables.{Text, MetricSnapshotRow}
use quipay_backend.Archive.Stores.{World}

-- `safeBatchSize` and `safeMaxBatches`: what the parsed setting is, `none` for `NaN` and for a negative
-- number, and the default in place of one that is not positive.
abbrev pub safe_setting : Option ℕ → ℕ → ℕ
safe_setting none default_value = default_value
safe_setting (some zero) default_value = default_value
safe_setting (some (suc n)) default_value = suc n

abbrev pub safe_batch_size : Option ℕ → ℕ
safe_batch_size parsed = safe_setting parsed 250

abbrev pub safe_max_batches : Option ℕ → ℕ
safe_max_batches parsed = safe_setting parsed 20

abbrev snapshot_row : ℕ → Text → MetricSnapshotRow
snapshot_row now text = record { captured_at = now; metrics_text = text; created_at = now }

-- Whether it resolves, and the databases; `snapshot` is the text of the metrics, `none` where that
-- throws, `inserts` is false where the statement does, and `id` is the next of the sequence.
unfoldable pub capture_metric_snapshot :
    (pool : Bool) (snapshot : Option Text) (inserts : Bool) (now id : ℕ) → World → Bool × World
capture_metric_snapshot false snapshot inserts now id w = (true, w)
capture_metric_snapshot true none inserts now id w = (false, w)
capture_metric_snapshot true (some text) false now id w = (false, w)
capture_metric_snapshot true (some text) true now id w = (
  true,
  record w {
    snapshots = record w.snapshots { live = w.snapshots.live ++ (id, snapshot_row now text) ∷ [] };
  },
)

-- An error is logged only.
unfoldable pub run_metric_snapshot_cycle :
    (pool : Bool) (snapshot : Option Text) (inserts : Bool) (now id : ℕ) → World → World
unfolding capture_metric_snapshot
run_metric_snapshot_cycle pool snapshot inserts now id w =
    (capture_metric_snapshot pool snapshot inserts now id w).1
