-- ===== src/Audit/Leaks.antt =====
-- What `error` of audit/auditLogger.ts leaves to the database.
use quipay_backend.Prelude.{
  ℕ, suc, ◌≡◌, refl, ◌∙◌, Bool, true, some, List, [], ◌∷◌, ◌++◌, arith, ltb, eqb, eqb_iff, if-true,
  nat_eq, string_eq,
}
use quipay_backend.Map.{lookup, insert, lookup-insert}
use quipay_backend.Audit.Redaction.{Fields, RedactionEngine}
use quipay_backend.Audit.Logger.{
  LogLevel, info, warn, error, commits, row_of, flush_queue, start_flush, finish_flush, ActionType,
  LogEntry, rows_of, Config, Logger, Error, should_log, format_log_entry, redact_entry, push_entry,
  log, log_error, set_error, error_context,
}

lookup-inserted :
    (r : ℕ) (e : LogEntry) (entries : List (ℕ × LogEntry)) → lookup r (insert r e entries) ≡ some e
lookup-inserted r e entries =
    lookup-insert r r e entries ∙ if-true (eqb r r) (lookup r entries) ((eqb_iff r r).1 refl)

-- A logger with nothing queued and no flush that runs.
abbrev pub idle :
    LogLevel → List (ℕ × LogEntry) → ℕ → List ℕ → List ℕ → List ℕ → List LogEntry → Logger
idle level entries next written dropped lost audit_logs = record {
  min_log_level = level;
  entries = entries;
  next = next;
  queue = record {
    write_queue = [];
    in_flight = [];
    written = written;
    dropped = dropped;
    lost = lost;
  };
  audit_logs = audit_logs;
}

module _ (enabled : Bool) (engine : RedactionEngine) (max : ℕ) where
  abbrev pub async_config : Config
  async_config = record {
    async_writes = true;
    max_queue_size = suc max;
    redaction_enabled = enabled;
    engine = engine;
  }

  -- There is place in the queue.
  pushed :
      (r : ℕ) (written dropped lost : List ℕ)
      → push_entry (suc max) r (record {
        write_queue = [];
        in_flight = [];
        written = written;
        dropped = dropped;
        lost = lost;
      })
        ≡ record {
          write_queue = r ∷ [];
          in_flight = [];
          written = written;
          dropped = dropped;
          lost = lost;
        }
  pushed r written dropped lost = if-true (ltb 0 (suc max)) _ (ground arith)

  -- Errors reach every level.
  errors_are_logged : (level : LogLevel) → should_log level error ≡ true
  errors_are_logged info = refl
  errors_are_logged warn = refl
  errors_are_logged error = refl

  module _ (level : LogLevel) (entries : List (ℕ × LogEntry)) (next : ℕ) where
    module _ (written dropped lost : List ℕ) (audit_logs : List LogEntry) where
      -- An error with a message and a stack that are not empty, that an idle logger with asynchronous
      -- writes and a place in its queue logs and that a flush then commits, stands in the table with its
      -- message and its stack as they are, also where redaction is enabled.
      pub log_error-unredacted :
          (message : List ℕ) (action_type : ActionType) (e : Error) (context : Fields)
          → (c d : ℕ) (cs ds : List ℕ) → e.message ≡ c ∷ cs
          → e.stack ≡ some (d ∷ ds)
          → let l = idle level entries next written dropped lost audit_logs in
            let logged = log_error async_config message action_type e context l in
            (row : LogEntry) × ((flush_queue async_config true commits logged.1).audit_logs
              ≡ audit_logs ++ row ∷ [])
            × (row.error_message ≡ some (c ∷ cs))
            × (row.error_stack ≡ some (d ∷ ds))
      unfolding log_error log flush_queue start_flush finish_flush
      log_error-unredacted message action_type e context c d cs ds text_of stack_of =
          let made =
            redact_entry async_config
              (format_log_entry error message action_type (error_context e context)) in
          let table =
            insert next (format_log_entry error message action_type (error_context e context))
              entries in
          rw
            (
              errors_are_logged level,
              pushed next written dropped lost,
              lookup-inserted next made table,
              rows_of,
              lookup-inserted next (set_error e made) (insert next made table),
            )
            (row_of (set_error e made), refl, rw text_of refl, rw stack_of refl)
