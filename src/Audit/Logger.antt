-- ===== src/Audit/Logger.antt =====
-- audit/auditLogger.ts: entries, levels, the queue and its flushes. An entry is an object, so the queue
-- holds references to it; the store has the entries by their references. Timestamps are left out, and so
-- are the hash and the block of a transaction. A flush is two steps, its start and its end, between which
-- other entries may come. Its statements are queries of the pool, on whatever connections, and so no
-- transaction for sure: of a flush that fails, rows may stay.
use quipay_backend.Prelude.{
  ℕ, zero, suc, ◌-◌, Bool, true, false, Option, none, some, List, [], ◌∷◌, ◌++◌, ltb, leb,
  if◌then◌else◌, nat_eq, string_eq, length, get_elem?, take, drop,
}
use quipay_backend.Map.{lookup, insert, adjust}
use quipay_backend.Audit.Redaction.{
  Value, Fields, no_field, field, string, same_text, RedactionEngine, redact_string, redact_object,
}

pub data LogLevel : Type 0 where
  info warn error : LogLevel

pub data ActionType : Type 0 where
  stream_creation contract_interaction monitoring scheduling system : ActionType

pub record LogEntry : Type 0 where
  pub log_level : LogLevel
  pub message : List ℕ
  pub action_type : ActionType
  pub context : Fields
  pub employer : Option (List ℕ)
  pub error_message : Option (List ℕ)
  pub error_code : Option (List ℕ)
  pub error_stack : Option (List ℕ)

pub record Config : Type 0 where
  pub async_writes : Bool
  pub max_queue_size : ℕ
  pub redaction_enabled : Bool
  pub engine : RedactionEngine

-- How a flush ends: with its COMMIT; or with an error, after which so many of the first rows stay in the
-- table, and the ROLLBACK answers or throws as well.
pub data FlushEnd : Type 0 where
  commits : FlushEnd
  fails : (stays : ℕ) (rolls_back : Bool) → FlushEnd

-- `writeQueue`, the snapshots of the flushes that run, and where the other references went: into the
-- table, out of a queue that is full, and those that a failed ROLLBACK keeps from being put back.
pub record Queue : Type 0 where
  pub write_queue : List ℕ
  pub in_flight : List (List ℕ)
  pub written : List ℕ
  pub dropped : List ℕ
  pub lost : List ℕ

pub record Logger : Type 0 where
  pub min_log_level : LogLevel
  pub entries : List (ℕ × LogEntry)
  pub next : ℕ
  pub queue : Queue
  pub audit_logs : List LogEntry

abbrev level_index : LogLevel → ℕ
level_index info = 0
level_index warn = 1
level_index error = 2

abbrev pub should_log : LogLevel → LogLevel → Bool
should_log min_log_level level = leb (level_index min_log_level) (level_index level)

-- `entry.message || "No message provided"`
abbrev pub default_message : List ℕ
default_message =
    b'N' ∷ b'o' ∷ b' ' ∷ b'm' ∷ b'e' ∷ b's' ∷ b's' ∷ b'a' ∷ b'g' ∷ b'e' ∷ b' ' ∷ b'p' ∷ b'r' ∷ b'o'
    ∷ b'v' ∷ b'i' ∷ b'd' ∷ b'e' ∷ b'd' ∷ []

abbrev or_default : List ℕ → List ℕ
or_default [] = default_message
or_default (c ∷ cs) = c ∷ cs

abbrev pub format_log_entry : LogLevel → List ℕ → ActionType → Fields → LogEntry
format_log_entry level message action_type context = record {
  log_level = level;
  message = or_default message;
  action_type = action_type;
  context = context;
  employer = none;
  error_message = none;
  error_code = none;
  error_stack = none;
}

-- `if (text) text = redact(text)`
abbrev redact_given : Option (List ℕ) → Option (List ℕ)
redact_given none = none
redact_given (some []) = some []
redact_given (some (c ∷ cs)) = some (redact_string (c ∷ cs))

abbrev pub redact_entry : Config → LogEntry → LogEntry
redact_entry config e =
    if config.redaction_enabled
    then record e {
      context = redact_object config.engine e.context;
      message = redact_string e.message;
      error_message = redact_given e.error_message;
      error_stack = redact_given e.error_stack;
    }
    else e

-- The end of `enqueueWrite`.
abbrev pub push_entry : ℕ → ℕ → Queue → Queue
push_entry max_queue_size r q =
    if ltb (length q.write_queue) max_queue_size
    then record q { write_queue = q.write_queue ++ r ∷ [] }
    else record q { dropped = q.dropped ++ r ∷ [] }

abbrev pub enqueue_write : Config → ℕ → LogEntry → Logger → Logger
enqueue_write config r e l = record l {
  entries = insert r (redact_entry config e) l.entries;
  queue = push_entry config.max_queue_size r l.queue;
}

abbrev pub stored : ℕ → LogEntry → Logger → Logger
stored r e l = record l { entries = insert r e l.entries; next = suc r }

abbrev pub keep_entry : Config → ℕ → LogEntry → Logger → Logger
keep_entry config r e l = if config.async_writes then enqueue_write config r e l else l

-- `log`, with the action type of the context; the reference of the entry and the logger.
unfoldable pub log : Config → LogLevel → List ℕ → ActionType → Fields → Logger → ℕ × Logger
unfolding insert redact_object redact_string
log config level message action_type context l =
    let made = format_log_entry level message action_type context in
    let ignored = format_log_entry level message system context in
    if should_log l.min_log_level level
    then (l.next, keep_entry config l.next made (stored l.next made l))
    else (l.next, stored l.next ignored l)

-- The fields of an `Error`; `message`, `code` and `stack`.
pub record Error : Type 0 where
  pub message : List ℕ
  pub code : Option (List ℕ)
  pub stack : Option (List ℕ)

-- A property of an object set, in its place where it is there; `undefined` leaves it out of the JSON.
abbrev set_field : List ℕ → Value → Fields → Fields
set_field key v no_field = field key v no_field
set_field key v (field k w fs) =
    if same_text k key then field k v fs else field k w (set_field key v fs)

abbrev remove_field : List ℕ → Fields → Fields
remove_field key no_field = no_field
remove_field key (field k w fs) = if same_text k key then fs else field k w (remove_field key fs)

abbrev set_text : List ℕ → Option (List ℕ) → Fields → Fields
set_text key none fs = remove_field key fs
set_text key (some text) fs = set_field key (string text) fs

abbrev pub set_error : Error → LogEntry → LogEntry
set_error e entry = record entry {
  error_message = some e.message;
  error_code = e.code;
  error_stack = e.stack;
}

-- The names `error_message`, `error_code` and `error_stack` of the context.
abbrev key_error : List ℕ
key_error = b'e' ∷ b'r' ∷ b'r' ∷ b'o' ∷ b'r' ∷ b'_' ∷ []

abbrev pub error_context : Error → Fields → Fields
error_context e context = set_text (key_error ++ b's' ∷ b't' ∷ b'a' ∷ b'c' ∷ b'k' ∷ []) e.stack (
    set_text (key_error ++ b'c' ∷ b'o' ∷ b'd' ∷ b'e' ∷ []) e.code (
      set_field (key_error ++ b'm' ∷ b'e' ∷ b's' ∷ b's' ∷ b'a' ∷ b'g' ∷ b'e' ∷ [])
        (string e.message) context))

-- `error`: the details are set on the entry once more after it has been logged.
unfoldable pub log_error : Config → List ℕ → ActionType → Error → Fields → Logger → ℕ × Logger
unfolding log adjust
log_error config message action_type e context l =
    let logged = log config error message action_type (error_context e context) l in
    (logged.0, record logged.1 { entries = adjust logged.0 (set_error e) logged.1.entries })

unfoldable pub set_min_log_level : LogLevel → Logger → Logger
set_min_log_level level l = record l { min_log_level = level }

-- The snapshot that `flushQueue` takes, where there are entries and the pool is there.
abbrev pub take_snapshot : List ℕ → Queue → Queue
take_snapshot [] q = q
take_snapshot (r ∷ rs) q = record q { write_queue = []; in_flight = q.in_flight ++ (r ∷ rs) ∷ [] }

unfoldable pub start_flush : Bool → Queue → Queue
start_flush pool q = if pool then take_snapshot q.write_queue q else q

-- The entries put back in front; the oldest are dropped where they are too many.
abbrev pub put_back : ℕ → List ℕ → Queue → Queue
put_back max_queue_size flight q =
    let all = flight ++ q.write_queue in
    record q {
      write_queue = drop (length all - max_queue_size) all;
      dropped = q.dropped ++ take (length all - max_queue_size) all;
    }

-- The end of a flush. The entries are put back behind a ROLLBACK that answers, those whose rows stay too.
abbrev pub settle : ℕ → FlushEnd → List ℕ → Queue → Queue
settle max_queue_size commits flight q = record q { written = q.written ++ flight }
settle max_queue_size (fails stays false) flight q = record q {
  written = q.written ++ take stays flight;
  lost = q.lost ++ flight;
}
settle max_queue_size (fails stays true) flight q =
    put_back max_queue_size flight (record q { written = q.written ++ take stays flight })

-- The flush at a place among those that run ends.
abbrev pub remove_at : ℕ → List (List ℕ) → List (List ℕ)
remove_at n [] = []
remove_at zero (f ∷ fs) = fs
remove_at (suc n) (f ∷ fs) = f ∷ remove_at n fs

abbrev pub settle_found : ℕ → FlushEnd → ℕ → Queue → Option (List ℕ) → Queue
settle_found max_queue_size end n q none = q
settle_found max_queue_size end n q (some flight) =
    settle max_queue_size end flight (record q { in_flight = remove_at n q.in_flight })

unfoldable pub finish_flush : ℕ → FlushEnd → ℕ → Queue → Queue
finish_flush max_queue_size end n q = settle_found max_queue_size end n q (get_elem? q.in_flight n)

-- `value || null`
abbrev or_null : Option (List ℕ) → Option (List ℕ)
or_null none = none
or_null (some []) = none
or_null (some (c ∷ cs)) = some (c ∷ cs)

-- The values that `writeToDatabase` inserts.
abbrev pub row_of : LogEntry → LogEntry
row_of e = record e {
  employer = or_null e.employer;
  error_message = or_null e.error_message;
  error_code = or_null e.error_code;
  error_stack = or_null e.error_stack;
}

-- The rows of references: the entries as they are then (no entry changes while it is written).
abbrev pub rows_of : List (ℕ × LogEntry) → List ℕ → List LogEntry
rows_of entries [] = []
rows_of entries (r ∷ rs) = elim (lookup r entries) [
  | none ↦ rows_of entries rs
  | some e ↦ row_of e ∷ rows_of entries rs
]

-- The table after the end of a flush.
abbrev pub write_rows : FlushEnd → Option (List ℕ) → Logger → List LogEntry
write_rows end none l = l.audit_logs
write_rows commits (some flight) l = l.audit_logs ++ rows_of l.entries flight
write_rows (fails stays rolls_back) (some flight) l =
    l.audit_logs ++ rows_of l.entries (take stays flight)

-- A flush of the logger, with nothing in between.
unfoldable pub flush_queue : Config → (pool : Bool) → FlushEnd → Logger → Logger
unfolding start_flush finish_flush
flush_queue config pool end l =
    let started = start_flush pool l.queue in
    let n = length l.queue.in_flight in
    record l {
      queue = finish_flush config.max_queue_size end n started;
      audit_logs = write_rows end (get_elem? started.in_flight n) l;
    }
