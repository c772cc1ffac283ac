-- ===== src/Archive/Tables.antt =====
-- The rows that services/archiveService.ts takes out of the live database, and what it writes of them
-- to the archive. A text is the list of its code units, a time its milliseconds, an id a number.
use quipay_backend.Prelude.{
  ℕ, Bool, true, false, ◌&&◌, Option, none, some, List, [], ◌∷◌, ltb, nat_eq, string_eq,
}
use quipay_backend.Audit.Redaction.{
  Value, null, number, string, array, object, Items, end, item, no_field, field,
}
use quipay_backend.Archive.Anonymizer.{Anonymizer, anonymize_value, pseudonymize}

abbrev pub Text : Type 0
Text = List ℕ

pub record AuditLogRow : Type 0 where
  pub timestamp : ℕ
  pub log_level : Text
  pub message : Text
  pub action_type : Text
  pub employer : Option Text
  pub context : Value
  pub transaction_hash : Option Text
  pub block_number : Option ℕ
  pub error_message : Option Text
  pub error_code : Option Text
  pub error_stack : Option Text
  pub created_at : ℕ

-- A row of `audit_logs_archive`.
pub record ArchivedLog : Type 0 where
  pub timestamp : ℕ
  pub log_level : Text
  pub message : Text
  pub action_type : Text
  pub employer_hash : Option Text
  pub context : Value
  pub transaction_hash : Option Text
  pub block_number : Option ℕ
  pub error_message : Option Text
  pub error_code : Option Text
  pub error_stack : Option Text
  pub source_created_at : ℕ
  pub anonymized : Bool

pub record MetricSnapshotRow : Type 0 where
  pub captured_at : ℕ
  pub metrics_text : Text
  pub created_at : ℕ

-- A row of `metric_snapshots_archive`.
pub record ArchivedSnapshot : Type 0 where
  pub captured_at : ℕ
  pub metrics_text : Text
  pub source_created_at : ℕ

-- As `json_build_object` makes it: the time is a text.
pub record WebhookAttemptArchiveRow : Type 0 where
  pub id : ℕ
  pub attempt_number : ℕ
  pub response_code : Option ℕ
  pub response_body : Option Text
  pub error_message : Option Text
  pub duration_ms : Option ℕ
  pub created_at : Text

pub data EventStatus : Type 0 where
  pending success event_failed : EventStatus

pub record WebhookArchiveRow : Type 0 where
  pub owner_id : Text
  pub subscription_id : Text
  pub url : Text
  pub event_type : Text
  pub request_payload : Value
  pub status : EventStatus
  pub attempt_count : ℕ
  pub last_response_code : Option ℕ
  pub last_error : Option Text
  pub next_retry_at : Option ℕ
  pub last_attempt_at : Option ℕ
  pub created_at : ℕ
  pub updated_at : ℕ
  pub attempts : List WebhookAttemptArchiveRow

-- A row of `webhook_outbound_events_archive`.
pub record ArchivedWebhook : Type 0 where
  pub owner_hash : Text
  pub subscription_hash : Text
  pub destination_host : Option Text
  pub destination_fingerprint : Text
  pub event_type : Text
  pub request_payload : Value
  pub attempts : Value
  pub status : EventStatus
  pub attempt_count : ℕ
  pub last_response_code : Option ℕ
  pub last_error : Option Text
  pub next_retry_at : Option ℕ
  pub last_attempt_at : Option ℕ
  pub source_created_at : ℕ
  pub source_updated_at : ℕ
  pub anonymized : Bool

-- `WHERE timestamp < $1`
abbrev pub is_expired_log : ℕ → AuditLogRow → Bool
is_expired_log cutoff row = ltb row.timestamp cutoff

-- `WHERE captured_at < $1`
abbrev pub is_expired_snapshot : ℕ → MetricSnapshotRow → Bool
is_expired_snapshot cutoff row = ltb row.captured_at cutoff

abbrev is_ended : EventStatus → Bool
is_ended pending = false
is_ended success = true
is_ended event_failed = true

-- `WHERE e.status IN ('success', 'failed') AND e.created_at < $1`
abbrev pub is_expired_event : ℕ → WebhookArchiveRow → Bool
is_expired_event cutoff row = is_ended row.status && ltb row.created_at cutoff

abbrev number_or_null : Option ℕ → Value
number_or_null none = null
number_or_null (some n) = number n

abbrev text_or_null : Option Text → Value
text_or_null none = null
text_or_null (some s) = string s

abbrev pub attempt_value : WebhookAttemptArchiveRow → Value
attempt_value a = object (
    field (b'i' ∷ b'd' ∷ []) (number a.id) (
      field
        (b'a' ∷ b't' ∷ b't' ∷ b'e' ∷ b'm' ∷ b'p' ∷ b't' ∷ b'_' ∷ b'n' ∷ b'u' ∷ b'm' ∷ b'b' ∷ b'e'
          ∷ b'r' ∷ [])
        (number a.attempt_number)
        (field
          (b'r' ∷ b'e' ∷ b's' ∷ b'p' ∷ b'o' ∷ b'n' ∷ b's' ∷ b'e' ∷ b'_' ∷ b'c' ∷ b'o' ∷ b'd' ∷ b'e'
            ∷ [])
          (number_or_null a.response_code)
          (field
            (b'r' ∷ b'e' ∷ b's' ∷ b'p' ∷ b'o' ∷ b'n' ∷ b's' ∷ b'e' ∷ b'_' ∷ b'b' ∷ b'o' ∷ b'd'
              ∷ b'y' ∷ [])
            (text_or_null a.response_body)
            (field
              (b'e' ∷ b'r' ∷ b'r' ∷ b'o' ∷ b'r' ∷ b'_' ∷ b'm' ∷ b'e' ∷ b's' ∷ b's' ∷ b'a' ∷ b'g'
                ∷ b'e' ∷ [])
              (text_or_null a.error_message)
              (field
                (b'd' ∷ b'u' ∷ b'r' ∷ b'a' ∷ b't' ∷ b'i' ∷ b'o' ∷ b'n' ∷ b'_' ∷ b'm' ∷ b's' ∷ [])
                (number_or_null a.duration_ms)
                (field (b'c' ∷ b'r' ∷ b'e' ∷ b'a' ∷ b't' ∷ b'e' ∷ b'd' ∷ b'_' ∷ b'a' ∷ b't' ∷ [])
                  (string a.created_at) no_field)))))))

abbrev pub attempt_items : List WebhookAttemptArchiveRow → Items
attempt_items [] = end
attempt_items (a ∷ rest) = item (attempt_value a) (attempt_items rest)

-- `row.employer ? pseudonymize("employer", row.employer) : null`; an empty text is none.
abbrev employer_hash_of : Anonymizer → Option Text → Option Text
employer_hash_of a none = none
employer_hash_of a (some []) = none
employer_hash_of a (some (c ∷ cs)) =
    some (pseudonymize a (b'e' ∷ b'm' ∷ b'p' ∷ b'l' ∷ b'o' ∷ b'y' ∷ b'e' ∷ b'r' ∷ []) (c ∷ cs))

module _ (a : Anonymizer) where
  -- The parameters of `INSERT INTO audit_logs_archive`.
  unfoldable pub archived_log : AuditLogRow → ArchivedLog
  unfolding anonymize_value pseudonymize
  archived_log row = record {
    timestamp = row.timestamp;
    log_level = row.log_level;
    message = row.message;
    action_type = row.action_type;
    employer_hash = employer_hash_of a row.employer;
    context = anonymize_value a [] row.context;
    transaction_hash = row.transaction_hash;
    block_number = row.block_number;
    error_message = row.error_message;
    error_code = row.error_code;
    error_stack = row.error_stack;
    source_created_at = row.created_at;
    anonymized = true;
  }

  -- The same of `INSERT INTO webhook_outbound_events_archive`; `host` is `new URL(…).host`, `none`
  -- where the constructor throws.
  unfoldable pub archived_webhook :
      (host : Text → Option Text) → WebhookArchiveRow → ArchivedWebhook
  unfolding anonymize_value pseudonymize
  archived_webhook host row = record {
    owner_hash = pseudonymize a (b'o' ∷ b'w' ∷ b'n' ∷ b'e' ∷ b'r' ∷ []) row.owner_id;
    subscription_hash =
        pseudonymize a
          (b's' ∷ b'u' ∷ b'b' ∷ b's' ∷ b'c' ∷ b'r' ∷ b'i' ∷ b'p' ∷ b't' ∷ b'i' ∷ b'o' ∷ b'n' ∷ [])
          row.subscription_id;
    destination_host = host row.url;
    destination_fingerprint =
        pseudonymize a
          (b'w' ∷ b'e' ∷ b'b' ∷ b'h' ∷ b'o' ∷ b'o' ∷ b'k' ∷ b'_' ∷ b'u' ∷ b'r' ∷ b'l' ∷ []) row.url;
    event_type = row.event_type;
    request_payload = anonymize_value a [] row.request_payload;
    attempts = anonymize_value a [] (array (attempt_items row.attempts));
    status = row.status;
    attempt_count = row.attempt_count;
    last_response_code = row.last_response_code;
    last_error = row.last_error;
    next_retry_at = row.next_retry_at;
    last_attempt_at = row.last_attempt_at;
    source_created_at = row.created_at;
    source_updated_at = row.updated_at;
    anonymized = true;
  }

unfoldable pub archived_snapshot : MetricSnapshotRow → ArchivedSnapshot
archived_snapshot row = record {
  captured_at = row.captured_at;
  metrics_text = row.metrics_text;
  source_created_at = row.created_at;
}
