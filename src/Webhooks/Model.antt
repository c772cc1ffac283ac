-- ===== src/Webhooks/Model.antt =====
-- delivery.ts and db/queries.ts: the state that webhooks keep, and the statements on
-- `webhook_outbound_events` and `webhook_outbound_attempts`, which succeed.
use quipay_backend.Prelude.{
  ℕ, ◌+◌, ◌*◌, String, Bool, Option, none, List, [], ◌∷◌, ◌++◌, if◌then◌else◌, nat_eq, string_eq,
  get_elem?,
}
use quipay_backend.Map
use mathlib.Core.Option
use quipay_backend.Dlq.{Json, Reason, DlqTable}

-- What `webhookBreaker.fire` gives: a response with its body as text, or an error with what it
-- carries of a response and its message.
pub data Answer : Type 0 where
  answered : ℕ → Option String → Answer
  thrown : Option ℕ → Option String → String → Answer

pub record Request : Type 0 where
  pub url : String
  pub body : Json
  pub signature : Option String

-- What the code takes from outside: the network by the number of the request, how long a request
-- takes, `crypto`, and texts of the JavaScript runtime.
pub record Env : Type 0 where
  pub answer : ℕ → Request → Answer
  pub duration : ℕ → ℕ
  pub signing_secret : Option String
  pub hmac : String → String → String
  pub uuid : ℕ → String
  pub stringify : Json → String
  pub stringify_indented : Json → String
  pub upper_case : String → String
  pub includes : String → String → Bool
  pub iso_time : ℕ → String

pub record WebhookSubscription : Type 0 where
  pub id : String
  pub owner_id : String
  pub url : String
  pub events : List String

pub data EventStatus : Type 0 where
  pending success failed : EventStatus

pub record OutboundEvent : Type 0 where
  pub owner_id : String
  pub subscription_id : String
  pub url : String
  pub event_type : String
  pub request_payload : Json
  pub status : EventStatus
  pub attempt_count : ℕ
  pub last_response_code : Option ℕ
  pub last_error : Option Reason
  pub next_retry_at : Option ℕ

pub record OutboundAttempt : Type 0 where
  pub event_id : String
  pub attempt_number : ℕ
  pub response_code : Option ℕ
  pub response_body : Option String
  pub error_message : Option String
  pub duration_ms : ℕ

pub data Metric : Type 0 where
  delivered : ℕ → Metric
  lost : Metric

-- The row of `audit_logs` that `insertPermanentFailureAuditEvent` of webhookDlqWorker.ts writes.
pub record PermanentFailure : Type 0 where
  pub dlq_id : ℕ
  pub event_id : Option Json
  pub event_type : Option Json
  pub target_url : Option String
  pub retry_count : ℕ
  pub status_code : Option ℕ
  pub error_message : Reason

-- The database, the log of the requests sent, and the metrics; `ids` counts the DLQ's ids.
pub record World : Type 0 where
  pub connected : Bool
  pub events : List (String × OutboundEvent)
  pub attempts : List OutboundAttempt
  pub dlq : DlqTable
  pub ids : ℕ
  pub audits : List PermanentFailure
  pub sent : List Request
  pub metrics : List Metric

abbrev pub webhook_dlq_max_retries : ℕ
webhook_dlq_max_retries = 5

abbrev pub webhook_dlq_backoff_schedule_ms : List ℕ
webhook_dlq_backoff_schedule_ms = 30000 ∷ 2 * 60000 ∷ 10 * 60000 ∷ 60 * 60000 ∷ 6 * 60 * 60000 ∷ []

unfoldable pub compute_webhook_dlq_next_retry_at_ms : ℕ → ℕ → Option ℕ
compute_webhook_dlq_next_retry_at_ms now retry_count =
    Option.map (λ (ms : ℕ). now + ms) (get_elem? webhook_dlq_backoff_schedule_ms retry_count)

-- The database functions return at once without a pool.
unfoldable pub create_webhook_outbound_event :
    String → String → String → String → String → Json → World → World
create_webhook_outbound_event id owner_id subscription_id url event_type payload w =
    if w.connected
    then record w {
      events =
          Map.insert id
            (record {
              owner_id = owner_id;
              subscription_id = subscription_id;
              url = url;
              event_type = event_type;
              request_payload = payload;
              status = pending;
              attempt_count = 0;
              last_response_code = none;
              last_error = none;
              next_retry_at = none;
            })
            w.events;
    }
    else w

unfoldable pub insert_webhook_outbound_attempt : OutboundAttempt → World → World
insert_webhook_outbound_attempt attempt w =
    if w.connected then record w { attempts = w.attempts ++ (attempt ∷ []) } else w

-- `updateWebhookOutboundEventAfterAttempt` with `nextRetryAt: null`, as all its callers pass it.
unfoldable pub update_webhook_outbound_event_after_attempt :
    String → EventStatus → ℕ → Option ℕ → Option Reason → World → World
update_webhook_outbound_event_after_attempt id status count code error w =
    if w.connected
    then record w {
      events =
          Map.adjust id
            (λ (ev : OutboundEvent). record ev {
              status = status;
              attempt_count = count;
              last_response_code = code;
              last_error = error;
              next_retry_at = none;
            })
            w.events;
    }
    else w
