-- ===== src/Webhooks/Delivery.antt =====
-- delivery.ts: a delivery, its log, and what goes to the dead letter queue. The clock is read once
-- for an attempt.
use quipay_backend.Prelude.{
  ℕ, suc, String, Bool, false, ◌&&◌, Option, none, some, [], ◌∷◌, ◌++◌, ltb, leb, if◌then◌else◌,
  nat_eq, string_eq, length,
}
use quipay_backend.Dlq.{
  Json, null, num, text, Fields, Reason, error_message, http_status, response_body, sentence,
  push_to_dlq, webhook_job_type,
}
use quipay_backend.Webhooks.Model.{
  Answer, answered, thrown, Env, OutboundAttempt, delivered, lost, World,
  compute_webhook_dlq_next_retry_at_ms, insert_webhook_outbound_attempt,
  update_webhook_outbound_event_after_attempt, success, failed,
}
use quipay_backend.Webhooks.Payload.{outgoing_request}

-- `WebhookDeliveryResult`
pub record WebhookDeliveryResult : Type 0 where
  pub status_code : Option ℕ
  pub response_body : Option String
  pub error_message : Option String
  pub duration_ms : ℕ
  pub succeeded : Bool

abbrev pub succeeds : Option ℕ → Bool
succeeds none = false
succeeds (some code) = leb 200 code && ltb code 300

abbrev pub read_answer : ℕ → Answer → WebhookDeliveryResult
read_answer ms (answered code body) = record {
  status_code = some code;
  response_body = body;
  error_message = none;
  duration_ms = ms;
  succeeded = succeeds (some code);
}
read_answer ms (thrown code body message) = record {
  status_code = code;
  response_body = body;
  error_message = some message;
  duration_ms = ms;
  succeeded = succeeds code;
}

-- The chain of `??` for `failureReason`.
abbrev reason_of : Option String → Option ℕ → Option String → Reason
reason_of (some message) code body = error_message message
reason_of none (some code) body = http_status code
reason_of none none (some body) = response_body body
reason_of none none none = sentence "Webhook delivery failed"

abbrev pub failure_reason : WebhookDeliveryResult → Reason
failure_reason result = reason_of result.error_message result.status_code result.response_body

abbrev pub code_json : Option ℕ → Json
code_json none = null
code_json (some n) = num n

module _ (env : Env) where
  unfoldable pub deliver_webhook_request : String → Json → World → WebhookDeliveryResult × World
  unfolding outgoing_request
  deliver_webhook_request url payload w =
      let request = outgoing_request env url payload in
      (
        read_answer (env.duration (length w.sent)) (env.answer (length w.sent) request),
        record w { sent = w.sent ++ (request ∷ []) },
      )

-- `pushToDLQ` for a webhook, with the context that `extra` ends.
abbrev pub enqueue_dead_letter :
    ℕ → String → String → String → Json → Reason → Fields → World → World
enqueue_dead_letter now event_id url event_type payload reason extra w = record w {
  ids = suc w.ids;
  dlq =
      push_to_dlq w.ids now webhook_job_type
        (("eventId", text event_id)
          ∷ ("targetUrl", text url)
          ∷ ("eventType", text event_type)
          ∷ ("requestPayload", payload)
          ∷ [])
        (some reason)
        (("targetUrl", text url)
          ∷ ("retryCount", num 0)
          ∷ ("nextRetryAtMs", code_json (compute_webhook_dlq_next_retry_at_ms now 0))
          ∷ extra)
        w.dlq;
}

-- `attemptDeliveryOnce`
pub record Attempt : Type 0 where
  pub event_id : String
  pub url : String
  pub event_type : String
  pub outgoing_payload : Json
  pub attempt_number : ℕ

abbrev pub attempt_row : Attempt → WebhookDeliveryResult → OutboundAttempt
attempt_row p result = record {
  event_id = p.event_id;
  attempt_number = p.attempt_number;
  response_code = result.status_code;
  response_body = result.response_body;
  error_message = result.error_message;
  duration_ms = result.duration_ms;
}

abbrev pub logged : Attempt → WebhookDeliveryResult → World → World
logged p result w =
    update_webhook_outbound_event_after_attempt p.event_id
      (if result.succeeded then success else failed) p.attempt_number result.status_code
      (if result.succeeded then none else some (failure_reason result))
      (insert_webhook_outbound_attempt (attempt_row p result) w)

-- What is written after the delivery.
unfoldable pub log_attempt : Attempt → WebhookDeliveryResult → World → World
unfolding insert_webhook_outbound_attempt update_webhook_outbound_event_after_attempt
log_attempt p result w = if w.connected then logged p result w else w

unfoldable pub finish_attempt : ℕ → Attempt → WebhookDeliveryResult → World → World
unfolding compute_webhook_dlq_next_retry_at_ms
finish_attempt now p result w =
    if result.succeeded
    then record w { metrics = w.metrics ++ (delivered result.duration_ms ∷ []) }
    else let parked =
        if w.connected
        then enqueue_dead_letter now p.event_id p.url p.event_type p.outgoing_payload
            (failure_reason result)
            (("statusCode", code_json result.status_code)
              ∷ ("attemptNumber", num p.attempt_number)
              ∷ [])
            w
        else w in
      record parked { metrics = parked.metrics ++ (lost ∷ []) }

unfoldable pub attempt_delivery_once : Env → ℕ → Attempt → World → World
unfolding deliver_webhook_request log_attempt finish_attempt
attempt_delivery_once env now p w =
    let sent = deliver_webhook_request env p.url p.outgoing_payload w in
    finish_attempt now p sent.0 (log_attempt p sent.0 sent.1)
