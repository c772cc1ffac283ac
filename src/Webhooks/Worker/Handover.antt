-- ===== src/Webhooks/Worker/Handover.antt =====
-- What delivery.ts puts into the dead letter queue, as webhookDlqWorker.ts takes it out.
use quipay_backend.Prelude.{
  ℕ, ◌+◌, String, ◌≡◌, refl, sym, ap, ◌∙◌, true, false, not, Option, none, some, if◌then◌else◌,
  if-both, if-true, if-false, ◌==◌, nat_eq, string_eq, ==_refl,
}
use quipay_backend.Map
use quipay_backend.Dlq.{
  Json, text, DlqItem, Reason, pending, due_at, due_value, push_to_dlq, webhook_job_type,
}
use quipay_backend.Webhooks.Model.{
  Env, World, OutboundAttempt, EventStatus, insert_webhook_outbound_attempt,
  compute_webhook_dlq_next_retry_at_ms, update_webhook_outbound_event_after_attempt,
}
use quipay_backend.Webhooks.Delivery.{
  Attempt, attempt_row, logged, WebhookDeliveryResult, deliver_webhook_request, log_attempt,
  finish_attempt, attempt_delivery_once,
}
use quipay_backend.Webhooks.Worker.{
  truthy, full_text, option_or, to_non_negative_int, resolve_target_url, resolve_request_payload,
}
use quipay_backend.Webhooks.Worker.Turns.{retry_count_of}

-- The queue, its ids and the pool as they are.
abbrev Same : World → World → Type 0
Same w v = (v.dlq ≡ w.dlq) × (v.ids ≡ w.ids) × (v.connected ≡ w.connected)

insert-Same :
    (attempt : OutboundAttempt) (w : World) → Same w (insert_webhook_outbound_attempt attempt w)
unfolding insert_webhook_outbound_attempt
insert-Same attempt w = if-both (Same w) w.connected (refl, refl, refl) (refl, refl, refl)

update-Same :
    (id : String) (status : EventStatus) (count : ℕ) (code : Option ℕ) (error : Option Reason)
    (w : World)
    → Same w (update_webhook_outbound_event_after_attempt id status count code error w)
unfolding update_webhook_outbound_event_after_attempt
update-Same id status count code error w =
    if-both (Same w) w.connected (refl, refl, refl) (refl, refl, refl)

Same-trans : (u v w : World) → Same u v → Same v w → Same u w
Same-trans u v w a b = (b.0 ∙ a.0, b.1 ∙ a.1, b.2 ∙ a.2)

log_attempt-Same :
    (p : Attempt) (result : WebhookDeliveryResult) (w : World) → Same w (log_attempt p result w)
unfolding log_attempt
log_attempt-Same p result w =
    if-both (Same w) w.connected
      (Same-trans w (insert_webhook_outbound_attempt (attempt_row p result) w) (logged p result w)
        (insert-Same (attempt_row p result) w)
        (update-Same p.event_id _ p.attempt_number result.status_code _ _))
      (refl, refl, refl)

-- A row that waits for the worker with an attempt's URL and payload.
abbrev pub Waits : ℕ → Attempt → DlqItem → Type 0
Waits now p row =
    (row.job_type ≡ webhook_job_type)
    × (row.status ≡ pending)
    × (resolve_target_url row.payload row.context ≡ some p.url)
    × (resolve_request_payload row.payload ≡ some p.outgoing_payload)
    × (retry_count_of row ≡ 0)
    × (due_at row ≡ now + 30000)

given_url :
    (url : String) (other : Option Json) (context : Option String)
    → ("" == url) ≡ false
    → option_or (full_text (if truthy (some (text url)) then some (text url) else other)) context
      ≡ some url
given_url url other context given =
    ap (λ (o : Option Json). option_or (full_text o) context)
      (if-true (truthy (some (text url))) other (ap not given))
    ∙ ap (λ (o : Option String). option_or o context) (if-false ("" == url) none given)

finish_attempt-Waits :
    (now : ℕ) (p : Attempt) (result : WebhookDeliveryResult) (w : World)
    → w.connected ≡ true
    → result.succeeded ≡ false
    → ("" == p.url) ≡ false
    → (row : DlqItem) × (Map.lookup w.ids (finish_attempt now p result w).dlq ≡ some row)
      × Waits now p row
unfolding finish_attempt push_to_dlq compute_webhook_dlq_next_retry_at_ms resolve_target_url
    resolve_request_payload retry_count_of to_non_negative_int due_at due_value Map.lookup
finish_attempt-Waits now p result w up failed given = (
  _,
  ap (λ (v : World). Map.lookup w.ids v.dlq) (if-false result.succeeded _ failed)
      ∙ ap (λ (v : World). Map.lookup w.ids v.dlq) (if-true w.connected _ up)
      ∙ Map.lookup-insert w.ids w.ids _ w.dlq
      ∙ if-true _ _ (==_refl w.ids),
  (refl, refl, given_url p.url _ _ given, refl, refl, refl),
)

-- While the pool is there, a delivery that fails leaves in the queue a pending row that falls due
-- 30 seconds later with no retry counted, and of which the worker reads back the URL and the
-- payload of the attempt, where the URL is not empty.
pub attempt_delivery_once-Waits :
    (env : Env) (now : ℕ) (p : Attempt) (w : World)
    → w.connected ≡ true
    → (deliver_webhook_request env p.url p.outgoing_payload w).0.succeeded ≡ false
    → ("" == p.url) ≡ false
    → (row : DlqItem) × (Map.lookup w.ids (attempt_delivery_once env now p w).dlq ≡ some row)
      × Waits now p row
unfolding attempt_delivery_once deliver_webhook_request
attempt_delivery_once-Waits env now p w up failed given =
    let result = (deliver_webhook_request env p.url p.outgoing_payload w).0 in
    let sent = (deliver_webhook_request env p.url p.outgoing_payload w).1 in
    let same = log_attempt-Same p result sent in
    let waits =
      finish_attempt-Waits now p result (log_attempt p result sent) (same.2 ∙ up) failed given in
    (
      waits.0,
      sym (
            ap (λ i. Map.lookup i (finish_attempt now p result (log_attempt p result sent)).dlq)
              same.1)
          ∙ waits.1,
      waits.2,
    )
