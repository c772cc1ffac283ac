-- ===== src/Webhooks/Notification.antt =====
-- delivery.ts: `sendWebhookNotification` and `retryWebhookEvent`. The deliveries of a notification
-- start together: they touch rows of their own, and stand here one after another.
use quipay_backend.Prelude.{
  ℕ, ◌+◌, String, Option, none, some, List, [], ◌∷◌, map, if◌then◌else◌, ◌==◌, nat_eq, string_eq,
  length, keep, any,
}
use quipay_backend.Map
use quipay_backend.Dlq.{Json, num, Reason, sentence}
use quipay_backend.Webhooks.Model.{
  Env, WebhookSubscription, OutboundEvent, World, create_webhook_outbound_event,
  update_webhook_outbound_event_after_attempt, failed,
}
use quipay_backend.Webhooks.Payload.{build_outgoing_payload}
use quipay_backend.Webhooks.Delivery.{enqueue_dead_letter, attempt_delivery_once}

-- One subscriber of `sendWebhookNotification`.
notify : Env → ℕ → String → Json → WebhookSubscription → World → World
unfolding build_outgoing_payload create_webhook_outbound_event attempt_delivery_once
notify env now event_type payload sub w =
    let outgoing = build_outgoing_payload env now sub event_type payload in
    let event_id = env.uuid (length w.sent) in
    attempt_delivery_once env now
      (record {
        event_id = event_id;
        url = sub.url;
        event_type = event_type;
        outgoing_payload = outgoing;
        attempt_number = 1;
      })
      (create_webhook_outbound_event event_id sub.owner_id sub.id sub.url event_type outgoing w)

notify_all : Env → ℕ → String → Json → List WebhookSubscription → World → World
unfolding notify
notify_all env now event_type payload [] w = w
notify_all env now event_type payload (sub ∷ subs) w =
    notify_all env now event_type payload subs (notify env now event_type payload sub w)

unfoldable pub send_webhook_notification :
    Env → ℕ → String → Json → List (String × WebhookSubscription) → World → World
unfolding notify_all
send_webhook_notification env now event_type payload webhook_store w =
    notify_all env now event_type payload
      (keep (λ (sub : WebhookSubscription). any (λ (name : String). name == event_type) sub.events)
        (map (λ (entry : String × WebhookSubscription). entry.1) webhook_store))
      w

-- The errors that `retryWebhookEvent` throws, or what it leaves.
pub data Retried : Type 0 where
  not_configured not_found : Retried
  done : World → Retried

abbrev missing_subscription : Reason
missing_subscription = sentence "Subscription not found (deleted or not loaded)"

abbrev retry_found :
    Env → ℕ → String → Option WebhookSubscription → Option OutboundEvent → World → Retried
retry_found env now event_id sub none w = not_found
retry_found env now event_id none (some ev) w = done (
    enqueue_dead_letter now event_id ev.url ev.event_type ev.request_payload missing_subscription
      (("attemptCount", num ev.attempt_count) ∷ [])
      (update_webhook_outbound_event_after_attempt event_id failed ev.attempt_count
        ev.last_response_code (some missing_subscription) w))
retry_found env now event_id (some sub) (some ev) w = done (
    attempt_delivery_once env now
      (record {
        event_id = event_id;
        url = ev.url;
        event_type = ev.event_type;
        outgoing_payload = ev.request_payload;
        attempt_number = ev.attempt_count + 1;
      })
      w)

abbrev subscription_of :
    List (String × WebhookSubscription) → Option OutboundEvent → Option WebhookSubscription
subscription_of webhook_store none = none
subscription_of webhook_store (some ev) = Map.lookup ev.subscription_id webhook_store

unfoldable pub retry_webhook_event :
    Env → ℕ → List (String × WebhookSubscription) → String → World → Retried
unfolding update_webhook_outbound_event_after_attempt attempt_delivery_once
retry_webhook_event env now webhook_store event_id w =
    let ev = Map.lookup event_id w.events in
    if w.connected
    then retry_found env now event_id (subscription_of webhook_store ev) ev w
    else not_configured
