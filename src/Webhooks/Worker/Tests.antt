-- ===== src/Webhooks/Worker/Tests.antt =====
-- Runs of delivery.ts and webhookDlqWorker.ts, and their laws at inputs.
use quipay_backend.Prelude.{
  ◌+◌, ◌-◌, ◌≤◌, String, ◌≡◌, refl, true, false, none, some, List, [], ◌∷◌, map, ltb, if◌then◌else◌,
  nat_eq, string_eq,
}
use quipay_backend.Map
use quipay_backend.Webhooks.Notification.{send_webhook_notification, retry_webhook_event, not_found}
use quipay_backend.Dlq.{text, num, DlqItem, pending, list_due_webhook_dlq_items, webhook_job_type}
use quipay_backend.Webhooks.Model.{WebhookSubscription, Request, Env, World, answered}
use quipay_backend.Webhooks.Delivery.{Attempt, deliver_webhook_request, attempt_delivery_once}
use quipay_backend.Webhooks.Worker.{run_webhook_dlq_retry_batch, process_webhook_dlq_item}
use quipay_backend.Webhooks.Worker.Lifetime.{
  Spares, turns, turns_left, turns_of, requests_for, process_webhook_dlq_item-Spares, turns-bounded,
}
use quipay_backend.Webhooks.Worker.Handover.{Waits, attempt_delivery_once-Waits}

-- A network that fails with 500 until the second request has been made.
abbrev env : Env
env = record {
  answer = λ n request. if ltb n 2 then answered 500 none else answered 200 (some "ok");
  duration = λ n. 12;
  signing_secret = none;
  hmac = λ key body. body;
  uuid = λ n. "event";
  stringify = λ v. "{}";
  stringify_indented = λ v. "{}";
  upper_case = λ s. s;
  includes = λ s part. false;
  iso_time = λ t. "now";
}

abbrev empty : World
empty = record {
  connected = true;
  events = [];
  attempts = [];
  dlq = [];
  ids = 1;
  audits = [];
  sent = [];
  metrics = [];
}

abbrev attempt : Attempt
attempt = record {
  event_id = "event";
  url = "https://a.example";
  event_type = "withdrawal";
  outgoing_payload = num 7;
  attempt_number = 1;
}

abbrev item : DlqItem
item = record {
  job_type = webhook_job_type;
  payload = ("url", text "https://a.example") ∷ ("payload", num 7) ∷ [];
  error_stack = none;
  context = ("retryCount", num 1) ∷ [];
  status = pending;
  created_at = 5;
}

abbrev one_item : World
one_item = record empty { dlq = (1, item) ∷ []; ids = 2 }

abbrev subscriptions : List (String × WebhookSubscription)
subscriptions =
    (
      "s1",
      record { id = "s1"; owner_id = "o"; url = "https://a.example"; events = "withdrawal" ∷ [] },
    )
    ∷ (
      "s2",
      record { id = "s2"; owner_id = "o"; url = "https://b.example"; events = "created" ∷ [] },
    )
    ∷ []

-- Only the subscriber of the event is sent to; its failure is put into the queue.
notified :
    map
      (λ (r : Request). r.url)
      (send_webhook_notification env 5 "withdrawal" (num 7) subscriptions empty).sent
    ≡ "https://a.example" ∷ []
unfolding send_webhook_notification
notified = refl

retry_of_nothing : retry_webhook_event env 5 subscriptions "e" empty ≡ not_found
unfolding retry_webhook_event Map.lookup
retry_of_nothing = refl

batch_of_one : (run_webhook_dlq_retry_batch env 100 (λ t. 100 + t) 10 one_item).0 ≡ 1
unfolding run_webhook_dlq_retry_batch list_due_webhook_dlq_items Map.lookup
batch_of_one = refl

process_webhook_dlq_item-Spares_example :
    Spares 1 one_item (process_webhook_dlq_item env 100 1 item one_item)
process_webhook_dlq_item-Spares_example = process_webhook_dlq_item-Spares env 100 1 item one_item

turns-bounded_example :
    (requests_for env 1 ((100, 1) ∷ (900000, 1) ∷ []) one_item
        + turns_left (Map.lookup 1 (turns env ((100, 1) ∷ (900000, 1) ∷ []) one_item).dlq)
      ≤ turns_left (Map.lookup 1 one_item.dlq))
    × (turns_left (Map.lookup 1 (turns env ((100, 1) ∷ (900000, 1) ∷ []) one_item).dlq)
        ≤ turns_left (Map.lookup 1 one_item.dlq) - turns_of 1 ((100, 1) ∷ (900000, 1) ∷ []))
turns-bounded_example = turns-bounded env 1 ((100, 1) ∷ (900000, 1) ∷ []) one_item refl

attempt_delivery_once-Waits_example :
    (row : DlqItem) × (Map.lookup 1 (attempt_delivery_once env 60 attempt empty).dlq ≡ some row)
    × Waits 60 attempt row
unfolding deliver_webhook_request
attempt_delivery_once-Waits_example =
    attempt_delivery_once-Waits env 60 attempt empty refl refl refl
