-- ===== src/Webhooks/Worker.antt =====
-- webhookDlqWorker.ts: the batch that delivers the due webhooks of the dead letter queue again. The
-- clock is read once for an item, after its delivery; the statements succeed, so that the batch's
-- `catch` is not reached.
pub mod Answers
pub mod Turns
pub mod Handover
mod Tests
pub mod Lifetime
use Prim.Native.Char.{code}
use mathlib.Core.Option
use quipay_backend.Prelude.{
  ℕ, zero, suc, ◌+◌, ◌-◌, ◌*◌, ◌/◌, ◌%◌, ◌^◌, ◌≤◌, ◌<◌, max, min, String, ◌≡◌, refl, sym, ap, ◌∙◌,
  ◌≢◌, ◌↔◌, ◌⊎◌, inl, inr, Bool, true, false, not, ◌&&◌, ◌||◌, Option, none, some, List, [], ◌∷◌,
  ◌++◌, map, arith, eq_iff, ltb, leb, eqb, if◌then◌else◌, lt→ltb, le→leb, eqb_iff, Bool-cases,
  Option-cases, or_else, if-both, if-true, if-false, Key, ◌==◌, nat_eq, string_eq, ==_refl, length,
  get_elem?, take, drop, keep, any, find, length-append, length-drop, length-take, take-append-drop,
  All, All-append, All-drop,
}
use quipay_backend.Map
use quipay_backend.Dlq.{
  Json, null, bool, num, text, array, object, Fields, Reason, sentence, DlqItem, DlqTable,
  ItemStatus, replayed, discarded, codes, digits_value, list_due_webhook_dlq_items,
  patch_dlq_item_context, update_dlq_item_status,
}
use quipay_backend.Webhooks.Model.{
  Env, World, PermanentFailure, webhook_dlq_max_retries, compute_webhook_dlq_next_retry_at_ms,
}
use quipay_backend.Webhooks.Delivery.{
  WebhookDeliveryResult, code_json, failure_reason, deliver_webhook_request,
}

abbrev is_space : ℕ → Bool
is_space c = leb 9 c && leb c 13 || eqb c 32

-- `Number.parseInt(text, 10)` on the text's code points, with the fallback 0 for what is negative or
-- no number.
abbrev parse_unsigned : List ℕ → ℕ
parse_unsigned [] = 0
parse_unsigned (c ∷ cs) =
    let rest = parse_unsigned cs in
    if is_space c
    then rest
    else if eqb c b'+'
    then or_else (digits_value none cs) 0
    else or_else (digits_value none (c ∷ cs)) 0

-- `toNonNegativeInt(value, 0)`: the texts of what is neither a number nor a text start with no digit,
-- an array's aside, which no caller writes.
pub to_non_negative_int : Option Json → ℕ
unfolding digits_value
to_non_negative_int (some (num n)) = n
to_non_negative_int (some (text s)) = parse_unsigned (codes s)
to_non_negative_int _ = 0

-- The truth of a JSON value, `undefined` included, where `a || b` tests it.
abbrev pub truthy : Option Json → Bool
truthy none = false
truthy (some null) = false
truthy (some (bool b)) = b
truthy (some (num n)) = not (eqb n 0)
truthy (some (text s)) = not ("" == s)
truthy (some (array _)) = true
truthy (some (object _)) = true

-- A value that is a text, and not empty.
abbrev pub full_text : Option Json → Option String
full_text (some (text s)) = if "" == s then none else some s
full_text _ = none

abbrev pub option_or : Option String → Option String → Option String
option_or none b = b
option_or (some a) b = some a

pub resolve_target_url : Fields → Fields → Option String
resolve_target_url payload context =
    let target = Map.lookup "targetUrl" payload in
    let from_payload = if truthy target then target else Map.lookup "url" payload in
    option_or (full_text from_payload) (full_text (Map.lookup "targetUrl" context))

abbrev first_given : Option Json → Option Json → Option Json
first_given none b = b
first_given (some a) b = some a

pub resolve_request_payload : Fields → Option Json
resolve_request_payload payload =
    first_given (Map.lookup "requestPayload" payload)
      (first_given (Map.lookup "originalPayload" payload) (Map.lookup "payload" payload))

pub insert_permanent_failure_audit_event : PermanentFailure → World → World
insert_permanent_failure_audit_event failure w =
    if w.connected then record w { audits = w.audits ++ (failure ∷ []) } else w

-- The four values that every patch of the context writes.
abbrev pub progress : ℕ → Option ℕ → Option ℕ → ℕ → Fields
progress retry_count next_retry_at status_code now =
    ("retryCount", num retry_count)
    ∷ ("nextRetryAtMs", code_json next_retry_at)
    ∷ ("lastStatusCode", code_json status_code)
    ∷ ("lastAttemptAtMs", num now)
    ∷ []

-- Gives an item up: its status, its context, the audit event.
pub discard : ℕ → ℕ → DlqItem → Option String → ℕ → Option ℕ → Reason → World → World
unfolding update_dlq_item_status patch_dlq_item_context insert_permanent_failure_audit_event
discard now id item target_url retry_count status_code reason w =
    insert_permanent_failure_audit_event
      (record {
        dlq_id = id;
        event_id = Map.lookup "eventId" item.payload;
        event_type = Map.lookup "eventType" item.payload;
        target_url = target_url;
        retry_count = retry_count;
        status_code = status_code;
        error_message = reason;
      })
      (record w {
        dlq =
            patch_dlq_item_context id (progress retry_count none status_code now) (some reason)
              (update_dlq_item_status id discarded w.dlq);
      })

-- What follows a delivery, with the retry count that the item had.
pub finish_item : ℕ → ℕ → DlqItem → String → ℕ → WebhookDeliveryResult → World → World
unfolding discard compute_webhook_dlq_next_retry_at_ms
finish_item now id item target_url retry_count result w =
    if result.succeeded
    then record w {
      dlq =
          patch_dlq_item_context id
            (progress retry_count none result.status_code now ++ (("deliveredAtMs", num now) ∷ []))
            none (update_dlq_item_status id replayed w.dlq);
    }
    else if leb webhook_dlq_max_retries (retry_count + 1)
    then discard now id item (some target_url) (retry_count + 1) result.status_code
        (failure_reason result) w
    else record w {
      dlq =
          patch_dlq_item_context id
            (progress (retry_count + 1) (compute_webhook_dlq_next_retry_at_ms now (retry_count + 1))
              result.status_code now)
            (some (failure_reason result)) w.dlq;
    }

abbrev invalid_payload : Reason
invalid_payload = sentence "Invalid webhook DLQ payload (missing target URL or payload)"

abbrev already_exhausted : Reason
already_exhausted = sentence "Maximum DLQ webhook retry attempts already exhausted"

abbrev pub process_resolved :
    Env → ℕ → ℕ → DlqItem → ℕ → Option String → Option Json → World → World
process_resolved env now id item retry_count (some url) (some body) w =
    if leb webhook_dlq_max_retries retry_count
    then discard now id item (some url) retry_count none already_exhausted w
    else let sent = deliver_webhook_request env url body w in
      finish_item now id item url retry_count sent.0 sent.1
process_resolved env now id item retry_count none body w =
    discard now id item none retry_count none invalid_payload w
process_resolved env now id item retry_count (some url) none w =
    discard now id item (some url) retry_count none invalid_payload w

-- `processWebhookDLQItem`
pub process_webhook_dlq_item : Env → ℕ → ℕ → DlqItem → World → World
unfolding to_non_negative_int resolve_target_url resolve_request_payload discard finish_item
process_webhook_dlq_item env now id item w =
    process_resolved env now id item (to_non_negative_int (Map.lookup "retryCount" item.context))
      (resolve_target_url item.payload item.context) (resolve_request_payload item.payload) w

pub process_items : Env → (ℕ → ℕ) → ℕ → DlqTable → World → World
unfolding process_webhook_dlq_item
process_items env clock tick [] w = w
process_items env clock tick ((id, item) ∷ items) w =
    process_items env clock (suc tick) items (process_webhook_dlq_item env (clock tick) id item w)

-- `runWebhookDLQRetryBatch` at a time, with the clock as it goes on.
unfoldable pub run_webhook_dlq_retry_batch : Env → ℕ → (ℕ → ℕ) → ℕ → World → ℕ × World
unfolding process_items
run_webhook_dlq_retry_batch env now clock batch_size w =
    let items = list_due_webhook_dlq_items batch_size now w.dlq in
    if w.connected then (length items, process_items env clock 0 items w) else (0, w)
