-- ===== src/Webhooks/Worker/Turns.antt =====
-- What `processWebhookDLQItem` of webhookDlqWorker.ts makes of an item.
use quipay_backend.Prelude.{
  ℕ, zero, suc, ◌+◌, ◌<◌, String, ◌≡◌, refl, sym, ap, ◌∙◌, ◌⊎◌, inl, inr, true, false, Option, none,
  some, List, [], ◌∷◌, ◌++◌, arith, leb, if-both, if-split, if-true, nat_eq, string_eq, length,
  get_elem?, length-append,
}
use quipay_backend.Map
use quipay_backend.Dlq.{
  Json, num, Fields, Reason, DlqItem, DlqTable, ItemStatus, replayed, discarded, due_at, due_value,
  merge, patch_dlq_item_context, update_dlq_item_status,
}
use quipay_backend.Webhooks.Model.{
  Env, World, PermanentFailure, Request, webhook_dlq_backoff_schedule_ms,
  compute_webhook_dlq_next_retry_at_ms,
}
use quipay_backend.Webhooks.Delivery.{
  WebhookDeliveryResult, failure_reason, deliver_webhook_request,
}
use quipay_backend.Webhooks.Payload.{outgoing_request}
use quipay_backend.Webhooks.Worker.Answers.{
  IsAccepted, IsRefused, IsAnswered, read_answer-IsAccepted, read_answer-IsRefused,
}
use quipay_backend.Webhooks.Worker.{
  to_non_negative_int, resolve_target_url, resolve_request_payload, progress, discard, finish_item,
  process_resolved, process_webhook_dlq_item, insert_permanent_failure_audit_event,
}

-- The retries that the worker reads from an item's context.
unfoldable pub retry_count_of : DlqItem → ℕ
retry_count_of item = to_non_negative_int (Map.lookup "retryCount" item.context)

-- The delays after the first, second, … failed retry: the schedule but its first entry.
pub backoff_after : ℕ → Option ℕ
backoff_after retry_count = get_elem? webhook_dlq_backoff_schedule_ms retry_count

-- How an item that is in the table ends a turn: replayed by one request that was accepted, given up
-- with one audit event and at most one request, which was refused, or kept with its count raised by
-- one request that was refused and its next turn after the delay of the schedule.
pub data Outcome (env : Env) (now id : ℕ) (item : DlqItem) (w w' : World) : Type 0 where
  was_replayed :
      (row : DlqItem)
      → Map.lookup id w'.dlq ≡ some row
      → row.status ≡ replayed
      → w'.audits ≡ w.audits
      → length w'.sent ≡ suc (length w.sent)
      → retry_count_of item < 5
      → IsAnswered IsAccepted env item w
      → Outcome env now id item w w'
  was_given_up :
      (row : DlqItem) (failure : PermanentFailure)
      → Map.lookup id w'.dlq ≡ some row
      → row.status ≡ discarded
      → failure.dlq_id ≡ id
      → w'.audits ≡ w.audits ++ (failure ∷ [])
      → (length w'.sent ≡ length w.sent)
        ⊎ ((length w'.sent ≡ suc (length w.sent)) × (retry_count_of item < 5))
      → (length w'.sent ≡ length w.sent) ⊎ IsAnswered IsRefused env item w
      → Outcome env now id item w w'
  was_kept :
      (row : DlqItem) (delay : ℕ)
      → Map.lookup id w'.dlq ≡ some row
      → row.status ≡ item.status
      → retry_count_of row ≡ suc (retry_count_of item)
      → suc (retry_count_of item) < 5
      → backoff_after (suc (retry_count_of item)) ≡ some delay
      → due_at row ≡ now + delay
      → w'.audits ≡ w.audits
      → length w'.sent ≡ suc (length w.sent)
      → IsAnswered IsRefused env item w
      → Outcome env now id item w w'

lookup-update_dlq_item_status :
    (id : ℕ) (status : ItemStatus) (item : DlqItem) (t : DlqTable)
    → Map.lookup id t ≡ some item
    → Map.lookup id (update_dlq_item_status id status t) ≡ some (record item { status = status })
unfolding update_dlq_item_status
lookup-update_dlq_item_status id status item t found = Map.adjust-there id _ t item found

lookup-patch_dlq_item_context :
    (id : ℕ) (patch : Fields) (reason : Option Reason) (item : DlqItem) (t : DlqTable)
    → Map.lookup id t ≡ some item
    → (row : DlqItem) × (Map.lookup id (patch_dlq_item_context id patch reason t) ≡ some row)
      × (row.status ≡ item.status)
      × (row.context ≡ merge item.context patch)
unfolding patch_dlq_item_context
lookup-patch_dlq_item_context id patch none item t found =
    (_, Map.adjust-there id _ t item found, refl, refl)
lookup-patch_dlq_item_context id patch (some r) item t found =
    (_, Map.adjust-there id _ t item found, refl, refl)

length-sent : (xs : List Request) (x : Request) → length (xs ++ (x ∷ [])) ≡ suc (length xs)
length-sent xs x = omega (arith, length-append xs (x ∷ []))

retry_count-merge :
    (context : Fields) (k : ℕ) (due code : Option ℕ) (now : ℕ)
    → to_non_negative_int (Map.lookup "retryCount" (merge context (progress k due code now))) ≡ k
unfolding merge to_non_negative_int
retry_count-merge context k due code now = simp Map.lookup-insert refl

due-merge :
    (context : Fields) (k due : ℕ) (code : Option ℕ) (now : ℕ)
    → due_value (Map.lookup "nextRetryAtMs" (merge context (progress k (some due) code now))) ≡ due
unfolding merge due_value
due-merge context k due code now = simp Map.lookup-insert refl

audits-discard :
    (now id : ℕ) (item : DlqItem) (url : Option String) (k : ℕ) (code : Option ℕ) (reason : Reason)
    (w : World)
    → w.connected ≡ true
    → (failure : PermanentFailure) × (failure.dlq_id ≡ id)
      × ((discard now id item url k code reason w).audits ≡ w.audits ++ (failure ∷ []))
unfolding discard insert_permanent_failure_audit_event
audits-discard now id item url k code reason w up =
    (_, refl, ap (λ (v : World). v.audits) (if-true w.connected _ up))

dlq-discard :
    (now id : ℕ) (item : DlqItem) (url : Option String) (k : ℕ) (code : Option ℕ) (reason : Reason)
    (w : World)
    → (discard now id item url k code reason w).dlq
      ≡ patch_dlq_item_context id
          (progress k none code now)
          (some reason)
          (update_dlq_item_status id discarded w.dlq)
unfolding discard insert_permanent_failure_audit_event
dlq-discard now id item url k code reason w =
    if-both
      (λ (v : World).
        v.dlq
        ≡ patch_dlq_item_context id (progress k none code now) (some reason)
            (update_dlq_item_status id discarded w.dlq))
      w.connected refl refl

sent-discard :
    (now id : ℕ) (item : DlqItem) (url : Option String) (k : ℕ) (code : Option ℕ) (reason : Reason)
    (w : World)
    → (discard now id item url k code reason w).sent ≡ w.sent
unfolding discard insert_permanent_failure_audit_event
sent-discard now id item url k code reason w =
    if-both (λ (v : World). v.sent ≡ w.sent) w.connected refl refl

-- An item given up before `before` or after a request.
discard-Outcome :
    (env : Env) (now id : ℕ) (item : DlqItem) (url : Option String) (k : ℕ) (code : Option ℕ)
    (reason : Reason) (before w : World)
    → w.connected ≡ true
    → Map.lookup id w.dlq ≡ some item
    → w.audits ≡ before.audits
    → (length w.sent ≡ length before.sent)
      ⊎ ((length w.sent ≡ suc (length before.sent)) × (retry_count_of item < 5))
    → (length w.sent ≡ length before.sent) ⊎ IsAnswered IsRefused env item before
    → Outcome env now id item before (discard now id item url k code reason w)
discard-Outcome env now id item url k code reason before w up found same made refused =
    let given_up = lookup-update_dlq_item_status id discarded item w.dlq found in
    let patched =
      lookup-patch_dlq_item_context id (progress k none code now) (some reason) _ _ given_up in
    let audited = audits-discard now id item url k code reason w up in
    let unsent =
      ap (λ (l : List Request). length l) (sent-discard now id item url k code reason w) in
    was_given_up patched.0 audited.0
      (ap (λ (t : DlqTable). Map.lookup id t) (dlq-discard now id item url k code reason w)
        ∙ patched.1)
      patched.2 audited.1
      (audited.2 ∙ ap (λ (l : List PermanentFailure). l ++ (audited.0 ∷ [])) same)
      (elim made [
        | inl none_made ↦ inl (unsent ∙ none_made)
        | inr (one_made, few) ↦ inr (unsent ∙ one_made, few)
      ])
      (elim refused [ inl none_made ↦ inl (unsent ∙ none_made) | inr answer ↦ inr answer ])

delay-after :
    (now k : ℕ)
    → k < 5
    → (delay : ℕ) × (backoff_after k ≡ some delay)
      × (compute_webhook_dlq_next_retry_at_ms now k ≡ some (now + delay))
unfolding backoff_after compute_webhook_dlq_next_retry_at_ms
delay-after now zero few = (_, refl, refl)
delay-after now (suc zero) few = (_, refl, refl)
delay-after now (suc (suc zero)) few = (_, refl, refl)
delay-after now (suc (suc (suc zero))) few = (_, refl, refl)
delay-after now (suc (suc (suc (suc zero)))) few = (_, refl, refl)
delay-after now (suc (suc (suc (suc (suc k))))) few = absurd (omega (arith, few))

-- The turn of an item after its request.
finish_item-Outcome :
    (env : Env) (now id : ℕ) (item : DlqItem) (url : String) (result : WebhookDeliveryResult)
    (before w : World)
    → (result.succeeded ≡ true → IsAnswered IsAccepted env item before)
    → (result.succeeded ≡ false → IsAnswered IsRefused env item before)
    → w.connected ≡ true
    → Map.lookup id w.dlq ≡ some item
    → w.audits ≡ before.audits
    → length w.sent ≡ suc (length before.sent)
    → retry_count_of item < 5
    → Outcome env now id item before (finish_item now id item url (retry_count_of item) result w)
unfolding finish_item due_at retry_count_of
finish_item-Outcome env now id item url result before w on_good on_bad up found same one few =
    if-split (Outcome env now id item before) result.succeeded
      (λ good.
        let accepted = lookup-update_dlq_item_status id replayed item w.dlq found in
        let patched =
          lookup-patch_dlq_item_context id
            (progress (retry_count_of item) none result.status_code now
              ++ (("deliveredAtMs", num now) ∷ []))
            none _ _ accepted in
        was_replayed patched.0 patched.1 patched.2 same one few (on_good good))
      (λ bad.
        if-split (Outcome env now id item before) (leb 5 (retry_count_of item + 1))
          (λ last.
            discard-Outcome env now id item _ _ _ _ before w up found same (inr (one, few))
              (inr (on_bad bad)))
          (λ more.
            let k = retry_count_of item + 1 in
            let add_one : k ≡ suc (retry_count_of item) = omega arith in
            let delay = delay-after now k (ground (arith, more)) in
            let patched =
              lookup-patch_dlq_item_context id
                (progress k (compute_webhook_dlq_next_retry_at_ms now k) result.status_code now)
                (some (failure_reason result)) item w.dlq found in
            was_kept patched.0 delay.0 patched.1 patched.2
              (ap (λ (c : Fields). to_non_negative_int (Map.lookup "retryCount" c)) patched.3
                ∙ retry_count-merge item.context k _ result.status_code now
                ∙ add_one)
              (ground (arith, more)) (ap backoff_after (sym add_one) ∙ delay.1)
              (ap (λ (c : Fields). due_value (Map.lookup "nextRetryAtMs" c))
                  (patched.3
                    ∙ ap (λ o. merge item.context (progress k o result.status_code now)) delay.2)
                ∙ due-merge item.context k (now + delay.0) result.status_code now)
              same one (on_bad bad)))

resolved-Outcome :
    (env : Env) (now id : ℕ) (item : DlqItem) (url : Option String) (body : Option Json) (w : World)
    → resolve_target_url item.payload item.context ≡ url
    → resolve_request_payload item.payload ≡ body
    → w.connected ≡ true
    → Map.lookup id w.dlq ≡ some item
    → Outcome env now id item w (process_resolved env now id item (retry_count_of item) url body w)
unfolding deliver_webhook_request
resolved-Outcome env now id item none body w u b up found =
    discard-Outcome env now id item _ _ _ _ w w up found refl (inl refl) (inl refl)
resolved-Outcome env now id item (some url) none w u b up found =
    discard-Outcome env now id item _ _ _ _ w w up found refl (inl refl) (inl refl)
resolved-Outcome env now id item (some url) (some body) w u b up found =
    if-split (Outcome env now id item w) (leb 5 (retry_count_of item))
      (λ spent. discard-Outcome env now id item _ _ _ _ w w up found refl (inl refl) (inl refl))
      (λ left.
        finish_item-Outcome env now id item url _ w _
          (λ good. (
            url,
            body,
            u,
            b,
            read_answer-IsAccepted (env.duration (length w.sent))
                (env.answer (length w.sent) (outgoing_request env url body)) good,
          ))
          (λ bad. (
            url,
            body,
            u,
            b,
            read_answer-IsRefused (env.duration (length w.sent))
                (env.answer (length w.sent) (outgoing_request env url body)) bad,
          ))
          up found refl (length-sent w.sent _) (ground (arith, left)))

pub process_webhook_dlq_item-Outcome :
    (env : Env) (now id : ℕ) (item : DlqItem) (w : World)
    → w.connected ≡ true
    → Map.lookup id w.dlq ≡ some item
    → Outcome env now id item w (process_webhook_dlq_item env now id item w)
unfolding process_webhook_dlq_item retry_count_of
process_webhook_dlq_item-Outcome env now id item w up found =
    resolved-Outcome env now id item (resolve_target_url item.payload item.context)
      (resolve_request_payload item.payload) w refl refl up found
