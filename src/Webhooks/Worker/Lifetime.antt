-- ===== src/Webhooks/Worker/Lifetime.antt =====
-- The life of a dead letter over the worker's batches. A turn processes an item that is pending, as
-- the batch's list has no other; turns of different items may come in any order.
use quipay_backend.Prelude.{
  ℕ, suc, ◌+◌, ◌-◌, ◌≤◌, max, String, ◌≡◌, refl, ap, ◌∙◌, ◌⊎◌, inl, inr, true, false, Option, none,
  some, List, [], ◌∷◌, ◌++◌, arith, leb, if◌then◌else◌, eqb_iff, Bool-cases, Option-cases, if-both,
  if-false, ◌==◌, nat_eq, string_eq, length,
}
use quipay_backend.Map
use quipay_backend.Dlq.{
  Json, Fields, Reason, DlqItem, DlqTable, ItemStatus, is_pending, replayed, discarded, num,
  patch_dlq_item_context, update_dlq_item_status,
}
use quipay_backend.Webhooks.Model.{Env, World, compute_webhook_dlq_next_retry_at_ms}
use quipay_backend.Webhooks.Delivery.{
  WebhookDeliveryResult, deliver_webhook_request, failure_reason,
}
use quipay_backend.Webhooks.Worker.{
  progress, resolve_target_url, resolve_request_payload, discard, finish_item, process_resolved,
  process_webhook_dlq_item, insert_permanent_failure_audit_event,
}
use quipay_backend.Webhooks.Worker.Turns.{
  retry_count_of, Outcome, was_replayed, was_given_up, was_kept, process_webhook_dlq_item-Outcome,
}

-- What a turn of an item leaves alone: the other items, the pool, the log of outbound events.
abbrev pub Spares : ℕ → World → World → Type 0
Spares id w w' =
    ((j : ℕ) → (id == j) ≡ false → Map.lookup j w'.dlq ≡ Map.lookup j w.dlq)
    × (w'.connected ≡ w.connected)
    × (w'.events ≡ w.events)

patched-other :
    (id j : ℕ) (patch : Fields) (reason : Option Reason) (t : DlqTable)
    → (id == j) ≡ false
    → Map.lookup j (patch_dlq_item_context id patch reason t) ≡ Map.lookup j t
unfolding patch_dlq_item_context
patched-other id j patch reason t other = Map.lookup-adjust id j _ t ∙ if-false _ _ other

marked-other :
    (id j : ℕ) (status : ItemStatus) (t : DlqTable)
    → (id == j) ≡ false
    → Map.lookup j (update_dlq_item_status id status t) ≡ Map.lookup j t
unfolding update_dlq_item_status
marked-other id j status t other = Map.lookup-adjust id j _ t ∙ if-false _ _ other

discard-Spares :
    (now id : ℕ) (item : DlqItem) (url : Option String) (k : ℕ) (code : Option ℕ) (reason : Reason)
    (w : World)
    → Spares id w (discard now id item url k code reason w)
unfolding discard insert_permanent_failure_audit_event
discard-Spares now id item url k code reason w =
    if-both (Spares id w) w.connected (others, refl, refl) (others, refl, refl)
  where
    others :
        (j : ℕ)
        → (id == j) ≡ false
        → Map.lookup j (
            patch_dlq_item_context id
              (progress k none code now)
              (some reason)
              (update_dlq_item_status id discarded w.dlq))
          ≡ Map.lookup j w.dlq
    others j other =
        patched-other id j (progress k none code now) (some reason) _ other
        ∙ marked-other id j discarded w.dlq other

finish_item-Spares :
    (now id : ℕ) (item : DlqItem) (url : String) (k : ℕ) (result : WebhookDeliveryResult)
    (w : World)
    → Spares id w (finish_item now id item url k result w)
unfolding finish_item
finish_item-Spares now id item url k result w =
    if-both (Spares id w) result.succeeded
      (
        (λ j other.
            patched-other id j
              (progress k none result.status_code now ++ (("deliveredAtMs", num now) ∷ [])) none _
              other
            ∙ marked-other id j replayed w.dlq other),
        refl,
        refl,
      )
      (if-both (Spares id w) (leb 5 (k + 1)) (discard-Spares now id item _ _ _ _ w) (
        (λ j other.
            patched-other id j
              (progress (k + 1) (compute_webhook_dlq_next_retry_at_ms now (k + 1))
                result.status_code now)
              (some (failure_reason result)) w.dlq other),
        refl,
        refl,
      ))

resolved-Spares :
    (env : Env) (now id : ℕ) (item : DlqItem) (k : ℕ) (url : Option String) (body : Option Json)
    (w : World)
    → Spares id w (process_resolved env now id item k url body w)
unfolding deliver_webhook_request
resolved-Spares env now id item k none body w = discard-Spares now id item _ _ _ _ w
resolved-Spares env now id item k (some url) none w = discard-Spares now id item _ _ _ _ w
resolved-Spares env now id item k (some url) (some body) w =
    if-both (Spares id w) (leb 5 k) (discard-Spares now id item _ _ _ _ w)
      (finish_item-Spares now id item url k _ _)

-- A turn of an item, however it ends, changes no other item of the queue, no row of
-- `webhook_outbound_events` and not the pool.
pub process_webhook_dlq_item-Spares :
    (env : Env) (now id : ℕ) (item : DlqItem) (w : World)
    → Spares id w (process_webhook_dlq_item env now id item w)
unfolding process_webhook_dlq_item
process_webhook_dlq_item-Spares env now id item w =
    resolved-Spares env now id item _ (resolve_target_url item.payload item.context)
      (resolve_request_payload item.payload) w

-- The turns that an item has left at most: one for each retry left, and one to be given up.
pub turns_left : Option DlqItem → ℕ
turns_left none = 0
turns_left (some item) = if is_pending item.status then max 1 (5 - retry_count_of item) else 0

abbrev turn_of : Env → ℕ → ℕ → Option DlqItem → World → World
turn_of env now id none w = w
turn_of env now id (some item) w =
    if is_pending item.status then process_webhook_dlq_item env now id item w else w

-- A turn of the item `id` at a time.
unfoldable pub turn : Env → ℕ × ℕ → World → World
turn env (now, id) w = turn_of env now id (Map.lookup id w.dlq) w

pub turns : Env → List (ℕ × ℕ) → World → World
unfolding turn
turns env [] w = w
turns env (t ∷ ts) w = turns env ts (turn env t w)

-- The requests sent in the turns of `id`, and the number of its turns.
unfoldable pub requests_for : Env → ℕ → List (ℕ × ℕ) → World → ℕ
unfolding turn
requests_for env id [] w = 0
requests_for env id (t ∷ ts) w =
    let later = requests_for env id ts (turn env t w) in
    if t.1 == id then length (turn env t w).sent - length w.sent + later else later

pub turns_of : ℕ → List (ℕ × ℕ) → ℕ
turns_of id [] = 0
turns_of id (t ∷ ts) = let later = turns_of id ts in if t.1 == id then suc later else later

-- A pending item's turn sends no more requests than it takes turns away, and takes one at least.
Outcome-turns_left :
    (env : Env) (now id : ℕ) (item : DlqItem) (w w' : World)
    → is_pending item.status ≡ true
    → Outcome env now id item w w'
    → (suc (turns_left (Map.lookup id w'.dlq)) ≤ turns_left (some item))
      × (length w'.sent - length w.sent + turns_left (Map.lookup id w'.dlq)
          ≤ turns_left (some item))
unfolding turns_left
Outcome-turns_left env now id item w w' live (was_replayed row there status audits one few answer) =
    rw (there, live, ap is_pending status, one) (omega arith, omega arith)
Outcome-turns_left env now id item w w' live
      (was_given_up row failure there status a b made answer) =
    rw (there, live, ap is_pending status) (omega arith, omega (arith, made))
Outcome-turns_left env now id item w w' live
      (was_kept row delay there status up few d e f one answer) =
    rw (there, ap is_pending status, live, up, one) (omega (arith, few), omega (arith, few))

module _ (env : Env) where
  turn-cases :
      (now id : ℕ) (w : World)
      → ((turn env (now, id) w ≡ w) × (turns_left (Map.lookup id w.dlq) ≡ 0))
        ⊎ ((item : DlqItem) × (Map.lookup id w.dlq ≡ some item)
            × (is_pending item.status ≡ true)
            × (turn env (now, id) w ≡ process_webhook_dlq_item env now id item w))
  unfolding turn turns_left
  turn-cases now id w = elim (Option-cases (Map.lookup id w.dlq)) [
    | inl gone ↦ inl (rw (gone, turn_of) refl, rw gone refl)
    | inr (item, found) ↦ elim (Bool-cases (is_pending item.status)) [
      | inl live ↦ inr (item, found, live, rw (found, live, turn_of) refl)
      | inr closed ↦ inl (rw (found, closed, turn_of) refl, rw (found, closed) refl)
    ]
  ]

  turn-other :
      (now i j : ℕ) (w : World)
      → (i == j) ≡ false
      → Map.lookup j (turn env (now, i) w).dlq ≡ Map.lookup j w.dlq
  turn-other now i j w other = elim (turn-cases now i w) [
    | inl (idle, _) ↦ rw idle refl
    | inr (item, _, _, processed) ↦
        rw processed ((process_webhook_dlq_item-Spares env now i item w).0 j other)
  ]

  connected-turn : (now i : ℕ) (w : World) → (turn env (now, i) w).connected ≡ w.connected
  connected-turn now i w = elim (turn-cases now i w) [
    | inl (idle, _) ↦ rw idle refl
    | inr (item, _, _, processed) ↦
        rw processed ((process_webhook_dlq_item-Spares env now i item w).1)
  ]

  turn-turns_left :
      (now id : ℕ) (w : World)
      → w.connected ≡ true
      → (turns_left (Map.lookup id (turn env (now, id) w).dlq)
          ≤ turns_left (Map.lookup id w.dlq) - 1)
        × (length (turn env (now, id) w).sent
              - length w.sent
              + turns_left (Map.lookup id (turn env (now, id) w).dlq)
            ≤ turns_left (Map.lookup id w.dlq))
  turn-turns_left now id w up = elim (turn-cases now id w) [
    | inl (idle, none_left) ↦ rw idle (omega (arith, none_left), omega arith)
    | inr (item, found, live, processed) ↦
        let left =
          Outcome-turns_left env now id item w _ live
            (process_webhook_dlq_item-Outcome env now id item w up found) in
        rw (processed, found) (omega (arith, left), omega (arith, left))
  ]

  turn-turns_left_at :
      (now i id : ℕ) (w : World)
      → i ≡ id
      → w.connected ≡ true
      → (turns_left (Map.lookup id (turn env (now, i) w).dlq)
          ≤ turns_left (Map.lookup id w.dlq) - 1)
        × (length (turn env (now, i) w).sent
              - length w.sent
              + turns_left (Map.lookup id (turn env (now, i) w).dlq)
            ≤ turns_left (Map.lookup id w.dlq))
  turn-turns_left_at now i id w here up = rw here (turn-turns_left now id w up)

  -- While the pool is there, whatever turns come and whatever the network answers: the requests made
  -- in a dead letter's turns and the turns left to it after them come to no more than the turns it
  -- had, which are five at most; and each of its turns takes one away while any is left, so that
  -- after as many turns as it had none is left and it is no longer pending.
  pub turns-bounded :
      (id : ℕ) (ts : List (ℕ × ℕ)) (w : World)
      → w.connected ≡ true
      → (requests_for env id ts w + turns_left (Map.lookup id (turns env ts w).dlq)
          ≤ turns_left (Map.lookup id w.dlq))
        × (turns_left (Map.lookup id (turns env ts w).dlq)
            ≤ turns_left (Map.lookup id w.dlq) - turns_of id ts)
  unfolding turns requests_for turns_of
  turns-bounded id [] w up = (omega arith, omega arith)
  turns-bounded id ((now, i) ∷ ts) w up =
      let later = turns-bounded id ts (turn env (now, i) w) (connected-turn now i w ∙ up) in
      elim (Bool-cases (i == id)) [
        | inl same ↦
            let less = turn-turns_left_at now i id w ((eqb_iff i id).0 same) up in
            rw same (omega (arith, later, less), omega (arith, later, less))
        | inr other ↦
            let kept = ap turns_left (turn-other now i id w other) in
            rw other (omega (arith, later, kept), omega (arith, later, kept))
      ]
