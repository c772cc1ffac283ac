-- ===== src/Audit/Queue.antt =====
-- The queue of audit/auditLogger.ts: its bound, and where its entries go, whatever comes between the
-- start and the end of the flushes.
use quipay_backend.Prelude.{
  ℕ, zero, suc, ◌+◌, ◌-◌, ◌≤◌, ◌≡◌, refl, sym, ap, ◌∙◌, Bool, true, false, Option, none, some, List,
  [], ◌∷◌, ◌++◌, arith, ltb, eqb, if◌then◌else◌, if-both, if-split, nat_eq, string_eq, length,
  get_elem?, take, drop, length-append, length-drop, take-append-drop,
}
use quipay_backend.Audit.Logger.{
  FlushEnd, commits, fails, Queue, push_entry, take_snapshot, start_flush, put_back, settle,
  remove_at, settle_found, finish_flush,
}

-- An entry is queued; a flush starts, with the pool there or not; the flush at a place ends.
pub data Action : Type 0 where
  enqueue : ℕ → Action
  start : Bool → Action
  finish : FlushEnd → ℕ → Action

unfoldable pub step : ℕ → Action → Queue → Queue
unfolding start_flush finish_flush
step max_queue_size (enqueue r) q = push_entry max_queue_size r q
step max_queue_size (start pool) q = start_flush pool q
step max_queue_size (finish end n) q = finish_flush max_queue_size end n q

unfoldable pub perform : ℕ → List Action → Queue → Queue
perform max_queue_size [] q = q
perform max_queue_size (a ∷ as') q = perform max_queue_size as' (step max_queue_size a q)

abbrev pub empty_queue : Queue
empty_queue = record { write_queue = []; in_flight = []; written = []; dropped = []; lost = [] }

-- How often a reference stands in a list, in the flights, and in all places of the queue.
abbrev pub count : ℕ → List ℕ → ℕ
count r [] = 0
count r (x ∷ xs) = (if eqb x r then 1 else 0) + count r xs

abbrev pub count_flights : ℕ → List (List ℕ) → ℕ
count_flights r [] = 0
count_flights r (f ∷ fs) = count r f + count_flights r fs

abbrev pub places : ℕ → Queue → ℕ
places r q =
    count r q.write_queue
    + count_flights r q.in_flight
    + count r q.written
    + count r q.dropped
    + count r q.lost

abbrev added : ℕ → Action → ℕ
added r (enqueue x) = if eqb x r then 1 else 0
added r (start pool) = 0
added r (finish end n) = 0

-- How often an action queues a reference.
abbrev pub queued : ℕ → List Action → ℕ
queued r [] = 0
queued r (a ∷ as') = added r a + queued r as'

count-append : (r : ℕ) (xs ys : List ℕ) → count r (xs ++ ys) ≡ count r xs + count r ys
count-append r [] ys = omega arith
count-append r (x ∷ xs) ys = let rest = count-append r xs ys in ground (arith, rest)

count_flights-append :
    (r : ℕ) (fs : List (List ℕ)) (f : List ℕ)
    → count_flights r (fs ++ f ∷ []) ≡ count_flights r fs + count r f
count_flights-append r [] f = omega arith
count_flights-append r (g ∷ fs) f = let rest = count_flights-append r fs f in omega arith

count_flights-remove_at :
    (r n : ℕ) (fs : List (List ℕ)) (f : List ℕ)
    → get_elem? fs n ≡ some f
    → count_flights r fs ≡ count r f + count_flights r (remove_at n fs)
count_flights-remove_at r n [] f h = absurd (cc h)
count_flights-remove_at r zero (g ∷ fs) f h =
    ap (λ (x : List ℕ). count r x + count_flights r fs) (cc h)
count_flights-remove_at r (suc n) (g ∷ fs) f h =
    let rest = count_flights-remove_at r n fs f h in omega arith

places-push_entry :
    (max_queue_size r x : ℕ) (q : Queue)
    → places r (push_entry max_queue_size x q) ≡ (if eqb x r then 1 else 0) + places r q
places-push_entry max_queue_size r x q =
    let queue_end = count-append r q.write_queue (x ∷ []) in
    let dropped_end = count-append r q.dropped (x ∷ []) in
    if-both (λ (p : Queue). places r p ≡ (if eqb x r then 1 else 0) + places r q)
      (ltb (length q.write_queue) max_queue_size) (ground (arith, queue_end))
      (ground (arith, dropped_end))

places-take_snapshot :
    (r : ℕ) (rs : List ℕ) (q : Queue)
    → q.write_queue ≡ rs
    → places r (take_snapshot rs q) ≡ places r q
places-take_snapshot r [] q h = refl
places-take_snapshot r (x ∷ rs) q h =
    let flights = count_flights-append r q.in_flight (x ∷ rs) in
    let same = ap (count r) h in omega arith

places-put_back :
    (max_queue_size r : ℕ) (f : List ℕ) (q : Queue)
    → places r (put_back max_queue_size f q) ≡ count r f + places r q
places-put_back max_queue_size r f q =
    let all = f ++ q.write_queue in
    let k = length all - max_queue_size in
    let parts =
      sym (count-append r (take k all) (drop k all)) ∙ ap (count r) (take-append-drop k all) in
    let joined = count-append r f q.write_queue in
    let lost = count-append r q.dropped (take k all) in omega arith

places-settle :
    (max_queue_size r : ℕ) (end : FlushEnd) (f : List ℕ) (q : Queue)
    → count r f + places r q ≤ places r (settle max_queue_size end f q)
places-settle max_queue_size r commits f q =
    let written_end = count-append r q.written f in omega arith
places-settle max_queue_size r (fails stays false) f q =
    let written_end = count-append r q.written (take stays f) in
    let lost_end = count-append r q.lost f in omega arith
places-settle max_queue_size r (fails stays true) f q =
    let written_end = count-append r q.written (take stays f) in
    let back =
      places-put_back max_queue_size r f (record q { written = q.written ++ take stays f }) in
    omega arith

places-settle_found :
    (max_queue_size r : ℕ) (end : FlushEnd) (n : ℕ) (q : Queue) (found : Option (List ℕ))
    → get_elem? q.in_flight n ≡ found
    → places r q ≤ places r (settle_found max_queue_size end n q found)
places-settle_found max_queue_size r end n q none h = omega arith
places-settle_found max_queue_size r end n q (some f) h =
    let taken = count_flights-remove_at r n q.in_flight f h in
    let settled =
      places-settle max_queue_size r end f (record q { in_flight = remove_at n q.in_flight }) in
    omega arith

places-step :
    (max_queue_size r : ℕ) (a : Action) (q : Queue)
    → added r a + places r q ≤ places r (step max_queue_size a q)
unfolding step start_flush finish_flush
places-step max_queue_size r (enqueue x) q =
    let same = places-push_entry max_queue_size r x q in omega arith
places-step max_queue_size r (start true) q =
    let same = places-take_snapshot r q.write_queue q refl in omega arith
places-step max_queue_size r (start false) q = omega arith
places-step max_queue_size r (finish end n) q =
    let same = places-settle_found max_queue_size r end n q (get_elem? q.in_flight n) refl in
    omega arith

places-perform :
    (max_queue_size r : ℕ) (as' : List Action) (q : Queue)
    → queued r as' + places r q ≤ places r (perform max_queue_size as' q)
unfolding perform
places-perform max_queue_size r [] q = omega arith
places-perform max_queue_size r (a ∷ as') q =
    let later = places-perform max_queue_size r as' (step max_queue_size a q) in
    let now = places-step max_queue_size r a q in omega arith

bounded-push_entry :
    (max_queue_size x : ℕ) (q : Queue)
    → length q.write_queue ≤ max_queue_size
    → length (push_entry max_queue_size x q).write_queue ≤ max_queue_size
bounded-push_entry max_queue_size x q h =
    if-split (λ (p : Queue). length p.write_queue ≤ max_queue_size)
      (ltb (length q.write_queue) max_queue_size)
      (λ t. let longer = length-append q.write_queue (x ∷ []) in ground (arith, t, longer)) (λ f. h)

bounded-take_snapshot :
    (max_queue_size : ℕ) (rs : List ℕ) (q : Queue)
    → length q.write_queue ≤ max_queue_size
    → length (take_snapshot rs q).write_queue ≤ max_queue_size
bounded-take_snapshot max_queue_size [] q h = h
bounded-take_snapshot max_queue_size (x ∷ rs) q h = omega arith

bounded-settle_found :
    (max_queue_size : ℕ) (end : FlushEnd) (n : ℕ) (q : Queue) (found : Option (List ℕ))
    → length q.write_queue ≤ max_queue_size
    → length (settle_found max_queue_size end n q found).write_queue ≤ max_queue_size
bounded-settle_found max_queue_size end n q none h = h
bounded-settle_found max_queue_size commits n q (some f) h = h
bounded-settle_found max_queue_size (fails stays false) n q (some f) h = h
bounded-settle_found max_queue_size (fails stays true) n q (some f) h =
    let all = f ++ q.write_queue in
    let left = length-drop (length all - max_queue_size) all in omega arith

bounded-step :
    (max_queue_size : ℕ) (a : Action) (q : Queue)
    → length q.write_queue ≤ max_queue_size
    → length (step max_queue_size a q).write_queue ≤ max_queue_size
unfolding step start_flush finish_flush
bounded-step max_queue_size (enqueue x) q h = bounded-push_entry max_queue_size x q h
bounded-step max_queue_size (start true) q h =
    bounded-take_snapshot max_queue_size q.write_queue q h
bounded-step max_queue_size (start false) q h = h
bounded-step max_queue_size (finish end n) q h =
    bounded-settle_found max_queue_size end n q (get_elem? q.in_flight n) h

bounded-perform :
    (max_queue_size : ℕ) (as' : List Action) (q : Queue)
    → length q.write_queue ≤ max_queue_size
    → length (perform max_queue_size as' q).write_queue ≤ max_queue_size
unfolding perform
bounded-perform max_queue_size [] q h = h
bounded-perform max_queue_size (a ∷ as') q h =
    bounded-perform max_queue_size as' (step max_queue_size a q) (bounded-step max_queue_size a q h)

-- However entries come and flushes start and end, with a COMMIT or with an error behind which rows stay or
-- not and the ROLLBACK answers or throws, the queue never holds more than `maxQueueSize` entries, and an
-- entry stands at least as often as it was logged among those queued, on their way to the database,
-- written, dropped, or lost to a ROLLBACK that throws: none goes in another way. It may stand there more
-- often, as one that is written may be put back too.
pub perform-bounded :
    (max_queue_size : ℕ) (as' : List Action)
    → (length (perform max_queue_size as' empty_queue).write_queue ≤ max_queue_size)
      × ((r : ℕ) → queued r as' ≤ places r (perform max_queue_size as' empty_queue))
perform-bounded max_queue_size as' = (
  bounded-perform max_queue_size as' empty_queue (omega arith),
  λ r. let all = places-perform max_queue_size r as' empty_queue in omega arith,
)
