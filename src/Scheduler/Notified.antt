-- ===== src/Scheduler/Notified.antt =====
-- Whom the checkers of scheduler/scheduler.ts notify.
use mathlib.Core.List.{append-nil, append_assoc}
use mathlib.Core.Path.{subst}
use quipay_backend.Prelude.{
  ℕ, zero, suc, String, ◌≡◌, refl, sym, ap, ◌∙◌, Bool, true, not, ◌&&◌, List, [], ◌∷◌, ◌++◌, arith,
  if-both, if-split, ◌==◌, nat_eq, string_eq, ==_refl, take, keep, any, All, All-append,
}
use quipay_backend.Map.{lookup}
use quipay_backend.Streams.{StreamRow}
use quipay_backend.Scheduler.Notices.{
  cliff_unlocks, endings, same_key, Notice, Streams, Tables, Sent, Checker,
  get_active_streams_by_worker, visit_stream, visit_streams, visit_worker, visit_workers, go_on,
  workers_checked, run_cliff_unlock_checker, run_stream_ending_checker, newest_first, send,
  notice_of, should_notify,
}

-- Whether a name is among some.
abbrev pub is_one_of : List String → String → Bool
is_one_of names name = any (λ (n : String). n == name) names

-- All notices that a run adds are for workers that a test takes.
abbrev pub Adds : (String → Type 0) → Sent → Sent → Type 0
Adds P sent sent' =
    (new : List Notice) × (sent'.notices ≡ sent.notices ++ new)
    × All (λ (n : Notice). P n.worker) new

module _ (P : String → Type 0) where
  Adds-none : (sent : Sent) → Adds P sent sent
  Adds-none sent = ([], sym (append-nil sent.notices), tt)

  Adds-both : (a b c : Sent) → Adds P a b → Adds P b c → Adds P a c
  Adds-both a b c (xs, e, h) (ys, f, k) = (
    xs ++ ys,
    f ∙ ap (λ (l : List Notice). l ++ ys) e ∙ append_assoc a.notices xs ys,
    All-append (λ (n : Notice). P n.worker) xs ys h k,
  )

  module _ (sends : Notice → Bool) (checker : Checker) where
    visit_stream-Adds :
        (s : ℕ × StreamRow) (sent : Sent)
        → P s.1.worker_address
        → Adds P sent (visit_stream sends checker s sent).1
    visit_stream-Adds s sent h =
        if-both (λ (r : Bool × Sent). Adds P sent r.1) (not (checker.due s.1)) {x = (true, sent)}
          (Adds-none sent)
          (if-both (λ (r : Bool × Sent). Adds P sent r.1)
            (any (same_key (s.0, checker.time s.1)) sent.keys) {x = (true, sent)}
            {y = send sends checker s sent} (Adds-none sent)
            (if-both (λ (r : Bool × Sent). Adds P sent r.1) (sends (notice_of sends checker s))
              (notice_of sends checker s ∷ [], refl, (h, tt)) (Adds-none sent)))

    go_on-Adds :
        (rest : Sent → Bool × Sent) (a : Sent) (r : Bool × Sent)
        → Adds P a r.1
        → ((b : Sent) → Adds P b (rest b).1)
        → Adds P a (go_on sends checker rest r).1
    go_on-Adds rest a (goes, b) h k =
        if-both (λ (r : Bool × Sent). Adds P a r.1) goes (Adds-both a b (rest b).1 h (k b)) h

    visit_streams-Adds :
        (ss : Streams) (sent : Sent)
        → All (λ (s : ℕ × StreamRow). P s.1.worker_address) ss
        → Adds P sent (visit_streams sends checker ss sent).1
    visit_streams-Adds [] sent h = Adds-none sent
    visit_streams-Adds (s ∷ ss) sent h =
        go_on-Adds (visit_streams sends checker ss) sent (visit_stream sends checker s sent)
          (visit_stream-Adds s sent h.0) (λ b. visit_streams-Adds ss b h.1)

-- The streams of a worker are those that have it as their worker.
module _ (Q : ℕ × StreamRow → Type 0) where
  All-newest_first : (seen ss : Streams) → All Q seen → All Q ss → All Q (newest_first seen ss)
  All-newest_first seen [] h k = h
  All-newest_first seen (s ∷ ss) h k = All-newest_first (s ∷ seen) ss (k.0, h) k.1

  All-taken : (n : ℕ) (ss : Streams) → All Q ss → All Q (take n ss)
  All-taken zero ss h = tt
  All-taken (suc n) [] h = tt
  All-taken (suc n) (s ∷ ss) h = (h.0, All-taken n ss h.1)

  All-passing :
      (p : ℕ × StreamRow → Bool)
      → ((s : ℕ × StreamRow) → p s ≡ true → Q s)
      → (ss : Streams) → All Q (keep p ss)
  All-passing p sound [] = tt
  All-passing p sound (s ∷ ss) =
      let rest = All-passing p sound ss in
      if-split (All Q) (p s) (λ t. (sound s t, rest)) (λ f. rest)

module _ (P : String → Type 0) (sends : Notice → Bool) (checker : Checker) (tables : Tables) where
  streams-All :
      (worker : String)
      → P worker
      → All
          (λ (s : ℕ × StreamRow). P s.1.worker_address)
          (get_active_streams_by_worker worker 100 tables.streams)
  unfolding get_active_streams_by_worker
  streams-All worker h =
      let Q = λ (s : ℕ × StreamRow). P s.1.worker_address in
      All-taken Q 100 _ (
        All-newest_first Q [] _ tt (
          All-passing Q _
            (λ s t.
              subst P (sym ((string_eq.test_iff s.1.worker_address worker).0 (first_holds _ _ t)))
                h)
            tables.streams))
    where
      first_holds : (a b : Bool) → (a && b) ≡ true → a ≡ true
      first_holds a b h = ground (arith, h)

  visit_worker-Adds :
      (worker : String) (sent : Sent)
      → P worker
      → Adds P sent (visit_worker sends checker tables worker sent).1
  visit_worker-Adds worker sent h =
      if-both (λ (r : Bool × Sent). Adds P sent r.1)
        (should_notify sends checker (lookup worker tables.settings))
        (visit_streams-Adds P sends checker (get_active_streams_by_worker worker 100 tables.streams)
          sent (streams-All worker h))
        (Adds-none P sent)

  visit_workers-Adds :
      (workers : List String) (sent : Sent)
      → All P workers
      → Adds P sent (visit_workers sends checker tables workers sent).1
  visit_workers-Adds [] sent h = Adds-none P sent
  visit_workers-Adds (w ∷ ws) sent h =
      go_on-Adds P sends checker (visit_workers sends checker tables ws) sent
        (visit_worker sends checker tables w sent) (visit_worker-Adds w sent h.0)
        (λ b. visit_workers-Adds ws b h.1)

one_of_more :
    (name : String) (names more : List String)
    → All (λ (n : String). is_one_of names n ≡ true) more
    → All (λ (n : String). is_one_of (name ∷ names) n ≡ true) more
one_of_more name names [] h = tt
one_of_more name names (m ∷ more) h = (ground (arith, h.0), one_of_more name names more h.1)

all_one_of : (names : List String) → All (λ (n : String). is_one_of names n ≡ true) names
all_one_of [] = tt
all_one_of (n ∷ names) =
    let itself = ==_refl n in (ground (arith, itself), one_of_more n names names (all_one_of names))

-- Whatever notices the checkers of cliffs and of ending streams send, each is for a worker that is one
-- of the employers of the treasury balances.
pub checkers_notify_employers :
    (sends : Notice → Bool) (now : ℕ) (tables : Tables) (sent : Sent)
    → let is_employer = λ (n : String). is_one_of (workers_checked tables) n ≡ true in
      Adds is_employer sent (run_cliff_unlock_checker sends now tables sent).1
      × Adds is_employer sent (run_stream_ending_checker sends now tables sent).1
unfolding run_cliff_unlock_checker run_stream_ending_checker
checkers_notify_employers sends now tables sent =
    let is_employer = λ (n : String). is_one_of (workers_checked tables) n ≡ true in
    let all = all_one_of (workers_checked tables) in
    (
      visit_workers-Adds is_employer sends (cliff_unlocks now) tables (workers_checked tables) sent
          all,
      visit_workers-Adds is_employer sends (endings now) tables (workers_checked tables) sent all,
    )
