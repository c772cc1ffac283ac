-- ===== src/Jobs/Laws.antt =====
-- What a job of queue/asyncQueue.ts comes to, against the plain iteration of its function.
use quipay_backend.Prelude.{
  ℕ, zero, suc, ◌+◌, ◌*◌, ◌^◌, ◌≤◌, ◌≡◌, refl, sym, ◌⊎◌, inl, inr, Bool, false, Option, none, some,
  List, [], ◌∷◌, ◌++◌, arith, leb, if◌then◌else◌, le→leb, Option-cases, nat_eq, string_eq,
}
use mathlib.Core.Path.{subst}
use mathlib.Core.List.{append_assoc, append-nil}
use quipay_backend.Jobs.{
  run_attempts, enqueue_job, resolved, JobError, JobOptions, World, dead_letter, called, waited,
  push_to_dlq,
}

module _ {S : Type 0} (job : S → S × Option JobError) where
  -- The state after `k` calls.
  abbrev pub after : ℕ → S → S
  after zero s = s
  after (suc k) s = after k (job s).0

  abbrev pub Fails : S → Type 0
  Fails s = (e : JobError) × ((job s).1 ≡ some e)

  -- The first `k` calls all fail.
  abbrev pub AllFail : ℕ → S → Type 0
  AllFail zero s = Unit
  AllFail (suc k) s = Fails s × AllFail k (job s).0

-- The first `k` delays of an exponential backoff, from the exponent `i` on.
abbrev pub backoff : ℕ → ℕ → ℕ → List ℕ
backoff base i zero = []
backoff base i (suc k) = (base * 2 ^ i) ∷ backoff base (suc i) k

module _ {S P C : Type 0} (o : JobOptions P C) (dlq_up : Bool) (job : S → S × Option JobError) where
  -- The job succeeded at call `k + 1`, and nothing went to the dead letter queue.
  pub record Succeeded (i n : ℕ) (w v : World S P C) : Type 0 where
    pub k : ℕ
    pub within : k ≤ n
    pub failures : AllFail job k w.state
    pub success : (job (after job k w.state)).1 ≡ none
    pub state : v.state ≡ after job (suc k) w.state
    pub calls : v.calls ≡ w.calls + suc k
    pub delays : v.delays ≡ w.delays ++ backoff o.base_delay_ms i k
    pub dead_letters : v.dead_letters ≡ w.dead_letters

  -- All calls failed, and one record with the last error went to the dead letter queue.
  pub record Exhausted (i n : ℕ) (w v : World S P C) : Type 0 where
    pub failures : AllFail job n w.state
    pub error : JobError
    pub last : (job (after job n w.state)).1 ≡ some error
    pub state : v.state ≡ after job (suc n) w.state
    pub calls : v.calls ≡ w.calls + suc n
    pub delays : v.delays ≡ w.delays ++ backoff o.base_delay_ms i n
    pub dead_letters : v.dead_letters ≡ (
        if dlq_up then w.dead_letters ++ dead_letter o o.max_retries error ∷ [] else w.dead_letters)

  -- One more failed call in front.
  Succeeded-after :
      (i n attempt : ℕ) (e : JobError) (w v : World S P C)
      → attempt ≡ suc i
      → (job w.state).1 ≡ some e
      → Succeeded (suc i) n (waited o dlq_up attempt (called o dlq_up w (job w.state).0)) v
      → Succeeded i (suc n) w v
  unfolding called waited
  Succeeded-after i n attempt e w v a f h = record {
    k = suc h.k;
    within = omega (arith, h.within);
    failures = ((e, f), h.failures);
    success = h.success;
    state = h.state;
    calls = omega (arith, h.calls);
    delays = ground (
      arith,
      h.delays,
      append_assoc w.delays ((o.base_delay_ms * 2 ^ i) ∷ []) (backoff o.base_delay_ms (suc i) h.k),
    );
    dead_letters = h.dead_letters;
  }

  Exhausted-after :
      (i n attempt : ℕ) (e : JobError) (w v : World S P C)
      → attempt ≡ suc i
      → (job w.state).1 ≡ some e
      → Exhausted (suc i) n (waited o dlq_up attempt (called o dlq_up w (job w.state).0)) v
      → Exhausted i (suc n) w v
  unfolding called waited
  Exhausted-after i n attempt e w v a f h = record {
    failures = ((e, f), h.failures);
    error = h.error;
    last = h.last;
    state = h.state;
    calls = omega (arith, h.calls);
    delays = ground (
      arith,
      h.delays,
      append_assoc w.delays ((o.base_delay_ms * 2 ^ i) ∷ []) (backoff o.base_delay_ms (suc i) n),
    );
    dead_letters = h.dead_letters;
  }

  Succeeded-now :
      (i n : ℕ) (w : World S P C)
      → (job w.state).1 ≡ none
      → Succeeded i n w (called o dlq_up w (job w.state).0)
  unfolding called
  Succeeded-now i n w f = record {
    k = 0;
    within = omega arith;
    failures = tt;
    success = f;
    state = refl;
    calls = omega arith;
    delays = sym (append-nil w.delays);
    dead_letters = refl;
  }

  Exhausted-now :
      (i : ℕ) (e : JobError) (w : World S P C)
      → (job w.state).1 ≡ some e
      → o.max_retries ≡ suc i
      → Exhausted i 0 w (push_to_dlq o dlq_up (suc i) e (called o dlq_up w (job w.state).0))
  unfolding called push_to_dlq
  Exhausted-now i e w f m = record {
    failures = tt;
    error = e;
    last = f;
    state = ground arith;
    calls = ground arith;
    delays = ground (arith, append-nil w.delays);
    dead_letters = ground arith;
  }

  -- The counted loop in its general form: at attempt `i + 1`, with `n + 1` rounds left.
  run_attempts-outcome :
      (n i attempt : ℕ) (w : World S P C)
      → attempt ≡ suc i
      → o.max_retries ≡ i + suc n
      → let v = run_attempts o dlq_up job (suc n) attempt w in Succeeded i n w v ⊎ Exhausted i n w v
  unfolding run_attempts
  run_attempts-outcome zero i attempt w a m = elim (Option-cases (job w.state).1) [
    | inl f ↦ rw (f, run_attempts) (inl (Succeeded-now i 0 w f))
    | inr (e, f) ↦
        rw (f, run_attempts)
          (rw a (
            rw (le→leb o.max_retries (suc i) (omega arith))
              (inr (Exhausted-now i e w f (omega arith)))))
  ]
  run_attempts-outcome (suc n) i attempt w a m = elim (Option-cases (job w.state).1) [
    | inl f ↦ rw (f, run_attempts) (inl (Succeeded-now i (suc n) w f))
    | inr (e, f) ↦
        let v = waited o dlq_up attempt (called o dlq_up w (job w.state).0) in
        let ih = run_attempts-outcome n (suc i) (attempt + 1) v (omega arith) (omega arith) in
        let more : leb o.max_retries attempt ≡ false = ground arith in
        rw (f, run_attempts)
          (rw more (elim ih [
            | inl h ↦ inl (Succeeded-after i n attempt e w _ a f h)
            | inr h ↦ inr (Exhausted-after i n attempt e w _ a f h)
          ]))
  ]

  -- A job with `maxRetries = n + 1`, unless the queue is shutting down, always resolves, and either
  -- some call `k + 1 ≤ n + 1` is its first success, it ran `k + 1` times with the delays
  -- `base · 2^0 … base · 2^(k-1)` between, and nothing is put in the dead letter queue; or all
  -- `n + 1` calls failed, with `n` such delays between, and exactly one record, with the number of
  -- attempts and the last error, is put there if the database takes it.
  pub enqueue_job-outcome :
      (n : ℕ) (w : World S P C)
      → o.max_retries ≡ suc n
      → (v : World S P C) × (enqueue_job o dlq_up false job w ≡ resolved v)
        × (Succeeded 0 n w v ⊎ Exhausted 0 n w v)
  unfolding enqueue_job
  enqueue_job-outcome n w m = (
    run_attempts o dlq_up job o.max_retries 1 w,
    refl,
    subst (λ r. let v = run_attempts o dlq_up job r 1 w in Succeeded 0 n w v ⊎ Exhausted 0 n w v)
        (sym m) (run_attempts-outcome n 0 1 w refl (omega arith)),
  )

  -- A job whose first call succeeds runs once.
  pub enqueue_job-first :
      (n : ℕ) (w : World S P C)
      → o.max_retries ≡ suc n
      → (job w.state).1 ≡ none
      → enqueue_job o dlq_up false job w ≡ resolved (called o dlq_up w (job w.state).0)
  unfolding enqueue_job run_attempts
  enqueue_job-first n w m f =
      subst
        (λ r.
          resolved (run_attempts o dlq_up job r 1 w) ≡ resolved (called o dlq_up w (job w.state).0))
        (sym m) (rw (f, run_attempts))
