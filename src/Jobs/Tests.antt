-- ===== src/Jobs/Tests.antt =====
-- Runs of queue/asyncQueue.ts, and its laws at inputs.
use quipay_backend.Prelude.{
  ℕ, ◌+◌, ◌≡◌, refl, ◌⊎◌, some, none, [], ◌∷◌, true, false, Option, if◌then◌else◌, leb,
}
use quipay_backend.Jobs.{JobError, JobOptions, World, resolved, run_attempts, enqueue_job}
use quipay_backend.Jobs.Laws.{Succeeded, Exhausted, enqueue_job-outcome}

-- The defaults of `enqueueJob`.
abbrev options : JobOptions ℕ ℕ
options = record {
  job_type = "sync";
  payload = 1;
  context = 2;
  max_retries = 3;
  base_delay_ms = 1000;
}

abbrev idle : World ℕ ℕ ℕ
idle = record { state = 0; dead_letters = []; delays = []; calls = 0 }

-- A job that fails until its counter has passed a bound.
abbrev flaky : ℕ → ℕ → ℕ × Option JobError
flaky bound s =
    (s + 1, if leb bound s then none else some (record { message = "rpc down"; stack = none }))

second_try :
    enqueue_job options true false (flaky 1) idle
    ≡ resolved (record { state = 2; dead_letters = []; delays = 1000 ∷ []; calls = 2 })
unfolding enqueue_job run_attempts
second_try = refl

enqueue_job-outcome_example :
    (v : World ℕ ℕ ℕ) × (enqueue_job options true false (flaky 9) idle ≡ resolved v)
    × (Succeeded options true (flaky 9) 0 2 idle v ⊎ Exhausted options true (flaky 9) 0 2 idle v)
enqueue_job-outcome_example = enqueue_job-outcome options true (flaky 9) 2 idle refl
