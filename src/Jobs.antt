-- ===== src/Jobs.antt =====
-- queue/asyncQueue.ts: a background job with retries, exponential backoff and a dead letter queue.
-- The job is a function on the state `S` that it changes. `globalQueue` (p-queue) only decides when
-- the closure runs, so it is left out; `setTimeout` is the list of the delays that were waited.
pub mod Laws
mod Tests
use quipay_backend.Prelude.{
  ℕ, zero, suc, ◌+◌, ◌-◌, ◌*◌, ◌^◌, String, Option, none, some, List, [], ◌∷◌, ◌++◌, leb, Bool,
  if◌then◌else◌,
}

pub record JobError : Type 0 where
  pub message : String
  pub stack : Option String

-- `JobOptions`; the payload and the context are of the types `P` and `C`.
pub record JobOptions (P C : Type 0) : Type 0 where
  pub job_type : String
  pub payload : P
  pub context : C
  pub max_retries : ℕ
  pub base_delay_ms : ℕ

-- A record of the dead letter queue: the arguments of `pushToDLQ`.
pub record DeadLetter (P C : Type 0) : Type 0 where
  pub job_type : String
  pub payload : P
  pub error_stack : Option String
  pub context : C
  pub attempts : ℕ
  pub last_error : String

pub record World (S P C : Type 0) : Type 0 where
  pub state : S
  pub dead_letters : List (DeadLetter P C)
  pub delays : List ℕ
  pub calls : ℕ

-- The promise of `enqueueJob`.
pub data Promised (W : Type 0) : Type 0 where
  resolved : W → Promised W
  rejected : Promised W

pub dead_letter : {P C : Type 0} → JobOptions P C → ℕ → JobError → DeadLetter P C
dead_letter o attempt e = record {
  job_type = o.job_type;
  payload = o.payload;
  error_stack = e.stack;
  context = o.context;
  attempts = attempt;
  last_error = e.message;
}

-- `pushToDLQ` writes the record only if the database takes it (`dlq_up`); an error is swallowed.
module _ {S P C : Type 0} (o : JobOptions P C) (dlq_up : Bool) where
  pub push_to_dlq : ℕ → JobError → World S P C → World S P C
  push_to_dlq attempt e w =
      if dlq_up
      then record w { dead_letters = w.dead_letters ++ dead_letter o attempt e ∷ [] }
      else w

  -- One call of the job.
  unfoldable pub called : World S P C → S → World S P C
  called w s = record w { state = s; calls = w.calls + 1 }

  waited : ℕ → World S P C → World S P C
  waited attempt w = record w { delays = w.delays ++ (o.base_delay_ms * 2 ^ (attempt - 1)) ∷ [] }

  -- `while (attempt <= maxRetries)`, where `left` is `maxRetries + 1 - attempt`, the rounds left.
  pub run_attempts : (S → S × Option JobError) → ℕ → ℕ → World S P C → World S P C
  unfolding called waited push_to_dlq
  run_attempts job zero attempt w = w
  run_attempts job (suc left) attempt w = elim (job w.state).1 [
    | none ↦ called w (job w.state).0
    | some e ↦
        let failed = called w (job w.state).0 in
        let again = run_attempts job left (attempt + 1) (waited attempt failed) in
        if leb o.max_retries attempt then push_to_dlq attempt e failed else again
  ]

  pub enqueue_job : Bool → (S → S × Option JobError) → World S P C → Promised (World S P C)
  enqueue_job shutting_down job w =
      if shutting_down then rejected else resolved (run_attempts job o.max_retries 1 w)
