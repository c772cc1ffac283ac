-- ===== src/Scheduler/Overrides.antt =====
-- `executeSchedulerOverrides` of scheduler/scheduler.ts: the overrides that are taken from the queue, one
-- after another.
use quipay_backend.Prelude.{
  ℕ, ◌+◌, ◌*◌, ◌/◌, String, Bool, true, false, Option, none, some, [], ◌∷◌, if◌then◌else◌, or_else,
  ◌==◌, nat_eq, string_eq,
}
use quipay_backend.Scheduler.Tables.{
  PayrollSchedule, SchedulerOverride, OverrideAction, Overrides, create_stream, cancel_stream,
  pause_stream, mark_override_completed, mark_override_failed, dequeue_pending_overrides,
}
use quipay_backend.Scheduler.Gateway.{
  Config, Chain, Created, created, throws, trigger_stream_creation,
}

-- The chain and the table that the loop changes.
pub record OverrideWorld (C : Type 0) : Type 0 where
  pub chain_state : C
  pub overrides : Overrides

-- The error that `markOverrideCompleted` throws, if it does, and whether `markOverrideFailed` succeeds.
pub record MarkAnswers : Type 0 where
  pub completes : Option String
  pub fails : Bool

abbrev pub day_seconds : ℕ
day_seconds = 24 * 60 * 60

-- `if (!rate)`
abbrev pub rate_of : Option String → Option String
rate_of none = none
rate_of (some r) = if r == "" then none else some r

abbrev pub mock_schedule : SchedulerOverride → String → ℕ → PayrollSchedule
mock_schedule o rate now = record {
  employer = o.employer_address;
  worker = o.worker_address;
  token = or_else o.params.token "USDC";
  rate = rate;
  cron_expression = "0 0 1 * *";
  duration_days = or_else o.params.duration_days 30;
  enabled = true;
  last_run_at = none;
  next_run_at = none;
  created_at = now;
  updated_at = now;
}

module _ {C T : Type 0} (config : Config) (chain : Chain C T) (random now : ℕ) where
  -- The `try` of one override: the stream id or the error, and the chain.
  abbrev pub create_with_rate : SchedulerOverride → Option String → C → Created × C
  create_with_rate o none c = (throws "Missing required parameter: rate", c)
  create_with_rate o (some rate) c =
      trigger_stream_creation config chain random (mock_schedule o rate now) (now / 1000)
        (now / 1000 + or_else o.params.duration_days 30 * day_seconds) c

  abbrev pub perform : SchedulerOverride → OverrideAction → C → Created × C
  perform o create_stream c = create_with_rate o (rate_of o.params.rate) c
  perform o cancel_stream c =
      (throws "Action cancel_stream not yet implemented. Contract integration required.", c)
  perform o pause_stream c =
      (throws "Action pause_stream not yet implemented. Contract integration required.", c)

  -- The `catch` of one override; `none` where its own statement throws, which ends the loop.
  abbrev pub fail_override : MarkAnswers → ℕ → String → C → Overrides → Bool × OverrideWorld C
  fail_override answers id e c table =
      if answers.fails
      then (true, record { chain_state = c; overrides = mark_override_failed id e now table })
      else (false, record { chain_state = c; overrides = table })

  abbrev pub mark_created :
      MarkAnswers → ℕ → ℕ → C → Overrides → Option String → Bool × OverrideWorld C
  mark_created answers id stream_id c table (some e) = fail_override answers id e c table
  mark_created answers id stream_id c table none = (
    true,
    record { chain_state = c; overrides = mark_override_completed id (some stream_id) now table },
  )

  abbrev pub finish_override : MarkAnswers → ℕ → Overrides → Created × C → Bool × OverrideWorld C
  finish_override answers id table (throws e, c) = fail_override answers id e c table
  finish_override answers id table (created stream_id, c) =
      mark_created answers id stream_id c table answers.completes

  unfoldable pub execute_override :
      MarkAnswers → ℕ × SchedulerOverride → OverrideWorld C → Bool × OverrideWorld C
  unfolding trigger_stream_creation mark_override_completed mark_override_failed
  execute_override answers (id, o) w =
      finish_override answers id w.overrides (perform o o.action w.chain_state)

  abbrev pub go_on : (OverrideWorld C → OverrideWorld C) → Bool × OverrideWorld C → OverrideWorld C
  go_on rest (ends, w) = if ends then rest w else w

  -- The loop over the overrides taken; `answers` are those of the statements of an id.
  unfoldable pub execute_all : (ℕ → MarkAnswers) → Overrides → OverrideWorld C → OverrideWorld C
  unfolding execute_override
  execute_all answers [] w = w
  execute_all answers (o ∷ os) w =
      go_on (execute_all answers os) (execute_override (answers o.0) o w)

  -- The statement that takes the overrides fails, or its answer is executed.
  unfoldable pub execute_scheduler_overrides :
      Bool → (ℕ → MarkAnswers) → OverrideWorld C → OverrideWorld C
  unfolding dequeue_pending_overrides execute_all
  execute_scheduler_overrides dequeues answers w =
      let taken = dequeue_pending_overrides 10 w.overrides in
      if dequeues then execute_all answers taken.0 (record w { overrides = taken.1 }) else w
