-- ===== src/Scheduler/Payroll.antt =====
-- `executeScheduledPayroll` and `refreshJobs` of scheduler/scheduler.ts. The answers of the statements and of the clock are arguments.
use quipay_backend.Prelude.{
  ℕ, ◌+◌, ◌-◌, ◌*◌, ◌/◌, String, Bool, true, false, Option, none, some, List, [], ◌∷◌, ◌++◌,
  if◌then◌else◌, nat_eq, string_eq,
}
use quipay_backend.Scheduler.Tables.{
  PayrollSchedule, Schedules, SchedulerLog, LogStatus, success, failed, update_payroll_schedule,
  get_active_payroll_schedules, Overrides,
}
use quipay_backend.Scheduler.Gateway.{
  Config, Chain, Created, created, throws, trigger_stream_creation,
}
use quipay_backend.Scheduler.NextRun.{NextRun, no_run, invalid_date, run_at}
use quipay_backend.Scheduler.Jobs.{ActiveJobs, Cron, apply_schedules}
use quipay_backend.Scheduler.Overrides.{MarkAnswers, execute_scheduler_overrides}
use quipay_backend.Lock.{LockAnswer, Run, with_advisory_lock}

-- The events that the audit logger gets.
pub data SchedulerEvent : Type 0 where
  task_started task_completed : ℕ → SchedulerEvent
  task_failed : ℕ → String → SchedulerEvent

pub record World (C : Type 0) : Type 0 where
  pub chain_state : C
  pub schedules : Schedules
  pub logs : List SchedulerLog
  pub overrides : Overrides
  pub events : List SchedulerEvent
  pub active_jobs : ActiveJobs

-- What the rest of the system answers in one run: the error of the update after a creation, whether the
-- update after an error and the insertion of the log row succeed, the times at the start, at the
-- creation and at the end, and the next run of `calculateNextRun`.
pub record Answers : Type 0 where
  pub update : Option String
  pub update_after_error : Bool
  pub insert_log : Bool
  pub started_at : ℕ
  pub now : ℕ
  pub failed_at : ℕ
  pub ended_at : ℕ
  pub next_run : NextRun
  pub audit_logger : Bool
  pub random : ℕ

-- What the `try` and the `catch` leave in the variables.
pub record Ending : Type 0 where
  pub status : LogStatus
  pub stream_id : Option ℕ
  pub error_message : Option String

abbrev pub log_row : Answers → ℕ → Ending → SchedulerLog
log_row answers id r = record {
  schedule_id = id;
  status = r.status;
  stream_id = r.stream_id;
  error_message = r.error_message;
  execution_time = answers.ended_at - answers.started_at;
}

-- `nextRun || undefined`. An update with a Date without a value is one that throws: its answer is an
-- error.
abbrev pub next_run_at : NextRun → Option ℕ
next_run_at no_run = none
next_run_at invalid_date = none
next_run_at (run_at t) = some t

module _ {C : Type 0} (answers : Answers) where
  -- The events are written where the audit logger is there.
  abbrev pub with_event : SchedulerEvent → World C → World C
  with_event e w = if answers.audit_logger then record w { events = w.events ++ e ∷ [] } else w

  abbrev pub record_failure : ℕ → World C → World C
  record_failure id w =
      if answers.update_after_error
      then record w {
        schedules =
            update_payroll_schedule id none none (some answers.failed_at) answers.failed_at
              w.schedules;
      }
      else w

  -- The `catch`.
  abbrev pub catch_error : ℕ → Option ℕ → String → World C → Ending × World C
  catch_error id stream_id e w = (
    record { status = failed; stream_id = stream_id; error_message = some e },
    record_failure id (with_event (task_failed id e) w),
  )

  abbrev pub updated : ℕ → World C → World C
  updated id w = record w {
    schedules =
        update_payroll_schedule id none (next_run_at answers.next_run) (some answers.now)
          answers.now w.schedules;
  }

  -- The `try` behind the creation.
  abbrev pub after_creation : ℕ → Created → World C → Option String → Ending × World C
  after_creation id (throws e) w answer = catch_error id none e w
  after_creation id (created stream_id) w (some e) = catch_error id (some stream_id) e w
  after_creation id (created stream_id) w none = (
    record { status = success; stream_id = some stream_id; error_message = none },
    with_event (task_completed id) (updated id w),
  )

  abbrev pub write_log : ℕ → Ending × World C → Run (World C)
  write_log id (r, w) =
      if answers.insert_log
      then (true, record w { logs = w.logs ++ log_row answers id r ∷ [] })
      else (false, w)

module _ {C T : Type 0} (config : Config) (chain : Chain C T) where
  abbrev pub create_stream_for : Answers → PayrollSchedule → World C → Created × C
  create_stream_for answers s w =
      trigger_stream_creation config chain answers.random s (answers.now / 1000)
        (answers.now / 1000 + s.duration_days * 24 * 60 * 60) w.chain_state

  abbrev pub run_creation : Answers → ℕ → PayrollSchedule → World C → Ending × World C
  run_creation answers id s w =
      let r = create_stream_for answers s w in
      after_creation answers id r.0 (record w { chain_state = r.1 }) answers.update

  abbrev pub payroll_task : Answers → ℕ → PayrollSchedule → World C → Run (World C)
  payroll_task answers id s w =
      write_log answers id (run_creation answers id s (with_event answers (task_started id) w))

  unfoldable pub execute_scheduled_payroll :
      LockAnswer → Bool → Answers → ℕ → PayrollSchedule → World C → Run (World C)
  unfolding with_advisory_lock trigger_stream_creation update_payroll_schedule
  execute_scheduled_payroll lock unlocks answers id s w =
      with_advisory_lock lock unlocks (payroll_task answers id s) w

  abbrev pub run_overrides : Bool → (ℕ → MarkAnswers) → (random now : ℕ) → World C → World C
  run_overrides dequeues marks random now w =
      let after =
        execute_scheduler_overrides config chain random now dequeues marks
          (record { chain_state = w.chain_state; overrides = w.overrides }) in
      record w { chain_state = after.chain_state; overrides = after.overrides }

  abbrev pub apply_selected : Cron → Bool → World C → World C
  apply_selected cron selects w =
      if selects
      then record w {
        active_jobs = apply_schedules cron (get_active_payroll_schedules w.schedules) w.active_jobs;
      }
      else w

  -- `selects` is whether the schedules can be read.
  unfoldable pub refresh_jobs :
      Cron → (dequeues selects : Bool) → (ℕ → MarkAnswers) → (random now : ℕ) → World C → World C
  unfolding execute_scheduler_overrides apply_schedules get_active_payroll_schedules
  refresh_jobs cron dequeues selects marks random now w =
      apply_selected cron selects (run_overrides dequeues marks random now w)
