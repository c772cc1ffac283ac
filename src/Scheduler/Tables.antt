-- ===== src/Scheduler/Tables.antt =====
-- The tables `payroll_schedules`, `scheduler_logs` and `scheduler_overrides` of db/queries.ts, where the
-- pool is there. An id is a primary key, times are milliseconds.
use quipay_backend.Prelude.{
  ℕ, String, Bool, true, false, Option, none, some, List, [], ◌∷◌, ◌++◌, map, leb, if◌then◌else◌,
  or_else, nat_eq, string_eq, take, keep,
}
use quipay_backend.Map.{delete, adjust}

pub record PayrollSchedule : Type 0 where
  pub employer : String
  pub worker : String
  pub token : String
  pub rate : String
  pub cron_expression : String
  pub duration_days : ℕ
  pub enabled : Bool
  pub last_run_at : Option ℕ
  pub next_run_at : Option ℕ
  pub created_at : ℕ
  pub updated_at : ℕ

pub data LogStatus : Type 0 where
  success failed skipped : LogStatus

pub record SchedulerLog : Type 0 where
  pub schedule_id : ℕ
  pub status : LogStatus
  pub stream_id : Option ℕ
  pub error_message : Option String
  pub execution_time : ℕ

pub data OverrideAction : Type 0 where
  create_stream cancel_stream pause_stream : OverrideAction

pub data OverrideStatus : Type 0 where
  pending processing completed override_failed : OverrideStatus

-- The parameters that a creation reads.
pub record OverrideParams : Type 0 where
  pub token : Option String
  pub rate : Option String
  pub duration_days : Option ℕ

pub record SchedulerOverride : Type 0 where
  pub employer_address : String
  pub worker_address : String
  pub action : OverrideAction
  pub params : OverrideParams
  pub status : OverrideStatus
  pub error_message : Option String
  pub stream_id : Option ℕ
  pub created_at : ℕ
  pub executed_at : Option ℕ

abbrev pub Schedules : Type 0
Schedules = List (ℕ × PayrollSchedule)

abbrev pub Overrides : Type 0
Overrides = List (ℕ × SchedulerOverride)

-- `next_run_at ASC`: NULL stands last.
abbrev runs_first : Option ℕ → Option ℕ → Bool
runs_first (some a) (some b) = leb a b
runs_first (some a) none = true
runs_first none (some b) = false
runs_first none none = true

abbrev insert_schedule : ℕ × PayrollSchedule → Schedules → Schedules
insert_schedule s [] = s ∷ []
insert_schedule s (r ∷ rs) =
    if runs_first s.1.next_run_at r.1.next_run_at then s ∷ r ∷ rs else r ∷ insert_schedule s rs

abbrev order_by_next_run : Schedules → Schedules
order_by_next_run [] = []
order_by_next_run (s ∷ ss) = insert_schedule s (order_by_next_run ss)

unfoldable pub get_active_payroll_schedules : Schedules → Schedules
get_active_payroll_schedules table =
    order_by_next_run (keep (λ (s : ℕ × PayrollSchedule). s.1.enabled) table)

-- A row with the next id of the sequence.
unfoldable pub create_payroll_schedule :
    (employer worker token rate cron_expression : String)
    → (duration_days : ℕ) → Option ℕ
    → (now id : ℕ) → Schedules
    → Schedules
create_payroll_schedule employer worker token rate cron_expression duration_days next_run_at now id
      table =
    table
    ++ (
      id,
      record {
        employer = employer;
        worker = worker;
        token = token;
        rate = rate;
        cron_expression = cron_expression;
        duration_days = duration_days;
        enabled = true;
        last_run_at = none;
        next_run_at = next_run_at;
        created_at = now;
        updated_at = now;
      },
    )
      ∷ []

abbrev keep_or : Option ℕ → Option ℕ → Option ℕ
keep_or none old = old
keep_or (some t) old = some t

-- `undefined` leaves a column as it is.
abbrev updated_schedule : Option Bool → Option ℕ → Option ℕ → ℕ → PayrollSchedule → PayrollSchedule
updated_schedule none none none now s = s
updated_schedule enabled next_run_at last_run_at now s = record s {
  enabled = or_else enabled s.enabled;
  next_run_at = keep_or next_run_at s.next_run_at;
  last_run_at = keep_or last_run_at s.last_run_at;
  updated_at = now;
}

unfoldable pub update_payroll_schedule :
    (id : ℕ) (enabled : Option Bool) (next_run_at last_run_at : Option ℕ) (now : ℕ)
    → Schedules
    → Schedules
unfolding adjust
update_payroll_schedule id enabled next_run_at last_run_at now table =
    adjust id (updated_schedule enabled next_run_at last_run_at now) table

unfoldable pub delete_payroll_schedule : ℕ → Schedules → Schedules
delete_payroll_schedule id table = delete id table

abbrev pub created_first : ℕ × SchedulerOverride → ℕ × SchedulerOverride → Bool
created_first a b = leb a.1.created_at b.1.created_at

abbrev pub insert_override : ℕ × SchedulerOverride → Overrides → Overrides
insert_override s [] = s ∷ []
insert_override s (r ∷ rs) = if created_first s r then s ∷ r ∷ rs else r ∷ insert_override s rs

abbrev pub order_by_created : Overrides → Overrides
order_by_created [] = []
order_by_created (s ∷ ss) = insert_override s (order_by_created ss)

abbrev pub is_pending : ℕ × SchedulerOverride → Bool
is_pending o = elim o.1.status [
  | pending ↦ true
  | processing ↦ false
  | completed ↦ false
  | override_failed ↦ false
]

abbrev pub start_processing : SchedulerOverride → SchedulerOverride
start_processing o = record o { status = processing }

unfoldable pub enqueue_override :
    (employer_address worker_address : String)
    → OverrideAction
    → OverrideParams
    → (now id : ℕ) → Overrides
    → Overrides
enqueue_override employer_address worker_address action params now id table =
    table
    ++ (
      id,
      record {
        employer_address = employer_address;
        worker_address = worker_address;
        action = action;
        params = params;
        status = pending;
        error_message = none;
        stream_id = none;
        created_at = now;
        executed_at = none;
      },
    )
      ∷ []

-- The rows that the subquery selects, and the table in which these are being processed.
abbrev pub due_overrides : ℕ → Overrides → Overrides
due_overrides limit table = take limit (order_by_created (keep is_pending table))

unfoldable pub start_all : Overrides → Overrides → Overrides
start_all [] table = table
start_all (o ∷ os) table = start_all os (adjust o.0 start_processing table)

unfoldable pub dequeue_pending_overrides : ℕ → Overrides → Overrides × Overrides
unfolding start_all
dequeue_pending_overrides limit table = (
  map (λ (o : ℕ × SchedulerOverride). (o.0, start_processing o.1)) (due_overrides limit table),
  start_all (due_overrides limit table) table,
)

unfoldable pub mark_override_completed : ℕ → Option ℕ → ℕ → Overrides → Overrides
mark_override_completed id stream_id now table =
    adjust id
      (λ (o : SchedulerOverride). record o {
        status = completed;
        executed_at = some now;
        stream_id = stream_id;
      })
      table

unfoldable pub mark_override_failed : ℕ → String → ℕ → Overrides → Overrides
mark_override_failed id error_message now table =
    adjust id
      (λ (o : SchedulerOverride). record o {
        status = override_failed;
        executed_at = some now;
        error_message = some error_message;
      })
      table
