-- ===== src/Scheduler/Tests.antt =====
-- Runs of scheduler/scheduler.ts on two schedules and two overrides.
use quipay_backend.Prelude.{
  ℕ, suc, ◌+◌, ◌*◌, String, ◌≡◌, refl, sym, ap, inl, inr, true, not, Option, none, some, List, [],
  ◌∷◌, map, arith, ltb, eqb, if◌then◌else◌, Bool-cases, ◌==◌, nat_eq, string_eq, All,
}
use quipay_backend.Map.{lookup, adjust, insert}
use quipay_backend.Scheduler.Tables.{
  PayrollSchedule, Schedules, SchedulerOverride, OverrideStatus, create_stream, pending, completed,
  override_failed, failed,
}
use quipay_backend.Scheduler.Gateway.{
  Config, Chain, accepted, tx_success, tx_try_again, created, poll_transaction,
}
use quipay_backend.Scheduler.NextRun.{
  run_at, calculate_next_run, calculate_next_run-WithinHour, WithinHour, HasMinute, first_field,
  after_slash, parse_int,
}
use quipay_backend.Scheduler.Jobs.{Cron, ActiveJobs, job_of, apply_schedules, get_scheduler_status}
use quipay_backend.Scheduler.Refresh.{cron_of, planned, AreValid, apply_schedules-planned}
use quipay_backend.Scheduler.Overrides.{OverrideWorld, MarkAnswers, execute_scheduler_overrides}
use quipay_backend.Scheduler.Endings.{Ended, WasCreated, execute_scheduler_overrides-Ended}
use quipay_backend.Scheduler.Payroll.{World, Answers, execute_scheduled_payroll}
use quipay_backend.Lock.{acquired}
use quipay_backend.Scheduler.Recorded.{IsRecorded, execute_scheduled_payroll-IsRecorded}

-- The 1st of a month, 09:30: `30 9 1 * *`, and a clock at 10:40:00 of some day.
abbrev monthly : List ℕ
monthly = b'3' ∷ b'0' ∷ b' ' ∷ b'9' ∷ b' ' ∷ b'1' ∷ b' ' ∷ b'*' ∷ b' ' ∷ b'*' ∷ []

abbrev at_10_40 : ℕ
at_10_40 = 10 * 3600000 + 40 * 60000

monthly_runs_within_the_hour :
    calculate_next_run (λ e. true) monthly at_10_40 ≡ run_at (11 * 3600000 + 30 * 60000)
unfolding calculate_next_run
monthly_runs_within_the_hour = refl

monthly-HasMinute : HasMinute (first_field monthly) (after_slash (first_field monthly))
unfolding first_field after_slash parse_int
monthly-HasMinute = omega arith

calculate_next_run-WithinHour_example :
    WithinHour at_10_40 (calculate_next_run (λ e. true) monthly at_10_40)
calculate_next_run-WithinHour_example =
    calculate_next_run-WithinHour (λ e. true) monthly at_10_40 monthly-HasMinute

-- The chain is the number of the streams; a transaction is the id of its stream.
abbrev chain : Chain ℕ ℕ
chain = record {
  build_transaction = λ s start_ts end_ts c. inr (suc c);
  simulate = λ tx c. none;
  assemble = λ tx. tx;
  send_transaction = λ tx c. (accepted "hash", tx);
  get_transaction = λ hash c i. if ltb i 2 then tx_try_again else tx_success (some c);
}

abbrev config : Config
config = record {
  automation_gateway_address = "CA";
  payroll_stream_address = "CB";
  hot_wallet_secret = "S";
  soroban_rpc_url = "https://rpc";
}

abbrev schedule : String → PayrollSchedule
schedule cron_expression = record {
  employer = "GA";
  worker = "GB";
  token = "USDC";
  rate = "10";
  cron_expression = cron_expression;
  duration_days = 30;
  enabled = true;
  last_run_at = none;
  next_run_at = none;
  created_at = 0;
  updated_at = 0;
}

abbrev schedules : Schedules
schedules = (1, schedule "0 9 * * *") ∷ (2, schedule "nonsense") ∷ (3, schedule "0 8 * * *") ∷ []

abbrev cron : Cron
cron = record { validate = λ e. not (e == "nonsense"); starts = λ e. not (e == "nonsense") }

abbrev jobs : ActiveJobs
jobs = (1, job_of (schedule "0 7 * * *")) ∷ (4, job_of (schedule "0 6 * * *")) ∷ []

jobs-AreValid : AreValid cron jobs
unfolding lookup
jobs-AreValid id e h = elim (Bool-cases (eqb 1 id)) [
  | inl t ↦ ap cron.validate (sym (some_inj (rw t at h)))
  | inr f ↦ elim (Bool-cases (eqb 4 id)) [
    | inl t ↦ ap cron.validate (sym (some_inj (rw (f, t) at h)))
    | inr g ↦ absurd (cc (rw (f, g) at h))
  ]
]
  where
    some_inj : {a b : String} → some a ≡ some b → a ≡ b
    some_inj h = cc h

refreshed :
    get_scheduler_status (apply_schedules cron schedules jobs)
    ≡ (2, (1, "0 9 * * *") ∷ (3, "0 8 * * *") ∷ [])
unfolding get_scheduler_status apply_schedules
refreshed = refl

apply_schedules-planned_example :
    ((id : ℕ)
      → cron_of (lookup id (apply_schedules cron schedules jobs)) ≡ planned cron id schedules)
    × AreValid cron (apply_schedules cron schedules jobs)
apply_schedules-planned_example =
    apply_schedules-planned cron (λ e h. h) schedules jobs (refl, (refl, (refl, tt))) jobs-AreValid

abbrev override : ℕ → Option String → SchedulerOverride
override created_at rate = record {
  employer_address = "GA";
  worker_address = "GB";
  action = create_stream;
  params = record { token = none; rate = rate; duration_days = none };
  status = pending;
  error_message = none;
  stream_id = none;
  created_at = created_at;
  executed_at = none;
}

abbrev before : OverrideWorld ℕ
before = record {
  chain_state = 7;
  overrides = (1, override 5 (some "3")) ∷ (2, override 4 none) ∷ [];
}

abbrev marks : ℕ → MarkAnswers
marks id = record { completes = none; fails = true }

execute_scheduler_overrides-Ended_example :
    All
      (λ (o : ℕ × SchedulerOverride).
        Ended (WasCreated ℕ ℕ config chain 0 9000) (
          lookup o.0 (execute_scheduler_overrides config chain 0 9000 true marks before).overrides))
      ((2, override 4 none) ∷ (1, override 5 (some "3")) ∷ [])
execute_scheduler_overrides-Ended_example =
    execute_scheduler_overrides-Ended ℕ ℕ config chain 0 9000 marks (λ id. refl) before

overrides_executed :
    map {B = OverrideStatus × Option ℕ}
      (λ (o : ℕ × SchedulerOverride). (o.1.status, o.1.stream_id))
      (execute_scheduler_overrides config chain 0 9000 true marks before).overrides
    ≡ (completed, some 8) ∷ (override_failed, none) ∷ []
unfolding execute_scheduler_overrides adjust lookup insert
overrides_executed = refl

abbrev answers : Option String → Answers
answers update = record {
  update = update;
  update_after_error = true;
  insert_log = true;
  started_at = 1000;
  now = 2000;
  failed_at = 3000;
  ended_at = 4000;
  next_run = run_at 5000;
  audit_logger = true;
  random = 0;
}

abbrev world : World ℕ
world = record {
  chain_state = 7;
  schedules = schedules;
  logs = [];
  overrides = [];
  events = [];
  active_jobs = jobs;
}

execute_scheduled_payroll-IsRecorded_example :
    let run =
      execute_scheduled_payroll config chain acquired true
        (answers (some "timeout"))
        1
        (schedule "0 9 * * *")
        world in
    (run.0 ≡ true)
    × IsRecorded ℕ ℕ config chain (answers (some "timeout")) 1 (schedule "0 9 * * *") world run.1
execute_scheduled_payroll-IsRecorded_example =
    execute_scheduled_payroll-IsRecorded ℕ ℕ config chain true (answers (some "timeout")) 1
      (schedule "0 9 * * *") world refl

-- The stream was created, and the update of the schedule failed.
created_but_failed :
    (execute_scheduled_payroll config chain acquired true
      (answers (some "timeout"))
      1
      (schedule "0 9 * * *")
      world).1.logs
    ≡ record {
      schedule_id = 1;
      status = failed;
      stream_id = some 8;
      error_message = some "timeout";
      execution_time = 3000;
    }
      ∷ []
unfolding execute_scheduled_payroll
created_but_failed = refl

-- The third answer is the success.
third_answer : poll_transaction (chain.get_transaction "hash" 8) 0 30 ≡ (created 8, 2000)
unfolding poll_transaction
third_answer = refl
