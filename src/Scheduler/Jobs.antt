-- ===== src/Scheduler/Jobs.antt =====
-- The jobs of scheduler/scheduler.ts: `activeJobs`, `scheduleJob`, `unscheduleJob` and the loops of
-- `refreshJobs`. node-cron is a parameter; stopping one of its tasks does not throw.
use quipay_backend.Prelude.{
  ℕ, String, Bool, true, false, Option, none, some, List, [], ◌∷◌, map, eqb, if◌then◌else◌, ◌==◌,
  nat_eq, string_eq, length, any,
}
use quipay_backend.Map.{lookup, insert, delete}
use quipay_backend.Scheduler.Tables.{PayrollSchedule, Schedules}

-- `cron.validate`, and whether `cron.schedule` returns a task.
pub record Cron : Type 0 where
  pub validate : String → Bool
  pub starts : String → Bool

-- `task` is the schedule that the task of the job pays.
pub record ScheduledJob : Type 0 where
  pub task : PayrollSchedule
  pub cron_expression : String

abbrev pub ActiveJobs : Type 0
ActiveJobs = List (ℕ × ScheduledJob)

abbrev pub job_of : PayrollSchedule → ScheduledJob
job_of s = record { task = s; cron_expression = s.cron_expression }

abbrev pub contains : ℕ → List ℕ → Bool
contains id ids = any (λ (i : ℕ). eqb i id) ids

module _ (cron : Cron) where
  abbrev add_job : ℕ → PayrollSchedule → ActiveJobs → Option ScheduledJob → Bool × ActiveJobs
  add_job id s jobs (some _) = (false, jobs)
  add_job id s jobs none =
      if cron.starts s.cron_expression then (true, insert id (job_of s) jobs) else (false, jobs)

  unfoldable pub schedule_job : ℕ → PayrollSchedule → ActiveJobs → Bool × ActiveJobs
  unfolding lookup insert
  schedule_job id s jobs =
      if cron.validate s.cron_expression then add_job id s jobs (lookup id jobs) else (false, jobs)

  abbrev remove_job : ℕ → ActiveJobs → Option ScheduledJob → Bool × ActiveJobs
  remove_job id jobs none = (false, jobs)
  remove_job id jobs (some _) = (true, delete id jobs)

  unfoldable pub unschedule_job : ℕ → ActiveJobs → Bool × ActiveJobs
  unfolding lookup delete
  unschedule_job id jobs = remove_job id jobs (lookup id jobs)

  -- The first loop of `refreshJobs`, over the entries of the map.
  unfoldable pub unschedule_missing : List ℕ → ActiveJobs → ActiveJobs → ActiveJobs
  unfolding unschedule_job
  unschedule_missing ids [] jobs = jobs
  unschedule_missing ids (entry ∷ rest) jobs =
      unschedule_missing ids rest
        (if contains entry.0 ids then jobs else (unschedule_job entry.0 jobs).1)

  abbrev pub refresh_found : ℕ → PayrollSchedule → ActiveJobs → Option ScheduledJob → ActiveJobs
  refresh_found id s jobs none = (schedule_job id s jobs).1
  refresh_found id s jobs (some job) =
      if job.cron_expression == s.cron_expression
      then jobs
      else (schedule_job id s (unschedule_job id jobs).1).1

  unfoldable pub refresh_job : ℕ → PayrollSchedule → ActiveJobs → ActiveJobs
  unfolding lookup schedule_job unschedule_job
  refresh_job id s jobs = refresh_found id s jobs (lookup id jobs)

  -- The second loop.
  unfoldable pub refresh_each : Schedules → ActiveJobs → ActiveJobs
  unfolding refresh_job
  refresh_each [] jobs = jobs
  refresh_each ((id, s) ∷ schedules) jobs = refresh_each schedules (refresh_job id s jobs)

  unfoldable pub apply_schedules : Schedules → ActiveJobs → ActiveJobs
  unfolding unschedule_missing refresh_each
  apply_schedules schedules jobs =
      refresh_each schedules
        (unschedule_missing (map (λ (s : ℕ × PayrollSchedule). s.0) schedules) jobs jobs)

  -- The loop of `stopScheduler` over the jobs.
  unfoldable pub unschedule_all : ActiveJobs → ActiveJobs → ActiveJobs
  unfolding unschedule_job
  unschedule_all [] jobs = jobs
  unschedule_all (entry ∷ rest) jobs = unschedule_all rest (unschedule_job entry.0 jobs).1

-- `getSchedulerStatus`
unfoldable pub get_scheduler_status : ActiveJobs → ℕ × List (ℕ × String)
get_scheduler_status jobs =
    (length jobs, map (λ (entry : ℕ × ScheduledJob). (entry.0, entry.1.cron_expression)) jobs)
