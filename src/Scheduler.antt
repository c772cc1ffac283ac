-- ===== src/Scheduler.antt =====
-- scheduler/scheduler.ts and the statements of db/queries.ts that it uses: payroll schedules, the jobs
-- of their cron expressions, the creation of streams and the overrides of the administrators.
pub mod Tables
pub mod Gateway
pub mod Jobs
pub mod NextRun
pub mod Overrides
pub mod Taken
pub mod Endings
pub mod Payroll
pub mod Notices
pub mod Notified
pub mod Recorded
pub mod Unscheduling
pub mod Refresh
mod Tests
mod NoticeTests
