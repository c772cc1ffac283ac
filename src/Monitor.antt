-- ===== src/Monitor.antt =====
-- monitor/monitor.ts and notifier/notifier.ts: how long the treasury of each employer lasts, and the
-- alerts. A JavaScript number is exact here: a rate and a runway are fractions, and rounding is left out.
pub mod Rates
pub mod Statuses
pub mod Cycle
pub mod Employers
pub mod Owed
pub mod Alerts
pub mod Silence
mod Tests
