-- ===== src/Audit.antt =====
-- The audit log: audit/redactionEngine.ts, which takes secrets out of what is logged, and
-- audit/auditLogger.ts, which queues the entries and writes them to the table `audit_logs`.
pub mod Redaction
pub mod KeyFree
pub mod Redacted
pub mod Logger
pub mod Queue
pub mod Leaks
mod Tests
