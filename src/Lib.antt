-- ===== src/Lib.antt =====
-- Verification of the Quipay backend: the parts that keep money, sequence numbers, events, webhooks
-- and wallets right.
--
-- The chain's events come in through `src/syncer.ts`, which asks the Soroban RPC for batches, each as a
-- job of `src/queue/asyncQueue.ts`, decodes them, and writes them with the statements of
-- `src/db/queries.ts`; these also keep the treasury and the audit log and take answers out of the
-- cache of `src/utils/cache.ts`. `src/services/nonceManager.ts` hands out the account's sequence
-- numbers. `src/delivery.ts` sends webhooks; a delivery that fails goes to the dead letter queue of
-- `src/db/dlq.ts`, from which `src/webhookDlqWorker.ts` delivers it again.
-- `src/services/walletVerification.ts` proves that a wallet belongs to a worker.
-- `src/scheduler/scheduler.ts` keeps a job for each active payroll schedule, whose runs create the
-- streams that the events then report, and executes the overrides of the administrators;
-- `src/audit/auditLogger.ts` keeps what the parts report, redacted by `src/audit/redactionEngine.ts`.
-- Requests pass `src/middleware/rbac.ts` and `src/middleware/idempotency.ts`; the tables are made by
-- `src/db/migrationRunner.ts`. `src/monitor/monitor.ts` warns of treasuries that run out,
-- `src/services/archiveService.ts` moves old rows to an archive, and `src/services/cctpIndexer.ts`
-- finds the transfers that other chains announce, for which `src/services/attestationPoller.ts` gets
-- the attestations.
--
-- The files. A name in snake_case is the source's name in camelCase.
--   Prelude, Map, Int: shared names, Boolean tests, lists over native numbers, a JavaScript `Map` as an
--     association list, and integers (`bigint`, `NUMERIC`).
--   Cache: `SimpleCache`. `Cache.Laws` reads it through the view of a key at a time.
--   Nonce: `NonceManager`, with the answer of Horizon as an argument. `Nonce.Ownership` runs it with
--     callers that hold numbers, use them or give them back.
--   Jobs: `enqueueJob`, over a job that is a function of its state. The rounds left stand in for the
--     attempt's bound, so that the loop is structural and needs no fuel.
--   Streams: `upsertStream`, `recordWithdrawal`, `softDeleteStream`, `getStreamById` and the sync
--     cursor, over the tables as lists; a transaction is one step.
--   Syncer.Events, Syncer: `parseEvent`, `ingestEvents` and `runSync`, with the RPC's answer to each
--     request as a parameter. The loop runs on fuel, and `none` means that the fuel ran out: one round
--     for each ledger from the cursor to the latest is enough where the RPC answers.
--   Dlq: the dead letter table, its statements and the listing of the due webhooks.
--   Webhooks (Model, Payload, Delivery, Notification): `deliverWebhookRequest`,
--     `attemptDeliveryOnce`, `sendWebhookNotification` and `retryWebhookEvent`, with the network as
--     a parameter that answers the n-th request.
--   Webhooks.Worker: `processWebhookDLQItem` and `runWebhookDLQRetryBatch`.
--   Wallets: `createChallenge`, `verifyAndLink`, the status and the clean-up, with the signature checks
--     as a parameter; the part of `verifyAndLink` behind its SELECT stands by itself, since the queries
--     are no transaction.
--   Scheduler.Tables: `payroll_schedules`, `scheduler_logs` and `scheduler_overrides`.
--   Scheduler.Gateway: `triggerStreamCreation`, with the Stellar SDK and the network as a parameter;
--     its loop recurs on the rounds left, 30 as in the source.
--   Scheduler.NextRun: `calculateNextRun`, on a clock in UTC.
--   Scheduler.Jobs: `activeJobs`, `scheduleJob`, `unscheduleJob`, the loops of `refreshJobs`, and
--     `getSchedulerStatus`, with node-cron as a parameter.
--   Scheduler.Overrides: `executeSchedulerOverrides`. Scheduler.Payroll: `executeScheduledPayroll`
--     and `refreshJobs`. Lock: `withAdvisoryLock` of `src/utils/lock.ts`.
--   Scheduler.Notices: `runCliffUnlockChecker` and `runStreamEndingChecker`.
--   Audit.Redaction: `RedactionEngine`. Audit.Logger: `AuditLogger`, with entries in a store, since the
--     queue shares them with the callers; a flush is two steps, and one that fails may leave rows.
--   Idempotency: `IdempotencyService` and `idempotencyMiddleware`.
--   Roles: `extractUser`, `authenticateRequest` and `requireRole`.
--   Migrations: `MigrationRunner`; Migrations.Files has `loadMigrations`. The digits of a version are
--     written on fuel, one more than the version, which is more than it has digits.
--   Summaries: `src/services/payrollSummaryCache.ts`, with Redis as a parameter.
--   Monitor: Monitor.Rates has the arithmetic, exact and on fractions, Monitor.Statuses
--     `computeTreasuryStatus`, and Monitor.Cycle `runMonitorCycle` and `sendTreasuryAlert`.
--   Archive.Anonymizer: `ArchivePiiAnonymizer`, with the hash as a parameter. Archive.Tables: the rows and
--     what is archived of them. Archive.Stores: the batches and `runArchiveRetentionCycle`, whose loop
--     recurs on the batches left, as many as the source allows. Archive.Snapshots: the settings and
--     `captureMetricSnapshot`.
--   Cctp: `parseCCTPMessage` and `indexChain`, with the node of a chain as a parameter.
--     Cctp.Attestations: `pollCycle` of `src/services/attestationPoller.ts`.
-- A file named Tests has runs and the laws at inputs.
--
-- Not modelled: the low runway alerter and the report scheduler beside the payroll runs; the event
-- loggers, the queries and the rotation of the audit log; the AI job store, which only tests
-- import; the timers that start the monitor, the indexer and a sync run, and the lock around the
-- latter; and HTTP routes, rendering, secrets and logging, which are calls of other programs or
-- output. Statements of the database succeed where a file's comment says so, columns set by `NOW()`
-- that nothing modelled reads are left out; Streams leaves out the Redis copy of the payroll
-- summaries, which Summaries has.
pub mod Prelude
pub mod Map
pub mod Int
pub mod Cache
pub mod Nonce
pub mod Jobs
pub mod Streams
pub mod Syncer
pub mod Dlq
pub mod Webhooks
pub mod Wallets
pub mod Lock
pub mod Scheduler
pub mod Audit
pub mod Idempotency
pub mod Roles
pub mod Migrations
pub mod Summaries
pub mod Monitor
pub mod Archive
pub mod Cctp
