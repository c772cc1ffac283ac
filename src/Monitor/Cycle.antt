-- ===== src/Monitor/Cycle.antt =====
-- `runMonitorCycle` of monitor/monitor.ts and `sendTreasuryAlert` of notifier/notifier.ts. The service
-- log always answers, and is left out; the audit log is the list of the events that it accepts.
use quipay_backend.Prelude.{
  ℕ, String, Bool, true, false, ◌&&◌, Option, none, some, List, [], ◌∷◌, ◌++◌, map, if◌then◌else◌,
  nat_eq, string_eq, keep,
}
use quipay_backend.Int.{ℤ}
use quipay_backend.Map
use quipay_backend.Lock.{LockAnswer, Run, with_advisory_lock}
use quipay_backend.Monitor.Rates.{Runway, Clock, is_below}
use quipay_backend.Monitor.Statuses.{EmployerTreasuryStatus, Database, compute_treasury_status}

-- `sendWebhookAlert`, `sendSlackAlert`, `sendEmailAlert` and `sendWebhookNotification`.
pub data Channel : Type 0 where
  webhook_alert slack_alert email_alert webhook_notification : Channel

-- The configuration, and which calls succeed for which employer.
pub record Services : Type 0 where
  pub runway_alert_days : ℕ
  pub alert_webhook_url : Bool
  pub alert_slack_enabled : Bool
  pub alert_email_enabled : Bool
  pub delivers : Channel → String → Bool
  pub audits : String → Bool
  pub persists : String → Bool

-- A row of `treasury_monitor_log`.
pub record MonitorRow : Type 0 where
  pub employer : String
  pub balance : ℤ
  pub liabilities : ℤ
  pub runway_days : Option Runway
  pub alert_sent : Bool

-- `alerts` are the calls of `sendTreasuryAlert`, `deliveries` the channels that have delivered one.
pub record World : Type 0 where
  pub gauge : List (String × Option Runway)
  pub alerts : List EmployerTreasuryStatus
  pub deliveries : List (Channel × String)
  pub audit_events : List EmployerTreasuryStatus
  pub monitor_log : List MonitorRow

abbrev pub monitor_row : EmployerTreasuryStatus → MonitorRow
monitor_row s = record {
  employer = s.employer;
  balance = s.balance;
  liabilities = s.liabilities;
  runway_days = s.runway_days;
  alert_sent = s.alert_sent;
}

-- `runway_days !== null && runway_days < threshold`
abbrev pub is_short : ℕ → Option Runway → Bool
is_short threshold none = false
is_short threshold (some r) = is_below threshold r

module _ (services : Services) where
  abbrev enabled_channels : List (Channel × Bool)
  enabled_channels =
      (webhook_alert, services.alert_webhook_url)
      ∷ (slack_alert, services.alert_slack_enabled)
      ∷ (email_alert, services.alert_email_enabled)
      ∷ (webhook_notification, true)
      ∷ []

  -- `Promise.allSettled`: the call resolves whatever becomes of the channels.
  unfoldable pub send_treasury_alert : EmployerTreasuryStatus → World → Run World
  send_treasury_alert s w = (
    true,
    record w {
      alerts = w.alerts ++ s ∷ [];
      deliveries =
          w.deliveries
          ++ map (λ (c : Channel × Bool). (c.0, s.employer))
              (keep (λ (c : Channel × Bool). c.1 && services.delivers c.0 s.employer)
                enabled_channels);
    },
  )

  abbrev pub is_alert_needed : EmployerTreasuryStatus → Bool
  is_alert_needed s = is_short services.runway_alert_days s.runway_days

  -- `alert_sent` is set where the call resolves.
  abbrev pub send_if_needed : EmployerTreasuryStatus → World → EmployerTreasuryStatus × World
  send_if_needed s w =
      let sent = send_treasury_alert s w in
      if is_alert_needed s
      then ((if sent.0 then record s { alert_sent = true } else s), sent.1)
      else (s, w)

  abbrev pub write_audit_event : EmployerTreasuryStatus → World → World
  write_audit_event s w =
      if services.audits s.employer then record w { audit_events = w.audit_events ++ s ∷ [] } else w

  -- `logMonitorEvent` of db/queries.ts
  abbrev pub log_monitor_event : EmployerTreasuryStatus → World → World
  log_monitor_event s w =
      if services.persists s.employer
      then record w { monitor_log = w.monitor_log ++ monitor_row s ∷ [] }
      else w

  -- The body of the loop: the status that is left, with its flag, and the world.
  abbrev pub check_employer : EmployerTreasuryStatus → World → EmployerTreasuryStatus × World
  check_employer s w =
      let sent =
        send_if_needed s (record w { gauge = Map.insert s.employer s.runway_days w.gauge }) in
      (sent.0, log_monitor_event sent.0 (write_audit_event sent.0 sent.1))

  unfoldable pub check_employers :
      List EmployerTreasuryStatus → World → List EmployerTreasuryStatus × World
  unfolding Map.insert send_treasury_alert
  check_employers [] w = ([], w)
  check_employers (s ∷ ss) w =
      let checked = check_employer s w in
      let rest = check_employers ss checked.1 in (checked.0 ∷ rest.0, rest.1)

  -- The task under the lock: an error of the computation is logged only.
  abbrev pub monitor_task :
      Option (List EmployerTreasuryStatus)
      → World × List EmployerTreasuryStatus
      → Run (World × List EmployerTreasuryStatus)
  monitor_task none w = (true, w)
  monitor_task (some ss) w = let checked = check_employers ss w.0 in (true, (checked.1, checked.0))

  abbrev returned :
      Run (World × List EmployerTreasuryStatus) → Option (List EmployerTreasuryStatus) × World
  returned ran = (if ran.0 then some ran.1.1 else none, ran.1.0)

  -- `none` where the lock throws.
  unfoldable pub run_monitor_cycle :
      Clock
      → Database
      → LockAnswer
      → (unlocks answers : Bool) → World
      → Option (List EmployerTreasuryStatus) × World
  unfolding compute_treasury_status check_employers with_advisory_lock
  run_monitor_cycle clock db lock unlocks answers w = returned (
      with_advisory_lock lock unlocks (monitor_task (compute_treasury_status clock db answers))
        (w, []))
