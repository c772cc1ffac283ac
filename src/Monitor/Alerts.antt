-- ===== src/Monitor/Alerts.antt =====
-- Which employers a cycle of monitor/monitor.ts raises an alert for.
use quipay_backend.Prelude.{
  ℕ, ◌*◌, ◌<◌, String, ◌≡◌, ◌↔◌, Bool, true, Option, some, List, ◌++◌, map, if◌then◌else◌, nat_eq,
  string_eq, keep, All,
}
use quipay_backend.Int.{ℤ, pos_part}
use quipay_backend.Map
use quipay_backend.Monitor.Rates.{Rate, Clock}
use quipay_backend.Monitor.Statuses.{EmployerTreasuryStatus, Database, contains}
use quipay_backend.Monitor.Owed.{treasury_balance, daily_burn}
use quipay_backend.Monitor.Cycle.{Services, MonitorRow, World, monitor_row, is_alert_needed}
use quipay_backend.Monitor.Employers.{is_known}

-- The balance, or nothing where it is negative, is less than what so many days burn.
abbrev pub IsShort : ℕ → ℤ → Rate → Type 0
IsShort threshold balance rate = pos_part balance * rate.denominator < threshold * rate.numerator

module _ (services : Services) where
  abbrev flagged : EmployerTreasuryStatus → EmployerTreasuryStatus
  flagged s = if is_alert_needed services s then record s { alert_sent = true } else s

  abbrev persisted : EmployerTreasuryStatus → Bool
  persisted s = services.persists s.employer

  abbrev logged : List EmployerTreasuryStatus → List MonitorRow
  logged ss = map monitor_row (keep persisted ss)

  -- A status has the balance of its employer's treasury row and the burn of its streams, and is flagged
  -- where that employer is short of funds.
  abbrev pub IsJudged : Clock → Database → EmployerTreasuryStatus → Type 0
  IsJudged clock db s =
      (s.balance ≡ treasury_balance db s.employer)
      × (s.daily_burn_rate ≡ daily_burn clock db s.employer)
      × ((s.alert_sent ≡ true)
          ↔ IsShort services.runway_alert_days (treasury_balance db s.employer)
              (daily_burn clock db s.employer))

  abbrev name : EmployerTreasuryStatus → String
  name s = s.employer

  abbrev is_flagged : EmployerTreasuryStatus → Bool
  is_flagged s = s.alert_sent

  -- What a cycle reports.
  abbrev pub IsReported :
      Clock
      → Database
      → World
      → List EmployerTreasuryStatus
      → Option (List EmployerTreasuryStatus) × World
      → Type 0
  IsReported clock db w fs ran =
      (ran.0 ≡ some fs)
      × ((e : String) → contains (map name fs) e ≡ is_known db e)
      × All (IsJudged clock db) fs
      × (ran.1.monitor_log ≡ w.monitor_log ++ logged fs)
      × (map name ran.1.alerts ≡ map name w.alerts ++ map name (keep is_flagged fs))
