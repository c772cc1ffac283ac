-- ===== src/Monitor/Tests.antt =====
-- Runs of monitor/monitor.ts, and its theorems at inputs.
use quipay_backend.Prelude.{
  ℕ, String, ◌≡◌, refl, true, false, Option, none, some, List, [], ◌∷◌, map, arith, nat_eq,
  string_eq,
}
use quipay_backend.Int.{pos}
use quipay_backend.Map
use quipay_backend.Lock.{acquired}
use quipay_backend.Streams.{StreamRow, active}
use quipay_backend.Monitor.Rates.{Clock, calculate_daily_burn_rate}
use quipay_backend.Monitor.Statuses.{EmployerTreasuryStatus, Database}
use quipay_backend.Monitor.Cycle.{Services, World, run_monitor_cycle}
use quipay_backend.Monitor.Silence.{run_monitor_cycle-silent}

abbrev stream_of : String → ℕ → StreamRow
stream_of employer amount = record {
  employer_address = employer;
  worker_address = "GW";
  total_amount = pos amount;
  withdrawn_amount = pos 0;
  start_ts = pos 0;
  end_ts = pos 864000;
  status = active;
  closed_at = none;
  ledger_created = 1;
  deletion = none;
}

abbrev clock : Clock
clock = record { now_ms = 0; day_of_month = 1 }

abbrev no_channel : Services
no_channel = record {
  runway_alert_days = 7;
  alert_webhook_url = true;
  alert_slack_enabled = false;
  alert_email_enabled = false;
  delivers = λ c e. false;
  audits = λ e. true;
  persists = λ e. true;
}

abbrev quiet : World
quiet = record { gauge = []; alerts = []; deliveries = []; audit_events = []; monitor_log = [] }

-- The first pays 100 a day and has 300, the second has 1000.
abbrev two_employers : Database
two_employers = record {
  treasury =
      ("A", record { balance = pos 300; token = "USDC" })
      ∷ ("B", record { balance = pos 1000; token = "USDC" })
      ∷ [];
  streams = stream_of "A" 1000 ∷ stream_of "B" 1000 ∷ [];
  newest_first = λ rows. rows;
}

abbrev reported : Option (List EmployerTreasuryStatus) × World
reported = run_monitor_cycle no_channel clock two_employers acquired true true quiet

alerted_one : map (λ (s : EmployerTreasuryStatus). s.employer) reported.1.alerts ≡ "A" ∷ []
unfolding run_monitor_cycle
alerted_one = refl

-- A third employer pays one stroop in ten days, and has a thousand million.
abbrev three_employers : Database
three_employers = record {
  treasury = ("C", record { balance = pos 1000000000; token = "USDC" }) ∷ two_employers.treasury;
  streams = stream_of "C" 1 ∷ two_employers.streams;
  newest_first = λ rows. rows;
}

run_monitor_cycle-silent_example :
    run_monitor_cycle no_channel clock three_employers acquired true true quiet ≡ (some [], quiet)
unfolding calculate_daily_burn_rate Map.lookup Map.insert
run_monitor_cycle-silent_example =
    run_monitor_cycle-silent no_channel clock three_employers quiet "C" refl (omega arith)
      (omega arith)
