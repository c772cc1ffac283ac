-- ===== src/Scheduler/NoticeTests.antt =====
-- A stream of an employer that is its own worker, and one of another worker, at the checkers of
-- scheduler/scheduler.ts.
use quipay_backend.Prelude.{String, ◌≡◌, refl, true, none, [], ◌∷◌, nat_eq, string_eq}
use quipay_backend.Int.{pos, ◌+ℤ◌}
use quipay_backend.Streams.{StreamRow, active}
use quipay_backend.Scheduler.Notices.{
  cliff_unlock, Tables, Sent, run_cliff_unlock_checker, run_stream_ending_checker, workers_checked,
}
use quipay_backend.Scheduler.Notified.{Adds, is_one_of, checkers_notify_employers}

abbrev row : String → StreamRow
row worker = record {
  employer_address = "GA";
  worker_address = worker;
  total_amount = pos 10;
  withdrawn_amount = pos 0;
  start_ts = pos 1000;
  end_ts = pos 2000;
  status = active;
  closed_at = none;
  ledger_created = 1;
  deletion = none;
}

abbrev tables : Tables
tables = record {
  streams = (1, row "GB") ∷ (2, row "GA") ∷ [];
  treasury = ("GA", record { balance = pos 5; token = "USDC" }) ∷ [];
  settings = [];
}

abbrev nothing_sent : Sent
nothing_sent = record { keys = []; notices = [] }

-- The worker of the first stream hears nothing, the employer does, and once.
worker_not_notified :
    (run_cliff_unlock_checker
      (λ n. true)
      1500
      tables
      (run_cliff_unlock_checker (λ n. true) 1400 tables nothing_sent).1).1.notices
    ≡ record { kind = cliff_unlock; worker = "GA"; stream_id = 2 } ∷ []
unfolding run_cliff_unlock_checker ◌+ℤ◌
worker_not_notified = refl

checkers_notify_employers_example :
    Adds
      (λ (n : String). is_one_of (workers_checked tables) n ≡ true)
      nothing_sent
      (run_cliff_unlock_checker (λ n. true) 1500 tables nothing_sent).1
    × Adds
        (λ (n : String). is_one_of (workers_checked tables) n ≡ true)
        nothing_sent
        (run_stream_ending_checker (λ n. true) 1500 tables nothing_sent).1
checkers_notify_employers_example = checkers_notify_employers (λ n. true) 1500 tables nothing_sent
