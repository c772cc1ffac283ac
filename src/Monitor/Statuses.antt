-- ===== src/Monitor/Statuses.antt =====
-- `computeTreasuryStatus` of monitor/monitor.ts, with the queries of db/queries.ts that it makes.
use quipay_backend.Prelude.{
  ℕ, String, Bool, true, false, not, ◌&&◌, Option, none, some, List, [], ◌∷◌, ◌++◌, map,
  if◌then◌else◌, or_else, ◌==◌, nat_eq, string_eq, take, keep, any,
}
use quipay_backend.Int.{ℤ, pos, ◌+ℤ◌, ◌-ℤ◌}
use quipay_backend.Map
use quipay_backend.Streams.{Status, active, paused, completed, cancelled, StreamRow, Treasury}
use quipay_backend.Monitor.Rates.{
  Rate, Runway, Clock, calculate_daily_burn_rate, calculate_runway_days, calculate_exhaustion_date,
}

pub record EmployerTreasuryStatus : Type 0 where
  pub employer : String
  pub balance : ℤ
  pub liabilities : ℤ
  pub daily_burn_rate : Rate
  pub runway_days : Option Runway
  pub funds_exhaustion_date : Option ℤ
  pub alert_sent : Bool

-- The tables that are read; `newest_first` is the order by `created_at`, which is not among the columns.
pub record Database : Type 0 where
  pub treasury : List (String × Treasury)
  pub streams : List StreamRow
  pub newest_first : List StreamRow → List StreamRow

abbrev pub is_active : Status → Bool
is_active active = true
is_active paused = false
is_active completed = false
is_active cancelled = false

abbrev get_treasury_balances : Database → List (String × ℤ)
get_treasury_balances db = map (λ (row : String × Treasury). (row.0, row.1.balance)) db.treasury

-- `SUM(total_amount - withdrawn_amount) … GROUP BY employer_address`; deleted streams are counted too.
abbrev pub sum_by_employer : List StreamRow → List (String × ℤ)
sum_by_employer [] = []
sum_by_employer (s ∷ ss) =
    let rest = sum_by_employer ss in
    if is_active s.status
    then Map.insert s.employer_address
        (or_else (Map.lookup s.employer_address rest) (pos 0)
          +ℤ (s.total_amount -ℤ s.withdrawn_amount))
        rest
    else rest

unfoldable pub get_active_liabilities : Database → List (String × ℤ)
unfolding Map.lookup Map.insert ◌+ℤ◌ ◌-ℤ◌
get_active_liabilities db = sum_by_employer db.streams

abbrev pub is_deleted : StreamRow → Bool
is_deleted s = elim s.deletion [ none ↦ false | some d ↦ true ]

-- `getStreamsByEmployer(employer, "active", limit)`
abbrev get_active_streams : Database → String → ℕ → List StreamRow
get_active_streams db employer limit = take limit (
    db.newest_first (
      keep
        (λ (s : StreamRow).
          s.employer_address == employer && (not (is_deleted s) && is_active s.status))
        db.streams))

-- `new Map(rows)`
abbrev pub map_of : List (String × ℤ) → List (String × ℤ) → List (String × ℤ)
map_of [] m = m
map_of ((k, v) ∷ rows) m = map_of rows (Map.insert k v m)

abbrev pub contains : List String → String → Bool
contains ks k = any (λ (j : String). j == k) ks

-- `new Set(…)`: the first of equal keys stays.
abbrev pub add_keys : List (String × ℤ) → List String → List String
add_keys [] ks = ks
add_keys ((k, v) ∷ rows) ks = add_keys rows (if contains ks k then ks else ks ++ k ∷ [])

abbrev balance_map : Database → List (String × ℤ)
balance_map db = map_of (get_treasury_balances db) []

abbrev liability_map : Database → List (String × ℤ)
liability_map db = map_of (get_active_liabilities db) []

unfoldable pub all_employers : Database → List String
unfolding Map.insert get_active_liabilities
all_employers db = add_keys (liability_map db) (add_keys (balance_map db) [])

module _ (clock : Clock) (db : Database) where
  abbrev pub balance_of : String → ℤ
  balance_of employer = or_else (Map.lookup employer (balance_map db)) (pos 0)

  abbrev pub burn_rate_of : String → Rate
  burn_rate_of employer =
      calculate_daily_burn_rate clock.now_ms (get_active_streams db employer 1000)

  abbrev pub runway_of : String → Option Runway
  runway_of employer = calculate_runway_days (balance_of employer) (burn_rate_of employer)

  abbrev pub status_with : String → Option ℤ → EmployerTreasuryStatus
  status_with employer date = record {
    employer = employer;
    balance = balance_of employer;
    liabilities = or_else (Map.lookup employer (liability_map db)) (pos 0);
    daily_burn_rate = burn_rate_of employer;
    runway_days = runway_of employer;
    funds_exhaustion_date = date;
    alert_sent = false;
  }

  abbrev pub also :
      Option EmployerTreasuryStatus
      → Option (List EmployerTreasuryStatus)
      → Option (List EmployerTreasuryStatus)
  also none ss = none
  also (some s) none = none
  also (some s) (some ss) = some (s ∷ ss)

  abbrev pub status_at : String → Option (Option ℤ) → Option EmployerTreasuryStatus
  status_at employer none = none
  status_at employer (some date) = some (status_with employer date)

  -- The loop; what it throws, it throws for all.
  unfoldable pub statuses_of : List String → Option (List EmployerTreasuryStatus)
  unfolding calculate_daily_burn_rate calculate_runway_days calculate_exhaustion_date Map.lookup
      Map.insert get_active_liabilities
  statuses_of [] = some []
  statuses_of (e ∷ es) =
      let rest = statuses_of es in
      also (status_at e (calculate_exhaustion_date clock (runway_of e))) rest

  -- Whether all queries answer; `none` where one of them or a date throws.
  unfoldable pub compute_treasury_status : (answers : Bool) → Option (List EmployerTreasuryStatus)
  unfolding statuses_of all_employers
  compute_treasury_status false = none
  compute_treasury_status true = statuses_of (all_employers db)
