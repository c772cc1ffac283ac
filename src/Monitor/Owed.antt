-- ===== src/Monitor/Owed.antt =====
-- The balance and the burn of an employer, read off the tables without the maps of monitor/monitor.ts.
use quipay_backend.Prelude.{
  ℕ, ◌+◌, ◌*◌, ◌/◌, String, ◌≡◌, refl, ap, ◌∙◌, inl, inr, not, ◌&&◌, ◌||◌, List, [], ◌∷◌, map, eqb,
  if◌then◌else◌, Bool-cases, or_else, ◌==◌, nat_eq, string_eq, take, keep,
}
use quipay_backend.Int.{ℤ, pos, pos_part, ◌-ℤ◌}
use quipay_backend.Map
use quipay_backend.Streams.{StreamRow, Treasury}
use quipay_backend.Monitor.Rates.{Rate, Clock, add_stream, add_streams, calculate_daily_burn_rate}
use quipay_backend.Monitor.Statuses.{
  Database, is_active, is_deleted, map_of, balance_of, burn_rate_of,
}

-- The balance of the last row of the employer, or the one given where there is none.
pub treasury_of : List (String × Treasury) → String → ℤ → ℤ
treasury_of [] employer old = old
treasury_of ((key, row) ∷ rows) employer old =
    treasury_of rows employer (if key == employer then row.balance else old)

-- The first thousand of the employer's active streams that are not deleted.
abbrev pub paying_streams : Database → String → List StreamRow
paying_streams db employer = take 1000 (
    db.newest_first (
      keep
        (λ (s : StreamRow).
          s.employer_address == employer && (not (is_deleted s) && is_active s.status))
        db.streams))

-- What streams pay in a day, added to a rate: what is left of each, times 86,400 seconds, over the
-- seconds that are left; a stream with nothing left or no time left pays nothing.
pub burn : (now : ℕ) → List StreamRow → Rate → Rate
burn now [] r = r
burn now (s ∷ ss) r =
    let owed = pos_part (s.total_amount -ℤ s.withdrawn_amount) in
    let seconds = pos_part (s.end_ts -ℤ pos now) in
    burn now ss (
      if eqb owed 0 || eqb seconds 0 then r else record {
        numerator = r.numerator * seconds + owed * 86400 * r.denominator;
        denominator = r.denominator * seconds;
      })

abbrev pub treasury_balance : Database → String → ℤ
treasury_balance db employer = treasury_of db.treasury employer (pos 0)

abbrev pub daily_burn : Clock → Database → String → Rate
daily_burn clock db employer =
    burn (clock.now_ms / 1000) (paying_streams db employer)
      (record { numerator = 0; denominator = 1 })

lookup-map_of :
    (rows : List (String × Treasury)) (m : List (String × ℤ)) (employer : String)
    → or_else
        (Map.lookup employer
          (map_of (map (λ (row : String × Treasury). (row.0, row.1.balance)) rows) m))
        (pos 0)
      ≡ treasury_of rows employer (or_else (Map.lookup employer m) (pos 0))
unfolding treasury_of
lookup-map_of [] m employer = refl
lookup-map_of ((key, row) ∷ rows) m employer =
    lookup-map_of rows (Map.insert key row.balance m) employer
    ∙ ap (treasury_of rows employer) (
        rw (Map.lookup-insert key employer row.balance m) (elim (Bool-cases (key == employer)) [
          | inl same ↦ rw same refl
          | inr other ↦ rw other refl
        ]))

pub balance_of-treasury :
    (clock : Clock) (db : Database) (employer : String)
    → balance_of clock db employer ≡ treasury_balance db employer
unfolding Map.lookup
balance_of-treasury clock db employer = lookup-map_of db.treasury [] employer

add_streams-burn : (now : ℕ) (ss : List StreamRow) (r : Rate) → add_streams now ss r ≡ burn now ss r
unfolding burn
add_streams-burn now [] r = refl
add_streams-burn now (s ∷ ss) r = add_streams-burn now ss (add_stream now s r)

pub burn_rate_of-daily_burn :
    (clock : Clock) (db : Database) (employer : String)
    → burn_rate_of clock db employer ≡ daily_burn clock db employer
unfolding calculate_daily_burn_rate
burn_rate_of-daily_burn clock db employer =
    add_streams-burn (clock.now_ms / 1000) (paying_streams db employer)
      (record { numerator = 0; denominator = 1 })
