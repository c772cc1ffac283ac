-- ===== src/Monitor/Silence.antt =====
-- Runways of monitor/monitor.ts that are too long for a date.
use native.Mathlib.Nat.{le-div_iff_mul-le}
use quipay_backend.Prelude.{
  ℕ, ◌+◌, ◌-◌, ◌*◌, ◌/◌, ◌≤◌, ◌<◌, String, ◌≡◌, refl, sym, ap, ◌∙◌, inl, inr, true, false, Option,
  none, some, List, [], ◌∷◌, arith, eq_iff, leb, eqb, le→leb, Bool-cases, if-split, if-true,
  if-false, ◌==◌, nat_eq, string_eq,
}
use quipay_backend.Int.{ℤ, pos, negsuc, pos_part, ◌+ℤ◌, ◌-ℤ◌}
use quipay_backend.Lock.{acquired, with_advisory_lock}
use quipay_backend.Monitor.Rates.{
  Rate, Clock, is_time_value, exhaustion_ms, calculate_runway_days, calculate_exhaustion_date,
}
use quipay_backend.Monitor.Statuses.{
  EmployerTreasuryStatus, Database, contains, balance_of, burn_rate_of, runway_of, all_employers,
  compute_treasury_status, statuses_of, also, status_at,
}
use quipay_backend.Monitor.Cycle.{Services, World, run_monitor_cycle}
use quipay_backend.Monitor.Employers.{is_known, contains-all_employers}

pos-add : (a b : ℕ) → (pos a +ℤ pos b) ≡ pos (a + b)
unfolding ◌+ℤ◌
pos-add a b = if-true (leb (0 + 0) (a + b)) _ (le→leb _ _ (omega arith)) ∙ ap pos (omega arith)

pos-sub : (a b : ℕ) → b ≤ a → (pos a -ℤ pos b) ≡ pos (a - b)
unfolding ◌-ℤ◌
pos-sub a b h =
    if-true (leb (0 + b) (a + 0)) _ (le→leb _ _ (omega (arith, h))) ∙ ap pos (omega arith)

-- A runway that is not negative, counted in whole days.
exhaustion_day :
    (clock : Clock) (n p : ℕ)
    → 0 < p
    → (q : ℕ) → q ≡ (clock.day_of_month * p + n) / p
    → clock.day_of_month ≤ q
    → exhaustion_ms clock (record { days = pos n; parts = p })
      ≡ pos (clock.now_ms + (q - clock.day_of_month) * 86400000)
exhaustion_day clock n p h q whole later =
    rw (pos-add (clock.day_of_month * p) n, sym whole, pos-sub q clock.day_of_month later)
      (pos-add clock.now_ms ((q - clock.day_of_month) * 86400000))

too_late : (ms : ℕ) → 8640000000000000 < ms → is_time_value (pos ms) ≡ false
too_late ms h = ground (arith, h)

-- Two hundred million days from any day is no time value.
far_ms :
    (clock : Clock) (n p : ℕ)
    → 0 < p
    → 200000000 * p ≤ n
    → is_time_value (exhaustion_ms clock (record { days = pos n; parts = p })) ≡ false
far_ms clock n p h far =
    let q = (clock.day_of_month * p + n) / p in
    let whole : clock.day_of_month + 200000000 ≤ q = (le-div_iff_mul-le h).1 (omega (arith, far)) in
    rw (exhaustion_day clock n p h q refl (omega (arith, whole)))
      (too_late (clock.now_ms + (q - clock.day_of_month) * 86400000) (omega (arith, whole)))

-- The exhaustion date of an employer of a positive burn, whose balance is that of two hundred million
-- days.
undated :
    (clock : Clock) (balance : ℤ) (rate : Rate)
    → 0 < rate.numerator
    → 200000000 * rate.numerator ≤ pos_part balance * rate.denominator
    → calculate_exhaustion_date clock (calculate_runway_days balance rate) ≡ none
unfolding calculate_exhaustion_date calculate_runway_days
undated clock (pos n) rate burns far =
    if-split (λ o. calculate_exhaustion_date clock o ≡ none) (eqb rate.numerator 0)
      (λ zero_burn. absurd (ground (arith, burns, zero_burn)))
      (λ _. if-false _ _ (far_ms clock (n * rate.denominator) rate.numerator burns far))
undated clock (negsuc n) rate burns far = absurd (omega (arith, burns, far))

statuses_of-throws :
    (clock : Clock) (db : Database) (es : List String) (e : String)
    → contains es e ≡ true
    → calculate_exhaustion_date clock (runway_of clock db e) ≡ none
    → statuses_of clock db es ≡ none
unfolding statuses_of
statuses_of-throws clock db [] e h thrown = absurd (cc h)
statuses_of-throws clock db (f ∷ es) e h thrown = elim (Bool-cases (f == e)) [
  | inl same ↦ rw ((eq_iff f e).0 same, thrown) refl
  | inr other ↦
      rw (statuses_of-throws clock db es e (rw other at h) thrown)
        (also-none (status_at clock db f (calculate_exhaustion_date clock (runway_of clock db f))))
]
  where
    also-none : (s : Option EmployerTreasuryStatus) → also clock db s none ≡ none
    also-none none = refl
    also-none (some s) = refl

-- Where an employer with a treasury or an active stream has a burn, and a balance of two hundred million
-- days of it, a cycle under the lock does nothing for anybody: it returns no status, and raises no
-- alert, sets no gauge, and writes neither an audit event nor a row of the log.
pub run_monitor_cycle-silent :
    (services : Services) (clock : Clock) (db : Database) (w : World) (e : String)
    → is_known db e ≡ true
    → 0 < (burn_rate_of clock db e).numerator
    → 200000000 * (burn_rate_of clock db e).numerator
      ≤ pos_part (balance_of clock db e) * (burn_rate_of clock db e).denominator
    → run_monitor_cycle services clock db acquired true true w ≡ (some [], w)
unfolding run_monitor_cycle with_advisory_lock compute_treasury_status
run_monitor_cycle-silent services clock db w e known burns far =
    rw
      (statuses_of-throws clock db (all_employers db) e (contains-all_employers db e ∙ known)
        (undated clock (balance_of clock db e) (burn_rate_of clock db e) burns far))
      refl
