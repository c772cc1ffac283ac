-- ===== src/Monitor/Rates.antt =====
-- The arithmetic of monitor/monitor.ts. A time is in milliseconds or, in a stream, in seconds.
use quipay_backend.Prelude.{
  ℕ, suc, ◌+◌, ◌*◌, ◌/◌, Bool, true, ◌&&◌, ◌||◌, Option, none, some, List, [], ◌∷◌, ltb, leb, eqb,
  if◌then◌else◌, nat_eq, string_eq,
}
use quipay_backend.Int.{ℤ, pos, negsuc, pos_part, neg_part, sub_ℕ, ◌+ℤ◌, ◌-ℤ◌}
use quipay_backend.Streams.{StreamRow}

-- Stroops per day.
pub record Rate : Type 0 where
  pub numerator : ℕ
  pub denominator : ℕ

abbrev add_rate : Rate → Rate → Rate
add_rate r s = record {
  numerator = r.numerator * s.denominator + s.numerator * r.denominator;
  denominator = r.denominator * s.denominator;
}

-- `remaining / (remainingSeconds / 86400)` is added, unless one of them is not positive.
abbrev pub add_stream : ℕ → StreamRow → Rate → Rate
add_stream now s rate =
    let remaining = pos_part (s.total_amount -ℤ s.withdrawn_amount) in
    let remaining_seconds = pos_part (s.end_ts -ℤ pos now) in
    if eqb remaining 0 || eqb remaining_seconds 0
    then rate
    else add_rate rate (record { numerator = remaining * 86400; denominator = remaining_seconds })

abbrev pub add_streams : ℕ → List StreamRow → Rate → Rate
add_streams now [] rate = rate
add_streams now (s ∷ ss) rate = add_streams now ss (add_stream now s rate)

-- `Date.now()` is `now_ms`.
unfoldable pub calculate_daily_burn_rate : ℕ → List StreamRow → Rate
unfolding ◌-ℤ◌
calculate_daily_burn_rate now_ms streams =
    add_streams (now_ms / 1000) streams (record { numerator = 0; denominator = 1 })

abbrev pub times : ℤ → ℕ → ℤ
times (pos n) d = pos (n * d)
times (negsuc n) d = sub_ℕ 0 (suc n * d)

-- A number of days, as a fraction.
pub record Runway : Type 0 where
  pub days : ℤ
  pub parts : ℕ

-- `none` is `null`: no burn.
unfoldable pub calculate_runway_days : ℤ → Rate → Option Runway
calculate_runway_days balance rate =
    if eqb rate.numerator 0
    then none
    else some (record { days = times balance rate.denominator; parts = rate.numerator })

abbrev pub is_less : ℤ → ℕ → Bool
is_less (pos n) m = ltb n m
is_less (negsuc n) m = true

-- `runway_days < threshold`
abbrev pub is_below : ℕ → Runway → Bool
is_below threshold r = is_less r.days (threshold * r.parts)

pub record Clock : Type 0 where
  pub now_ms : ℕ
  pub day_of_month : ℕ

-- Towards zero.
abbrev pub truncated : ℤ → ℕ → ℤ
truncated (pos n) d = pos (n / d)
truncated (negsuc n) d = sub_ℕ 0 (suc n / d)

-- The time value of a `Date` is one of these, or the date is invalid.
abbrev pub is_time_value : ℤ → Bool
is_time_value ms = leb (pos_part ms) 8640000000000000 && leb (neg_part ms) 8640000000000000

-- `setDate(getDate() + runwayDays)`, in UTC: the day of the month is truncated.
abbrev pub exhaustion_ms : Clock → Runway → ℤ
exhaustion_ms clock r =
    let day = truncated (pos (clock.day_of_month * r.parts) +ℤ r.days) r.parts in
    pos clock.now_ms +ℤ times (day -ℤ pos clock.day_of_month) 86400000

-- `none` where `toISOString` throws a `RangeError`; `some none` is `null`.
unfoldable pub calculate_exhaustion_date : Clock → Option Runway → Option (Option ℤ)
unfolding ◌+ℤ◌ ◌-ℤ◌
calculate_exhaustion_date clock none = some none
calculate_exhaustion_date clock (some r) =
    let ms = exhaustion_ms clock r in if is_time_value ms then some (some ms) else none
