-- ===== src/Scheduler/NextRun.antt =====
-- `calculateNextRun` of scheduler/scheduler.ts. A cron expression is the list of its code points; the
-- clock is UTC, in milliseconds.
use native.Mathlib.Nat.{lt-div-mul-add, div-mul-le_self}
use quipay_backend.Prelude.{
  ℕ, zero, suc, ◌+◌, ◌-◌, ◌*◌, ◌/◌, ◌%◌, ◌≤◌, ◌<◌, Bool, false, ◌&&◌, Option, none, some, List, [],
  ◌∷◌, arith, leb, eqb, if◌then◌else◌, or_else, if-both, if-split, nat_eq, string_eq,
}

-- A run, `null`, or a Date without a value.
pub data NextRun : Type 0 where
  no_run : NextRun
  invalid_date : NextRun
  run_at : ℕ → NextRun

-- `split(" ")[0]`
unfoldable pub first_field : List ℕ → List ℕ
first_field [] = []
first_field (c ∷ cs) = let rest = first_field cs in if eqb c b' ' then [] else c ∷ rest

-- `split("/")[1]`, where there is a slash.
abbrev to_slash : List ℕ → List ℕ
to_slash [] = []
to_slash (c ∷ cs) = let rest = to_slash cs in if eqb c b'/' then [] else c ∷ rest

unfoldable pub after_slash : List ℕ → Option (List ℕ)
after_slash [] = none
after_slash (c ∷ cs) = let rest = after_slash cs in if eqb c b'/' then some (to_slash cs) else rest

-- `parseInt` of a text that starts with a digit or with neither a sign nor a space.
unfoldable pub parse_int : Option ℕ → List ℕ → Option ℕ
parse_int acc [] = acc
parse_int acc (c ∷ cs) =
    let rest = parse_int (some (or_else acc 0 * 10 + (c - b'0'))) cs in
    if leb b'0' c && leb c b'9' then rest else acc

abbrev is_star : List ℕ → Bool
is_star (c ∷ []) = eqb c b'*'
is_star _ = false

abbrev pub minute_ms : ℕ
minute_ms = 60000

abbrev pub hour_ms : ℕ
hour_ms = 3600000

-- `setMinutes(m, 0, 0)`
abbrev pub set_minutes : ℕ → ℕ → ℕ
set_minutes m now = now - now % hour_ms + m * minute_ms

-- `getMinutes()`
abbrev pub get_minutes : ℕ → ℕ
get_minutes now = now / minute_ms % 60

-- `Math.ceil(current / interval) * interval`
abbrev pub next_step : ℕ → ℕ → ℕ
next_step current interval = (current + interval - 1) / interval * interval

-- `if (next <= now) next.setHours(next.getHours() + 1)`
abbrev pub after_now : ℕ → ℕ → NextRun
after_now now next = run_at (if leb next now then next + hour_ms else next)

abbrev next_minute : ℕ → Option ℕ → NextRun
next_minute now none = invalid_date
next_minute now (some m) = after_now now (set_minutes m now)

abbrev next_interval : ℕ → Option ℕ → NextRun
next_interval now none = invalid_date
next_interval now (some zero) = invalid_date
next_interval now (some (suc i)) =
    after_now now (set_minutes (next_step (get_minutes now) (suc i)) now)

abbrev next_of_minute : ℕ → List ℕ → Option (List ℕ) → NextRun
next_of_minute now minute (some step) = next_interval now (parse_int none step)
next_of_minute now minute none =
    if is_star minute then after_now now now else next_minute now (parse_int none minute)

unfoldable pub calculate_next_run : (List ℕ → Bool) → List ℕ → ℕ → NextRun
unfolding first_field after_slash parse_int
calculate_next_run validate cron_expression now =
    if validate cron_expression
    then next_of_minute now (first_field cron_expression)
        (after_slash (first_field cron_expression))
    else no_run

-- The minute of the expression, or the interval of its first field, is below 60. node-cron takes a
-- longer interval as well, such as `*/90`.
abbrev pub IsMinute : Option ℕ → Type 0
IsMinute none = Unit
IsMinute (some m) = m < 60

abbrev pub HasMinute : List ℕ → Option (List ℕ) → Type 0
HasMinute minute (some step) = IsMinute (parse_int none step)
HasMinute minute none = IsMinute (parse_int none minute)

-- A date of a run, if there is one, is after now, and at most an hour after it.
abbrev pub WithinHour : ℕ → NextRun → Type 0
WithinHour now no_run = Unit
WithinHour now invalid_date = Unit
WithinHour now (run_at t) = (now < t) × (t ≤ now + hour_ms)

step_bounds :
    (current i : ℕ)
    → (current ≤ next_step current (suc i)) × (next_step current (suc i) ≤ current + i)
step_bounds current i =
    let above = lt-div-mul-add {a = current + suc i - 1} {b = suc i} (omega arith) in
    let below = div-mul-le_self (current + suc i - 1) (suc i) in (omega arith, omega arith)

after_now-WithinHour :
    (now next : ℕ)
    → now < next + hour_ms
    → next ≤ now + hour_ms
    → WithinHour now (after_now now next)
after_now-WithinHour now next low high =
    if-split (λ (t : ℕ). (now < t) × (t ≤ now + hour_ms)) (leb next now)
      (λ early. (low, ground (arith, early))) (λ late. (ground (arith, late), high))

next_minute-WithinHour : (now : ℕ) (m : Option ℕ) → IsMinute m → WithinHour now (next_minute now m)
next_minute-WithinHour now none h = tt
next_minute-WithinHour now (some m) h =
    after_now-WithinHour now (set_minutes m now) (omega arith) (omega arith)

-- The first minute of a step that is not before the minute of now.
step-WithinHour :
    (now m i : ℕ)
    → m ≤ get_minutes now + i
    → suc i < 60
    → WithinHour now (after_now now (set_minutes m now))
step-WithinHour now m i high h =
    after_now-WithinHour now (set_minutes m now) (omega arith) (omega arith)

next_interval-WithinHour :
    (now : ℕ) (i : Option ℕ) → IsMinute i → WithinHour now (next_interval now i)
next_interval-WithinHour now none h = tt
next_interval-WithinHour now (some zero) h = tt
next_interval-WithinHour now (some (suc i)) h =
    let bounds = step_bounds (get_minutes now) i in
    step-WithinHour now (next_step (get_minutes now) (suc i)) i bounds.1 h

next_of_minute-WithinHour :
    (now : ℕ) (minute : List ℕ) (step : Option (List ℕ))
    → HasMinute minute step
    → WithinHour now (next_of_minute now minute step)
next_of_minute-WithinHour now minute (some step) h =
    next_interval-WithinHour now (parse_int none step) h
next_of_minute-WithinHour now minute none h =
    if-both (WithinHour now) (is_star minute)
      (after_now-WithinHour now now (omega arith) (omega arith))
      (next_minute-WithinHour now (parse_int none minute) h)

-- Where the minute of the expression, or the interval of its minutes, is below 60, the next run that is
-- computed, if one is, is after now and at most an hour after it, whatever the hour, the day and the
-- month of the expression are.
pub calculate_next_run-WithinHour :
    (validate : List ℕ → Bool) (cron_expression : List ℕ) (now : ℕ)
    → HasMinute (first_field cron_expression) (after_slash (first_field cron_expression))
    → WithinHour now (calculate_next_run validate cron_expression now)
unfolding calculate_next_run
calculate_next_run-WithinHour validate cron_expression now h =
    if-both (WithinHour now) (validate cron_expression)
      (next_of_minute-WithinHour now (first_field cron_expression)
        (after_slash (first_field cron_expression)) h)
      tt
