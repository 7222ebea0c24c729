-- ===== src/Calendar.antt =====
-- services/api/app/common/calendar_utils.py. A date is its proleptic ordinal, as `date.toordinal`
-- gives it: 1 is 0001-01-01, a Monday. A calendar is the look-up of the dict that
-- `WorkCalendarRepo.get_calendar_map` returns.
pub mod Walk
pub mod Workdays
mod Tests
use auto_scheduling_system.Prelude.{
  ℕ, zero, suc, ◌+◌, ◌-◌, ◌%◌, Bool, Option, none, some, ltb, leb, if◌then◌else◌,
}
use auto_scheduling_system.Prelude.Int.{ℤ, pos, negsuc}
use auto_scheduling_system.Prelude.Result.{Result, ok, err, overflow_error, ◌>>=◌}

abbrev pub Date : Type 0
Date = ℕ

abbrev pub Calendar : Type 0
Calendar = Date → Option Bool

-- `date.min` and `date.max`
abbrev pub min_date : Date
min_date = 1

abbrev pub max_date : Date
max_date = 3652059

abbrev pub max_workday_iterations : ℕ
max_workday_iterations = 1000

abbrev pub weekday : Date → ℕ
weekday d = (d + 6) % 7

unfoldable pub is_workday : Calendar → Date → Bool
is_workday calendar d = elim (calendar d) [ some flag ↦ flag | none ↦ ltb (weekday d) 5 ]

-- `d - timedelta(days=1)` and `d + timedelta(days=1)`
abbrev pub prev_day : Date → Result Date
prev_day d = if leb d min_date then err overflow_error else ok (d - 1)

abbrev pub next_day : Date → Result Date
next_day d = if leb max_date d then err overflow_error else ok (d + 1)

-- The `while` loop, with `left` for `MAX_WORKDAY_ITERATIONS + 1 - iterations`: at zero the loop
-- breaks. `step` is the day's move.
unfoldable pub workday_loop :
    (step : Date → Result Date) → Calendar → (left days count : ℕ) → Date → Result Date
workday_loop step calendar zero days count current = ok current
workday_loop step calendar (suc left) days count current =
    let round = step current >>= λ next.
    workday_loop step calendar left days (if is_workday calendar next then count + 1 else count)
      next in
    if ltb count days then round else ok current

unfoldable pub subtract_workdays : Date → ℤ → Calendar → Result Date
subtract_workdays from_date (negsuc _) calendar = ok from_date
subtract_workdays from_date (pos zero) calendar = ok from_date
subtract_workdays from_date (pos (suc n)) calendar =
    workday_loop prev_day calendar (max_workday_iterations + 1) (suc n) 0 from_date

unfoldable pub add_workdays : Date → ℤ → Calendar → Result Date
add_workdays from_date (negsuc _) calendar = ok from_date
add_workdays from_date (pos zero) calendar = ok from_date
add_workdays from_date (pos (suc n)) calendar =
    workday_loop next_day calendar (max_workday_iterations + 1) (suc n) 0 from_date
