-- ===== src/Calendar/Tests.antt =====
-- Runs of calendar_utils.py, and the theorems at concrete inputs.
use auto_scheduling_system.Prelude.{
  ◌≡◌, refl, ◌≤◌, ◌+◌, none, some, true, false, arith, if◌then◌else◌, ◌==◌,
}
use auto_scheduling_system.Prelude.Int.{pos, negsuc}
use auto_scheduling_system.Prelude.Result.{ok}
use auto_scheduling_system.Calendar.{
  Date, Calendar, is_workday, workday_loop, subtract_workdays, add_workdays,
}
use auto_scheduling_system.Calendar.Walk.{Lands, workdays_seen}
use auto_scheduling_system.Calendar.Workdays.{
  before, after, reach, subtract_workdays-Lands, add_workdays-Lands, subtract_workdays_bounds,
  add_workdays-subtract_workdays,
}

-- Ordinal 739000 is a Wednesday; the Tuesday before it is a holiday, and the Saturday is worked.
abbrev calendar : Calendar
calendar d = if d == 738999 then some false else if d == 738996 then some true else none

subtract_workdays_runs : subtract_workdays 739000 (pos 3) calendar ≡ ok 738995
unfolding subtract_workdays workday_loop is_workday
subtract_workdays_runs = refl

subtract_workdays-negative : subtract_workdays 739000 (negsuc 3) calendar ≡ ok 739000
unfolding subtract_workdays
subtract_workdays-negative = refl

subtract_workdays-Lands_example :
    Lands calendar (before 739000) reach 3 (subtract_workdays 739000 (pos 3) calendar)
subtract_workdays-Lands_example =
    subtract_workdays-Lands calendar 739000 3 (omega arith) (omega arith)

add_workdays-Lands_example :
    Lands calendar (after 738997) reach 3 (add_workdays 738997 (pos 3) calendar)
add_workdays-Lands_example = add_workdays-Lands calendar 738997 3 (omega arith) (omega arith)

subtract_workdays_bounds_example :
    (r : Date) × (subtract_workdays 739000 (pos 3) calendar ≡ ok r)
    × (r ≤ 739000)
    × (739000 ≤ r + reach)
subtract_workdays_bounds_example = subtract_workdays_bounds calendar 739000 (pos 3) (omega arith)

add_workdays-subtract_workdays_example : add_workdays 738995 (pos 3) calendar ≡ ok 739000
unfolding is_workday workdays_seen
add_workdays-subtract_workdays_example =
    add_workdays-subtract_workdays calendar 739000 3 (omega arith) (omega arith) (omega arith) refl
      (omega arith) subtract_workdays_runs
