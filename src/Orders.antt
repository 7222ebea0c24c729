-- ===== src/Orders.antt =====
-- services/api/app/models/sales_plan.py, models/work_calendar.py and the query of
-- repository/work_calendar_repo.py. Of an order line, the columns that the scheduler reads; of a
-- time of delivery or of a drawing's release, the date.
use auto_scheduling_system.Prelude.{
  ℕ, Bool, ◌&&◌, Option, none, some, List, leb, ◌==◌, ◌+◌, ◌-◌, if◌then◌else◌, Text, where_true,
  first_where, map,
}
use auto_scheduling_system.Prelude.Result.{Result, ok, err, overflow_error}
use auto_scheduling_system.Prelude.Decimal.{Decimal}
use auto_scheduling_system.Calendar.{Date, Calendar, min_date, max_date}

pub record SalesPlanOrderLine : Type 0 where
  pub id : ℕ
  pub contract_no : Option Text
  pub customer_name : Option Text
  pub product_series : Option Text
  pub product_model : Option Text
  pub product_name : Option Text
  pub material_no : Option Text
  pub quantity : Option Decimal
  pub confirmed_delivery_date : Option Date
  pub sap_code : Option Text
  pub sap_line_no : Option Text
  pub delivery_plant : Option Text
  pub drawing_released : Bool
  pub drawing_release_date : Option Date
  pub order_no : Option Text

pub record WorkCalendar : Type 0 where
  pub id : ℕ
  pub calendar_date : Date
  pub is_workday : Bool
  pub remark : Option Text

-- A dict of dates, and its look-up.
abbrev pub CalendarMap : Type 0
CalendarMap = List (Date × Bool)

unfoldable pub calendar_of : CalendarMap → Calendar
calendar_of items d = elim (first_where (λ item. item.0 == d) items) [
  | none ↦ none
  | some item ↦ some item.1
]

unfoldable pub get_calendar_map : List WorkCalendar → Date → Date → CalendarMap
get_calendar_map table start end =
    map (λ row. (row.calendar_date, row.is_workday))
      (where_true (λ row. leb start row.calendar_date && leb row.calendar_date end) table)

-- `d - timedelta(days=n)` and `d + timedelta(days=n)`
abbrev pub days_before : ℕ → Date → Result Date
days_before n d = if leb (min_date + n) d then ok (d - n) else err overflow_error

abbrev pub days_after : ℕ → Date → Result Date
days_after n d = if leb (d + n) max_date then ok (d + n) else err overflow_error
