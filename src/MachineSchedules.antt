-- ===== src/MachineSchedules.antt =====
-- services/api/app/models/machine_schedule_result.py, repository/machine_schedule_result_repo.py and
-- scheduler/machine_schedule_service.py: the schedule of an order's machine. A time of a plan is a
-- date, at midnight; the JSON of flags is the list of the flags that are true, and an empty list
-- where the column is null. Python's floats are a parameter, as in `MachineCycles`. The service's
-- `_get_machine_cycle` is that of the schedule check.
pub mod Rows
pub mod Build
mod Tests
use auto_scheduling_system.Prelude.{
  ℕ, ◌+◌, ◌*◌, ◌-◌, Bool, true, false, not, Option, none, some, List, [], ◌∷◌, ◌++◌, map, leb, ◌==◌,
  if◌then◌else◌, Text, codes, is_empty, or_empty, where_true, first_where,
}
use auto_scheduling_system.Prelude.Int.{ℤ, pos, negsuc, ◌+ℤ◌, ◌*ℤ◌}
use auto_scheduling_system.Prelude.Result.{Result, ok, err, ◌>>=◌}
use auto_scheduling_system.Prelude.Decimal.{Decimal, decimal, to_int}
use auto_scheduling_system.Calendar.{Date, subtract_workdays}
use auto_scheduling_system.SyncJobs.{Time}
use auto_scheduling_system.Assemblies.Repo.{
  AssemblyTimeBaseline, AssemblyTimeTable, final_assembly_name, find_final_assembly,
  scalar_one_or_none,
}
use auto_scheduling_system.Assemblies.Defaults.{ensure_default}
use auto_scheduling_system.MachineCycles.Baselines.{MachineCycleBaseline}
use auto_scheduling_system.MachineCycles.{get_machine_cycle}
use auto_scheduling_system.Orders.{
  SalesPlanOrderLine, WorkCalendar, CalendarMap, calendar_of, get_calendar_map, days_before,
  days_after,
}

pub record MachineScheduleResult : Type 0 where
  pub id : ℕ
  pub order_line_id : ℕ
  pub contract_no : Option Text
  pub customer_name : Option Text
  pub product_series : Option Text
  pub product_model : Option Text
  pub product_name : Option Text
  pub material_no : Option Text
  pub quantity : Option Decimal
  pub order_no : Option Text
  pub sap_code : Option Text
  pub sap_line_no : Option Text
  pub delivery_plant : Option Text
  pub confirmed_delivery_date : Option Date
  pub drawing_released : Bool
  pub drawing_release_date : Option Date
  pub schedule_date : Option Time
  pub trigger_date : Option Date
  pub machine_cycle_days : Option Decimal
  pub machine_assembly_days : Option Decimal
  pub planned_start_date : Option Date
  pub planned_end_date : Option Date
  pub warning_level : Option Text
  pub schedule_status : Option Text
  pub default_flags : List Text
  pub issue_flags : List Text
  pub run_batch_no : Option Text
  pub remark : Option Text

-- The table, and the id of the next row.
pub record MachineResults : Type 0 where
  pub rows : List MachineScheduleResult
  pub next_id : ℕ

abbrev pub is_result_of : ℕ → MachineScheduleResult → Bool
is_result_of order_line_id row = row.order_line_id == order_line_id

unfoldable pub find_by_order_line_id :
    List MachineScheduleResult → ℕ → Result (Option MachineScheduleResult)
find_by_order_line_id rows order_line_id =
    scalar_one_or_none (where_true (is_result_of order_line_id) rows)

-- `data` writes some of the columns; of a new row the others are null.
abbrev pub empty_result_row : ℕ → ℕ → MachineScheduleResult
empty_result_row id order_line_id = record {
  id = id;
  order_line_id = order_line_id;
  contract_no = none;
  customer_name = none;
  product_series = none;
  product_model = none;
  product_name = none;
  material_no = none;
  quantity = none;
  order_no = none;
  sap_code = none;
  sap_line_no = none;
  delivery_plant = none;
  confirmed_delivery_date = none;
  drawing_released = false;
  drawing_release_date = none;
  schedule_date = none;
  trigger_date = none;
  machine_cycle_days = none;
  machine_assembly_days = none;
  planned_start_date = none;
  planned_end_date = none;
  warning_level = none;
  schedule_status = none;
  default_flags = [];
  issue_flags = [];
  run_batch_no = none;
  remark = none;
}

-- The row that is there is written, or a new one is added.
unfoldable pub write_result :
    ℕ
    → (MachineScheduleResult → MachineScheduleResult)
    → MachineResults
    → Option MachineScheduleResult
    → MachineScheduleResult × MachineResults
write_result order_line_id values results (some existing) = (
  values existing,
  record results {
    rows = map (λ row. if row.id == existing.id then values row else row) results.rows;
  },
)
write_result order_line_id values results none =
    let entity = values (empty_result_row results.next_id order_line_id) in
    (entity, record { rows = results.rows ++ entity ∷ []; next_id = results.next_id + 1 })

unfoldable pub upsert_by_order_line_id :
    ℕ
    → (MachineScheduleResult → MachineScheduleResult)
    → MachineResults
    → Result (MachineScheduleResult × MachineResults)
unfolding find_by_order_line_id write_result
upsert_by_order_line_id order_line_id values results =
    find_by_order_line_id results.rows order_line_id >>= λ existing.
    ok (write_result order_line_id values results existing)

-- The number of rows deleted is left out.
unfoldable pub delete_by_order_line_id : ℕ → List MachineScheduleResult → List MachineScheduleResult
delete_by_order_line_id order_line_id = where_true (λ row. not (is_result_of order_line_id row))

abbrev pub default_final_assembly_days : Decimal
default_final_assembly_days = decimal 3

-- The days, whether they are the default, and the table: of the record that is found, or of one that
-- is made.
unfoldable pub final_assembly_days :
    AssemblyTimeTable
    → Text
    → Option Text
    → Option AssemblyTimeBaseline
    → Result ((Decimal × Bool) × AssemblyTimeTable)
unfolding ensure_default
final_assembly_days table model product_series (some existing) =
    ok ((existing.assembly_time_days, existing.is_default), table)
final_assembly_days table model product_series none =
    ensure_default table model product_series final_assembly_name true >>= λ ensured.
    ok ((ensured.0.assembly_time_days, true), ensured.1)

unfoldable pub get_final_assembly_time :
    AssemblyTimeTable → Option Text → Option Text → Result ((Decimal × Bool) × AssemblyTimeTable)
unfolding final_assembly_days find_final_assembly
get_final_assembly_time table machine_model product_series =
    let model = or_empty machine_model in
    let looked_up =
      find_final_assembly table.rows model >>= final_assembly_days table model product_series in
    if is_empty model then ok ((default_final_assembly_days, true), table) else looked_up

-- `days * 2 + 60`
unfoldable pub range_days : ℤ → ℤ
unfolding ◌+ℤ◌ ◌*ℤ◌
range_days days = days *ℤ pos 2 +ℤ pos 60

-- `date - timedelta(days=n)`
abbrev pub before_by : ℤ → Date → Result Date
before_by (pos n) d = days_before n d
before_by (negsuc n) d = days_after (n + 1) d

-- The calendar of the range.
unfoldable pub load_calendar : List WorkCalendar → ℤ → Date → Result CalendarMap
unfolding get_calendar_map range_days
load_calendar calendar_table cycle delivery =
    before_by (range_days cycle) delivery >>= λ start_range. days_after 30 delivery >>= λ end_range.
    ok (get_calendar_map calendar_table start_range end_range)

abbrev pub flag : Bool → Text → List Text
flag b name = if b then name ∷ [] else []

-- The writes of `data`.
unfoldable pub schedule_data :
    Time
    → SalesPlanOrderLine
    → Decimal × Bool
    → Decimal × Bool
    → (delivery start : Date) → MachineScheduleResult
    → MachineScheduleResult
schedule_data now order (machine_cycle, is_default_cycle) (assembly_days, is_default_assembly)
      delivery start row =
    record row {
      contract_no = order.contract_no;
      customer_name = order.customer_name;
      product_series = order.product_series;
      product_model = order.product_model;
      product_name = order.product_name;
      material_no = order.material_no;
      quantity = order.quantity;
      order_no = order.order_no;
      sap_code = order.sap_code;
      sap_line_no = order.sap_line_no;
      delivery_plant = order.delivery_plant;
      confirmed_delivery_date = order.confirmed_delivery_date;
      drawing_released = order.drawing_released;
      drawing_release_date = order.drawing_release_date;
      schedule_date = some now;
      trigger_date = some start;
      machine_cycle_days = some machine_cycle;
      machine_assembly_days = some assembly_days;
      planned_start_date = some start;
      planned_end_date = some delivery;
      schedule_status = some (codes "scheduled");
      warning_level = some (codes "normal");
      default_flags =
          flag is_default_cycle (codes "machine_cycle")
          ++ flag is_default_assembly (codes "final_assembly_time");
    }

-- The tables that the service writes.
pub record Store : Type 0 where
  pub assembly_times : AssemblyTimeTable
  pub results : MachineResults

module _ {Float : Type 0} (ratio : Decimal → Decimal → Float) (one : Float)
    (scale : Decimal → Float → Decimal) (baselines : List MachineCycleBaseline)
    (calendar_table : List WorkCalendar) (now : Time) where
  -- For an order with a delivery date.
  unfoldable pub build_delivery :
      SalesPlanOrderLine → Store → Date → Result (MachineScheduleResult × Store)
  unfolding get_machine_cycle get_final_assembly_time load_calendar calendar_of subtract_workdays
      to_int schedule_data upsert_by_order_line_id
  build_delivery order store delivery =
      let cycle = get_machine_cycle ratio one scale baselines order.product_model order.quantity in
      get_final_assembly_time store.assembly_times order.product_model order.product_series
      >>= λ assembled. load_calendar calendar_table (to_int cycle.0) delivery >>= λ calendar.
          subtract_workdays delivery (to_int cycle.0) (calendar_of calendar) >>= λ planned_start.
          upsert_by_order_line_id order.id
            (schedule_data now order cycle assembled.0 delivery planned_start) store.results
          >>= λ written.
              ok (written.0, record { assembly_times = assembled.1; results = written.1 })

  abbrev pub when_delivery :
      SalesPlanOrderLine → Store → Option Date → Result (Option MachineScheduleResult × Store)
  when_delivery order store none = ok (none, store)
  when_delivery order store (some delivery) =
      build_delivery order store delivery >>= λ built. ok (some built.0, built.1)

  unfoldable pub build :
      List SalesPlanOrderLine → Store → ℕ → Result (Option MachineScheduleResult × Store)
  unfolding build_delivery
  build orders store order_line_id =
      elim (first_where (λ order. order.id == order_line_id) orders) [
        | none ↦ ok (none, store)
        | some order ↦ when_delivery order store order.confirmed_delivery_date
      ]
