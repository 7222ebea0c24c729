-- ===== src/MachineSchedules/Build.antt =====
-- services/api/app/scheduler/machine_schedule_service.py: the row that a build leaves for its order.
use auto_scheduling_system.Prelude.{◌≤◌, ◌<◌, ◌≡◌, refl, Bool, Option, none, some, List}
use auto_scheduling_system.Prelude.Result.{Result, ok}
use auto_scheduling_system.Prelude.Decimal.{Decimal, to_int}
use auto_scheduling_system.Calendar.{Date, subtract_workdays}
use auto_scheduling_system.Calendar.Workdays.{reach, subtract_workdays_bounds}
use auto_scheduling_system.SyncJobs.{Time}
use auto_scheduling_system.Assemblies.Repo.{AssemblyTimeTable}
use auto_scheduling_system.MachineCycles.Baselines.{MachineCycleBaseline}
use auto_scheduling_system.MachineCycles.{get_machine_cycle}
use auto_scheduling_system.Orders.{SalesPlanOrderLine, WorkCalendar, CalendarMap, calendar_of}
use auto_scheduling_system.MachineSchedules.{
  MachineScheduleResult, MachineResults, find_by_order_line_id, write_result,
  upsert_by_order_line_id, get_final_assembly_time, load_calendar, schedule_data, Store,
  build_delivery,
}
use auto_scheduling_system.MachineSchedules.Rows.{
  AreUnique, IsWritten, find_by_order_line_id-ok, write_result-IsWritten,
}

module _ {Float : Type 0} (ratio : Decimal → Decimal → Float) (one : Float)
    (scale : Decimal → Float → Decimal) (baselines : List MachineCycleBaseline)
    (calendar_table : List WorkCalendar) (now : Time) (order : SalesPlanOrderLine) (store : Store)
    (delivery : Date) where
  abbrev cycle_of : Decimal × Bool
  cycle_of = get_machine_cycle ratio one scale baselines order.product_model order.quantity

  -- The row that is built: the machine's cycle before the delivery, in workdays of the calendar.
  abbrev pub IsBuilt : CalendarMap → Result (MachineScheduleResult × Store) → Type 0
  IsBuilt calendar result =
      (row : MachineScheduleResult) × (after : Store) × (start : Date) × (result ≡ ok (row, after))
      × (subtract_workdays delivery (to_int cycle_of.0) (calendar_of calendar) ≡ ok start)
      × (start ≤ delivery)
      × (row.planned_start_date ≡ some start)
      × (row.trigger_date ≡ some start)
      × (row.planned_end_date ≡ some delivery)
      × IsWritten order.id store.results.rows row after.results.rows

  write_result-values :
      (results : MachineResults) (assembled : Decimal × Bool) (start : Date)
      (existing : Option MachineScheduleResult)
      → let values = schedule_data now order cycle_of assembled delivery start in
        let row = (write_result order.id values results existing).0 in
        (row.planned_start_date ≡ some start)
        × (row.trigger_date ≡ some start)
        × (row.planned_end_date ≡ some delivery)
  unfolding write_result schedule_data
  write_result-values results assembled start none = (refl, refl, refl)
  write_result-values results assembled start (some row) = (refl, refl, refl)

  -- In a table whose ids and orders are distinct, where the time of the final assembly and the
  -- calendar can be read and the delivery is later than ordinal 1001, a build returns; the order's
  -- only row is then the one returned, planned from the machine's cycle before the delivery to the
  -- delivery, and the rows of the other orders are as they were.
  pub build_delivery-IsBuilt :
      {assembled : (Decimal × Bool) × AssemblyTimeTable} {calendar : CalendarMap}
      → AreUnique store.results.rows
      → get_final_assembly_time store.assembly_times order.product_model order.product_series
        ≡ ok assembled
      → load_calendar calendar_table (to_int cycle_of.0) delivery ≡ ok calendar
      → reach < delivery
      → IsBuilt calendar
          (build_delivery ratio one scale baselines calendar_table now order store delivery)
  unfolding build_delivery upsert_by_order_line_id find_by_order_line_id schedule_data
  build_delivery-IsBuilt {assembled} {calendar} unique assembly_time loaded far =
      let (start, walked, early, _) =
        subtract_workdays_bounds (calendar_of calendar) delivery (to_int cycle_of.0) far in
      let (existing, found) = find_by_order_line_id-ok order.id store.results.rows unique in
      let values = schedule_data now order cycle_of assembled.0 delivery start in
      let written = write_result order.id values store.results existing in
      let (start_of, trigger_of, end_of) =
        write_result-values store.results assembled.0 start existing in
      (
        written.0,
        record { assembly_times = assembled.1; results = written.1 },
        start,
        rw (assembly_time, loaded, walked, found, build_delivery) refl,
        walked,
        early,
        start_of,
        trigger_of,
        end_of,
        write_result-IsWritten order.id values (λ _. refl) store.results existing unique found,
      )
