-- ===== src/MachineSchedules/Tests.antt =====
-- Runs of machine_schedule_service.py, and the theorem at a concrete order. The floats are decimals.
use auto_scheduling_system.Prelude.{◌≡◌, refl, true, none, some, List, [], ◌∷◌, arith, codes, Text}
use auto_scheduling_system.Prelude.Result.{Result, ok, err}
use auto_scheduling_system.Prelude.Decimal.{Decimal, decimal, to_int}
use auto_scheduling_system.Calendar.{workday_loop, is_workday}
use auto_scheduling_system.MachineCycles.{get_machine_cycle}
use auto_scheduling_system.Orders.{SalesPlanOrderLine}
use auto_scheduling_system.MachineSchedules.{
  MachineScheduleResult, Store, empty_result_row, build_delivery, get_final_assembly_time,
  load_calendar,
}
use auto_scheduling_system.MachineSchedules.Build.{IsBuilt, build_delivery-IsBuilt}

abbrev order : SalesPlanOrderLine
order = record {
  id = 7;
  contract_no = none;
  customer_name = none;
  product_series = none;
  product_model = none;
  product_name = none;
  material_no = some (codes "M");
  quantity = some (decimal 1);
  confirmed_delivery_date = some 739000;
  sap_code = none;
  sap_line_no = none;
  delivery_plant = none;
  drawing_released = true;
  drawing_release_date = none;
  order_no = none;
}

-- The order's row of an earlier run, which had no baseline for the machine's cycle.
abbrev store : Store
store = record {
  assembly_times = record { rows = []; next_id = 1 };
  results = record {
    rows = record (empty_result_row 4 7) { issue_flags = codes "machine_cycle_default" ∷ [] } ∷ [];
    next_id = 5;
  };
}

abbrev flags : Result (MachineScheduleResult × Store) → List Text
flags (err e) = []
flags (ok (row, after)) = row.issue_flags

-- The flags of the earlier run are still there.
build_delivery_run :
    flags (
      build_delivery {Float = Decimal} (λ a b. a) (decimal 1) (λ a f. f) [] [] 0 order store 739000)
    ≡ codes "machine_cycle_default" ∷ []
unfolding build_delivery workday_loop is_workday
build_delivery_run = refl

build_delivery-IsBuilt_example :
    IsBuilt {Float = Decimal}
      (λ a b. a)
      (decimal 1)
      (λ a f. f)
      []
      []
      0
      order
      store
      739000
      []
      (build_delivery {Float = Decimal}
        (λ a b. a)
        (decimal 1)
        (λ a f. f)
        []
        []
        0
        order
        store
        739000)
unfolding get_final_assembly_time load_calendar to_int get_machine_cycle
build_delivery-IsBuilt_example =
    build_delivery-IsBuilt {Float = Decimal} (λ a b. a) (decimal 1) (λ a f. f) [] [] 0 order store
      739000 (tt, tt) refl refl (omega arith)
