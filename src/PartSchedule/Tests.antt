-- ===== src/PartSchedule/Tests.antt =====
-- Runs of part_schedule_service.py, and the theorem at a concrete input.
use auto_scheduling_system.Prelude.{
  ℕ, ◌+◌, ◌*◌, ◌<◌, ◌≤◌, ◌≡◌, refl, true, Option, none, some, List, [], ◌∷◌, arith, Text, codes,
  map, length, All, where_true,
}
use auto_scheduling_system.Prelude.Result.{Result, ok, err}
use auto_scheduling_system.Prelude.Decimal.{decimal, to_int}
use auto_scheduling_system.Calendar.{Date, subtract_workdays, workday_loop, is_workday}
use auto_scheduling_system.Calendar.Workdays.{reach}
use auto_scheduling_system.Assemblies.{Assembly}
use auto_scheduling_system.KeyParts.Tree.{RecursiveNode}
use auto_scheduling_system.KeyParts.Matching.{build_cycle_lookup}
use auto_scheduling_system.PartSchedule.Rows.{PartScheduleResult, part_row}
use auto_scheduling_system.Orders.{SalesPlanOrderLine}
use auto_scheduling_system.PartSchedule.Replace.{is_row_of, is_row_of_other, build_parts-replaces}
use auto_scheduling_system.PartSchedule.{
  MachineSchedule, Source, Store, build_parts, Plan, sorted_seqs, final_assembly_time,
  schedule_machine,
}
use auto_scheduling_system.PartSchedule.Backward.{EndsBy, schedule_machine-EndsBy}

abbrev asm : Text → ℕ → ℕ → Text → Assembly
asm name sequence days no_text = record {
  assembly_name = name;
  production_sequence = sequence;
  assembly_time_days = decimal days;
  is_default_time = true;
  bom_component_no = some no_text;
  bom_component_desc = none;
}

abbrev assemblies : List Assembly
assemblies = asm (codes "机身") 1 1 (codes "A") ∷ asm (codes "电气") 5 2 (codes "E") ∷ []

abbrev part : RecursiveNode
part = record {
  row = record {
    id = 1;
    machine_material_no = codes "M";
    plant = none;
    material_no = some (codes "A");
    bom_component_no = some (codes "P");
    bom_component_desc = some (codes "飞轮");
    bom_level = some 2;
    is_self_made = true;
  };
  parent_material_no = some (codes "A");
  parent_name = none;
  node_level = 1;
  bom_path = [];
  bom_path_key = codes "1";
}

abbrev plan : Plan
plan = record {
  order_line_id = 7;
  machine_schedule_id = 9;
  calendar = λ _. none;
  parts_map = (codes "A", part ∷ []) ∷ [];
  cycle_lookup = build_cycle_lookup [] (codes "P1") none;
}

abbrev dates_of : Result (List PartScheduleResult) → List (Option Date × Date)
dates_of (ok rows) = map (λ row. (row.planned_start_date, row.planned_end_date)) rows
dates_of (err e) = []

-- Ordinal 739000 is a Wednesday. The final assembly takes it to Friday 738995, the group of
-- sequence 5 to Wednesday 738993, where the part of one day ends.
schedule_runs :
    dates_of (schedule_machine plan assemblies none 739000)
    ≡ (none, 738995) ∷ (some 738992, 738993) ∷ []
unfolding schedule_machine workday_loop is_workday build_cycle_lookup
schedule_runs = refl

late_enough : reach * (length (sorted_seqs assemblies) + 1) < 739000
unfolding sorted_seqs
late_enough = omega arith

schedule_machine-EndsBy_example :
    (current_end : Date) × (rows : List PartScheduleResult) × (subtract_workdays 739000
        (to_int (final_assembly_time none))
        plan.calendar
      ≡ ok current_end)
    × (current_end ≤ 739000)
    × (schedule_machine plan assemblies none 739000 ≡ ok rows)
    × All (EndsBy plan current_end) rows
schedule_machine-EndsBy_example = schedule_machine-EndsBy plan assemblies none 739000 late_enough

-- A row of an order, from an earlier build.
abbrev earlier_row : ℕ → PartScheduleResult
earlier_row order_line_id =
    part_row plan.cycle_lookup
      (record {
        order_line_id = order_line_id;
        machine_schedule_id = 9;
        assembly = asm (codes "机身") 1 1 (codes "A");
        key_part = none;
        part_start = none;
        part_end = 738000;
      })
      none

abbrev order : SalesPlanOrderLine
order = record {
  id = 7;
  contract_no = none;
  customer_name = none;
  product_series = none;
  product_model = some (codes "P1");
  product_name = none;
  material_no = some (codes "M");
  quantity = none;
  confirmed_delivery_date = some 739000;
  sap_code = none;
  sap_line_no = none;
  delivery_plant = none;
  drawing_released = true;
  drawing_release_date = none;
  order_no = none;
}

abbrev msr : MachineSchedule
msr = record {
  id = 9;
  order_line_id = 7;
  machine_assembly_days = none;
  planned_end_date = some 739000;
}

abbrev source : Source
source = record {
  default_plant = codes "1000";
  orders = order ∷ [];
  machine_schedules = msr ∷ [];
  bom = part.row ∷ [];
  part_baselines = [];
  calendar_table = [];
}

abbrev store : Store
store = record {
  assembly_times = record { rows = []; next_id = 1 };
  part_results = earlier_row 7 ∷ earlier_row 8 ∷ [];
}

build_parts-replaces_example :
    (rows : List PartScheduleResult) × (built : Store) × (build_parts source store order msr
        assemblies 739000
      ≡ ok (rows, built))
    × (where_true (is_row_of 7) built.part_results ≡ rows)
    × (where_true (is_row_of_other 7) built.part_results
        ≡ where_true (is_row_of_other 7) store.part_results)
build_parts-replaces_example =
    build_parts-replaces source store order msr assemblies 739000 late_enough (omega arith)
