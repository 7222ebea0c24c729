-- ===== src/Orchestrator/Tests.antt =====
-- Runs of the orchestrator, with floats as decimals and a snapshot service that counts its calls.
use auto_scheduling_system.Prelude.{
  Text, ℕ, ◌≡◌, ◌+◌, refl, Bool, true, false, none, some, List, [], ◌∷◌, codes, text_eq, where_true,
  map, length,
}
use auto_scheduling_system.Prelude.Result.{Result, ok, err}
use auto_scheduling_system.Prelude.Decimal.{Decimal, decimal}
use auto_scheduling_system.Calendar.{workday_loop, is_workday}
use auto_scheduling_system.Bom.{BomRelation}
use auto_scheduling_system.Orders.{SalesPlanOrderLine}
use auto_scheduling_system.MachineSchedules.{MachineScheduleResult, empty_result_row}
use auto_scheduling_system.ScheduleCheck.{CheckResult}
use auto_scheduling_system.Orchestrator.{Source, World, SnapshotService}
use auto_scheduling_system.Orchestrator.Runs.{
  BatchResult, check_order_line, schedule_order, schedule_batch,
}
use auto_scheduling_system.Orchestrator.Marks.{has_flag}
use auto_scheduling_system.Orchestrator.Warnings.{ValidationItem, collect_schedule_warning_items}
use auto_scheduling_system.Orchestrator.FirstWarning.{
  Warning, item_of, add_warnings, add_warnings-first,
}
use auto_scheduling_system.Orchestrator.Validation.{
  Validation, build_precheck_failure_response, validate_part_schedule_run,
}
use auto_scheduling_system.Orchestrator.Passed.{IsPassed, validate_part_schedule_run-IsPassed}
use auto_scheduling_system.Orchestrator.Batch.{
  IsCounted, schedule_order-is_success, schedule_batch-IsCounted,
}

abbrev order : ℕ → Bool → SalesPlanOrderLine
order id released = record {
  id = id;
  contract_no = none;
  customer_name = none;
  product_series = none;
  product_model = none;
  product_name = none;
  material_no = some (codes "M");
  quantity = some (decimal 1);
  confirmed_delivery_date = some 739000;
  sap_code = none;
  sap_line_no = none;
  delivery_plant = none;
  drawing_released = released;
  drawing_release_date = none;
  order_no = none;
}

abbrev bom : List BomRelation
bom =
    record {
      id = 1;
      machine_material_no = codes "M";
      plant = none;
      material_no = some (codes "M");
      bom_component_no = some (codes "A");
      bom_component_desc = none;
      bom_level = some 1;
      is_self_made = true;
    }
    ∷ []

-- Order 7 can be scheduled, and the drawing of order 8 is not released.
abbrev source : Source
source = record {
  default_plant = codes "1000";
  orders = order 7 true ∷ order 8 false ∷ [];
  bom = bom;
  machine_baselines = [];
  part_baselines = [];
  calendar_table = [];
  today = 739000;
  now = 0;
}

abbrev world : World ℕ
world = record {
  assembly_times = record { rows = []; next_id = 1 };
  machine_results = record { rows = []; next_id = 1 };
  part_results = [];
  issues = record { rows = []; next_id = 1 };
  snapshots = 0;
}

abbrev counting : SnapshotService ℕ
counting = record {
  refresh_one = λ id reason w. ok (w.snapshots + 1);
  mark_scheduled = λ id machine_id w. ok (w.snapshots + 10);
}

abbrev batch_of : List ℕ → BatchResult × World ℕ
unfolding schedule_batch
batch_of ids =
    schedule_batch {Float = Decimal} (λ a b. a) (decimal 1) (λ a f. f) counting source ids world

-- One of the orders 7, 8 and 9 is scheduled; order 9 does not exist.
batch_run :
    ((batch_of (7 ∷ 8 ∷ 9 ∷ [])).0.scheduled_count ≡ 1)
    × ((batch_of (7 ∷ 8 ∷ 9 ∷ [])).0.failed_count ≡ 2)
    × (length (batch_of (7 ∷ 8 ∷ 9 ∷ [])).1.issues.rows ≡ 3)
    × ((batch_of (7 ∷ 8 ∷ 9 ∷ [])).1.snapshots ≡ 12)
unfolding batch_of workday_loop is_workday
batch_run = (refl, refl, refl, refl)

schedule_batch-IsCounted_example :
    ((batch_of (7 ∷ 8 ∷ 9 ∷ [])).0.total ≡ 3) × IsCounted 3 (batch_of (7 ∷ 8 ∷ 9 ∷ [])).0
unfolding batch_of
schedule_batch-IsCounted_example =
    schedule_batch-IsCounted {Float = Decimal} (λ a b. a) (decimal 1) (λ a f. f) counting source
      (7 ∷ 8 ∷ 9 ∷ []) world

schedule_order-is_success_example :
    (result : CheckResult) × (check_order_line {Float = Decimal}
        (λ a b. a)
        (decimal 1)
        (λ a f. f)
        counting
        source
        7
      ≡ ok result)
    × (result.is_schedulable ≡ true)
unfolding schedule_order workday_loop is_workday
schedule_order-is_success_example =
    schedule_order-is_success {Float = Decimal} (λ a b. a) (decimal 1) (λ a f. f) counting source 7
      world refl refl

abbrev machine : MachineScheduleResult
machine = record (empty_result_row 1 7) { default_flags = codes "machine_cycle" ∷ [] }

machine_default_shown :
    map (λ (item : ValidationItem). item.code) (collect_schedule_warning_items machine [])
    ≡ codes "machine_cycle_default" ∷ []
unfolding collect_schedule_warning_items has_flag
machine_default_shown = refl

abbrev warning : Text → Text → Warning
warning code message = record { code = code; label = codes "l"; message = message }

-- The second message of the code A is not shown.
abbrev repeated : List Warning
repeated =
    warning (codes "A") (codes "1")
    ∷ warning (codes "B") (codes "2")
    ∷ warning (codes "A") (codes "3")
    ∷ []

add_warnings-first_example :
    where_true
      (λ (item : ValidationItem). text_eq item.code (codes "A"))
      (add_warnings repeated ([], [])).1
    ≡ item_of (warning (codes "A") (codes "1")) ∷ []
unfolding text_eq
add_warnings-first_example = add_warnings-first (codes "A") repeated

-- The machine has the assembly A, and A the self-made part P.
abbrev bom_row : ℕ → Text → Text → Text → BomRelation
bom_row id parent component desc = record {
  id = id;
  machine_material_no = codes "M";
  plant = none;
  material_no = some parent;
  bom_component_no = some component;
  bom_component_desc = some desc;
  bom_level = some id;
  is_self_made = true;
}

abbrev source_with_parts : Source
source_with_parts = record source {
  bom =
      bom_row 1 (codes "M") (codes "A") (codes "机身")
      ∷ bom_row 2 (codes "A") (codes "P") (codes "飞轮")
      ∷ [];
}

abbrev or_refused : Result Validation → Validation
unfolding build_precheck_failure_response
or_refused (err exception) = build_precheck_failure_response 0 [] [] [] none
or_refused (ok validation) = validation

abbrev validated : Validation
unfolding validate_part_schedule_run or_refused
validated = or_refused (
    validate_part_schedule_run {Float = Decimal} (λ a b. a) (decimal 1) (λ a f. f) counting
      source_with_parts (λ _. []) 7)

validate_part_schedule_run-IsPassed_example :
    (result : CheckResult) × (check_order_line {Float = Decimal}
        (λ a b. a)
        (decimal 1)
        (λ a f. f)
        counting
        source_with_parts
        7
      ≡ ok result)
    × (result.is_schedulable ≡ true)
    × IsPassed result validated
unfolding validate_part_schedule_run validated or_refused workday_loop is_workday
validate_part_schedule_run-IsPassed_example =
    validate_part_schedule_run-IsPassed {Float = Decimal} (λ a b. a) (decimal 1) (λ a f. f) counting
      source_with_parts (λ _. []) 7 refl refl
