-- ===== src/ScheduleCheck/Tests.antt =====
-- Runs of schedule_check_service.py, and the theorem at a concrete input. The floats are decimals.
use auto_scheduling_system.Prelude.{
  ◌≡◌, ◌<◌, ◌≤◌, ◌+◌, refl, subst, some-injective, Bool, true, false, none, some, List, [], ◌∷◌,
  arith, codes,
}
use auto_scheduling_system.Prelude.Result.{Result, ok, err}
use auto_scheduling_system.Prelude.Decimal.{Decimal, decimal}
use auto_scheduling_system.Calendar.{Date, max_date, workday_loop, is_workday}
use auto_scheduling_system.Calendar.Workdays.{reach}
use auto_scheduling_system.Bom.{BomRelation}
use auto_scheduling_system.MachineCycles.Baselines.{MachineCycleBaseline}
use auto_scheduling_system.Orders.{SalesPlanOrderLine}
use auto_scheduling_system.ScheduleCheck.{CheckStatus, CheckResult, Prefetched, check_order}
use auto_scheduling_system.ScheduleCheck.Verdict.{Verdict, check_order-Checked}

abbrev order : Bool → SalesPlanOrderLine
order released = record {
  id = 7;
  contract_no = none;
  customer_name = none;
  product_series = none;
  product_model = some (codes "P1");
  product_name = none;
  material_no = some (codes "M");
  quantity = some (decimal 1);
  confirmed_delivery_date = some 739000;
  sap_code = none;
  sap_line_no = none;
  delivery_plant = none;
  drawing_released = released;
  drawing_release_date = none;
  order_no = none;
}

abbrev bom : List BomRelation
bom =
    record {
      id = 1;
      machine_material_no = codes "M";
      plant = none;
      material_no = some (codes "M");
      bom_component_no = some (codes "A");
      bom_component_desc = none;
      bom_level = some 1;
      is_self_made = true;
    }
    ∷ []

abbrev baselines : List MachineCycleBaseline
baselines =
    record {
      id = 1;
      product_series = none;
      machine_model = codes "P1";
      order_qty = decimal 1;
      cycle_days_median = decimal 3;
      sample_count = 3;
      is_active = true;
      remark = none;
      updated_at = 0;
    }
    ∷ []

abbrev nothing : Prefetched
nothing = record {
  bom_material_pairs = none;
  bom_materials = none;
  baselines_by_model = none;
  calendar = none;
}

abbrev ratio : Decimal → Decimal → Decimal
ratio a b = a

abbrev status_of : Result CheckResult → List CheckStatus
status_of (ok r) = r.status ∷ []
status_of (err e) = []

-- Ordinal 739000 is a Wednesday, so the trigger is the Friday before, 738995.
schedulable_runs :
    status_of (
      check_order ratio
        (decimal 1)
        ratio
        (codes "1000")
        bom
        baselines
        []
        738995
        (order true)
        nothing)
    ≡ CheckStatus.schedulable ∷ []
unfolding check_order workday_loop is_workday
schedulable_runs = refl

trigger_runs :
    status_of (
      check_order ratio
        (decimal 1)
        ratio
        (codes "1000")
        bom
        baselines
        []
        738994
        (order true)
        nothing)
    ≡ CheckStatus.pending_trigger ∷ []
unfolding check_order workday_loop is_workday
trigger_runs = refl

drawing_runs :
    status_of (
      check_order ratio
        (decimal 1)
        ratio
        (codes "1000")
        bom
        baselines
        []
        738995
        (order false)
        nothing)
    ≡ CheckStatus.pending_drawing ∷ []
unfolding check_order
drawing_runs = refl

within_dates :
    (delivery : Date) → some 739000 ≡ some delivery → (reach < delivery) × delivery + 30 ≤ max_date
within_dates delivery e =
    subst (λ d. (reach < d) × d + 30 ≤ max_date) (some-injective _ _ e) (omega arith, omega arith)

check_order-Checked_example :
    (r : CheckResult) × (check_order ratio
        (decimal 1)
        ratio
        (codes "1000")
        bom
        baselines
        []
        738995
        (order true)
        nothing
      ≡ ok r)
    × Verdict ratio (decimal 1) ratio (codes "1000") bom baselines [] 738995 (order true) nothing r
check_order-Checked_example =
    check_order-Checked ratio (decimal 1) ratio (codes "1000") bom baselines [] 738995 (order true)
      nothing (omega arith) within_dates
