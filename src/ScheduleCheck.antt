-- ===== src/ScheduleCheck.antt =====
-- services/api/app/scheduler/schedule_check_service.py and
-- services/schedule_constraint_read_service.py: whether an order can be scheduled. The service's
-- tables are the arguments of the section. Of a resource snapshot, the fields that are not the same
-- in every snapshot; a date or a decimal stands for the text that is made of it.
pub mod Verdict
mod Tests
use auto_scheduling_system.Prelude.{
  ℕ, Bool, true, false, not, ◌&&◌, ◌||◌, Option, none, some, List, [], ◌∷◌, ltb, if◌then◌else◌,
  Text, codes, text_eq, is_empty, or_empty, member, any_where, first_where, ◌==◌,
}
use auto_scheduling_system.Prelude.Result.{Result, ok, err, ◌>>=◌}
use auto_scheduling_system.Prelude.Decimal.{Decimal, to_int}
use auto_scheduling_system.Calendar.{Date, subtract_workdays}
use auto_scheduling_system.Bom.{BomRelation, normalize_plant, has_machine_bom}
use auto_scheduling_system.MachineCycles.Baselines.{MachineCycleBaseline}
use auto_scheduling_system.MachineCycles.{get_machine_cycle, get_machine_cycle_from}
use auto_scheduling_system.Orders.{
  SalesPlanOrderLine, WorkCalendar, CalendarMap, calendar_of, get_calendar_map, days_before,
  days_after,
}

pub record ResourceSnapshot : Type 0 where
  pub material_no : Option Text
  pub plant : Text
  pub product_model : Option Text
  pub delivery_date : Option Date
  pub trigger_date : Option Date
  pub machine_cycle_days : Option Decimal

unfoldable pub build_order_resource_snapshot :
    (default_plant : Text) → SalesPlanOrderLine → Option Date → Option Decimal → ResourceSnapshot
unfolding normalize_plant
build_order_resource_snapshot default_plant order trigger_date machine_cycle_days = record {
  material_no = order.material_no;
  plant = normalize_plant default_plant order.delivery_plant;
  product_model = order.product_model;
  delivery_date = order.confirmed_delivery_date;
  trigger_date = trigger_date;
  machine_cycle_days = machine_cycle_days;
}

pub data CheckStatus : Type 0 where
  not_found pending_delivery pending_drawing missing_bom pending_trigger schedulable : CheckStatus

-- The dict of the result; a key that the dict does not have is none.
pub record CheckResult : Type 0 where
  pub is_schedulable : Bool
  pub status : CheckStatus
  pub reason : Option Text
  pub trigger_date : Option Date
  pub machine_cycle_days : Option Decimal
  pub is_default_cycle : Option Bool
  pub resource_snapshot : Option ResourceSnapshot

abbrev pub refused : CheckStatus → Text → Option ResourceSnapshot → CheckResult
refused status reason snapshot = record {
  is_schedulable = false;
  status = status;
  reason = some reason;
  trigger_date = none;
  machine_cycle_days = none;
  is_default_cycle = none;
  resource_snapshot = snapshot;
}

-- What the caller of `check_order` may have read beforehand.
pub record Prefetched : Type 0 where
  pub bom_material_pairs : Option (List (Text × Text))
  pub bom_materials : Option (List Text)
  pub baselines_by_model : Option (List (Text × List MachineCycleBaseline))
  pub calendar : Option CalendarMap

module _ {Float : Type 0} (ratio : Decimal → Decimal → Float) (one : Float)
    (scale : Decimal → Float → Decimal) (default_plant : Text) (bom : List BomRelation)
    (baselines : List MachineCycleBaseline) (calendar_table : List WorkCalendar)
    (today : Date) where
  -- Whether one of the sets that are given has the order's material.
  abbrev pub is_prefetched : SalesPlanOrderLine → Text → Prefetched → Bool
  is_prefetched order material prefetched =
      (elim prefetched.bom_material_pairs [
        | none ↦ false
        | some pairs ↦
            any_where
              (λ pair.
                text_eq pair.0 material
                && text_eq pair.1 (normalize_plant default_plant order.delivery_plant))
              pairs
      ])
      || (elim prefetched.bom_materials [
        | none ↦ false
        | some materials ↦ member material materials
      ])

  abbrev pub asks_database : Prefetched → Bool
  asks_database prefetched = elim prefetched.bom_material_pairs [
    | some _ ↦ false
    | none ↦ elim prefetched.bom_materials [ none ↦ true | some _ ↦ false ]
  ]

  unfoldable pub has_bom : SalesPlanOrderLine → Prefetched → Bool
  unfolding normalize_plant has_machine_bom member text_eq
  has_bom order prefetched =
      let material = or_empty order.material_no in
      not (is_empty material)
      && (if asks_database prefetched
          then has_machine_bom default_plant bom material order.delivery_plant
          else is_prefetched order material prefetched)

  unfoldable pub machine_cycle : SalesPlanOrderLine → Prefetched → Decimal × Bool
  unfolding get_machine_cycle get_machine_cycle_from
  machine_cycle order prefetched = elim prefetched.baselines_by_model [
    | none ↦ get_machine_cycle ratio one scale baselines order.product_model order.quantity
    | some by_model ↦
        get_machine_cycle_from ratio one scale by_model order.product_model order.quantity
  ]

  -- `_get_calendar`
  unfoldable pub get_calendar : Date → Result CalendarMap
  unfolding get_calendar_map
  get_calendar delivery_date = days_before 30 today >>= λ start.
      days_after 30 delivery_date >>= λ end. ok (get_calendar_map calendar_table start end)

  -- `calendar or await self._get_calendar(...)`
  unfoldable pub calendar_map : Prefetched → Date → Result CalendarMap
  unfolding get_calendar
  calendar_map prefetched delivery = elim prefetched.calendar [
    | none ↦ get_calendar delivery
    | some [] ↦ get_calendar delivery
    | some (item ∷ items) ↦ ok (item ∷ items)
  ]

  -- The result once the trigger date is known.
  unfoldable pub check_trigger : SalesPlanOrderLine → Decimal × Bool → Date → CheckResult
  unfolding build_order_resource_snapshot
  check_trigger order (machine_cycle_days, is_default) trigger_date = record {
    is_schedulable = not (ltb today trigger_date);
    status =
        if ltb today trigger_date then CheckStatus.pending_trigger else CheckStatus.schedulable;
    reason = none;
    trigger_date = some trigger_date;
    machine_cycle_days = some machine_cycle_days;
    is_default_cycle = some is_default;
    resource_snapshot = some (
        build_order_resource_snapshot default_plant order (some trigger_date)
          (some machine_cycle_days));
  }

  -- The part of `check_order` that follows the conditions.
  unfoldable pub check_delivery : SalesPlanOrderLine → Prefetched → Date → Result CheckResult
  unfolding machine_cycle calendar_map calendar_of subtract_workdays check_trigger to_int
  check_delivery order prefetched delivery =
      let cycle = machine_cycle order prefetched in
      calendar_map prefetched delivery >>= λ calendar.
      subtract_workdays delivery (to_int cycle.0) (calendar_of calendar) >>= λ trigger_date.
      ok (check_trigger order cycle trigger_date)

  -- The conditions of `check_order`, by the delivery date of the order.
  unfoldable pub check_conditions :
      SalesPlanOrderLine → Prefetched → Option Date → Result CheckResult
  unfolding build_order_resource_snapshot has_bom check_delivery
  check_conditions order prefetched none = ok (
      refused CheckStatus.pending_delivery (codes "No confirmed delivery date")
        (some (build_order_resource_snapshot default_plant order none none)))
  check_conditions order prefetched (some delivery) =
      let snapshot = some (build_order_resource_snapshot default_plant order none none) in
      if not order.drawing_released
      then ok (refused CheckStatus.pending_drawing (codes "Drawing not released") snapshot)
      else (if not (has_bom order prefetched)
          then ok (refused CheckStatus.missing_bom (codes "BOM not found") snapshot)
          else check_delivery order prefetched delivery)

  unfoldable pub check_order : SalesPlanOrderLine → Prefetched → Result CheckResult
  unfolding check_conditions
  check_order order prefetched = check_conditions order prefetched order.confirmed_delivery_date

  unfoldable pub check : List SalesPlanOrderLine → ℕ → Result CheckResult
  unfolding check_order
  check orders order_line_id = elim (first_where (λ order. order.id == order_line_id) orders) [
    | none ↦ ok (refused CheckStatus.not_found (codes "Order not found") none)
    | some order ↦ check_order order (record {
      bom_material_pairs = none;
      bom_materials = none;
      baselines_by_model = none;
      calendar = none;
    })
  ]
