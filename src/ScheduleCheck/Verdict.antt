-- ===== src/ScheduleCheck/Verdict.antt =====
-- services/api/app/scheduler/schedule_check_service.py: what each verdict of `check_order` means.
use auto_scheduling_system.Prelude.{
  ℕ, ◌+◌, ◌-◌, ◌&&◌, map, where_true, ◌≤◌, ◌<◌, ◌≡◌, refl, Bool, true, false, not, Option, none,
  some, List, [], ◌∷◌, inl, inr, arith, tests, Bool-cases, Option-cases, ltb, leb, if◌then◌else◌,
  Text,
}
use auto_scheduling_system.Prelude.Result.{Result, ok}
use auto_scheduling_system.Prelude.Decimal.{Decimal, to_int}
use auto_scheduling_system.Calendar.{Date, max_date, subtract_workdays}
use auto_scheduling_system.Calendar.Workdays.{reach, subtract_workdays_bounds}
use auto_scheduling_system.Bom.{BomRelation}
use auto_scheduling_system.MachineCycles.Baselines.{MachineCycleBaseline}
use auto_scheduling_system.Orders.{
  SalesPlanOrderLine, WorkCalendar, CalendarMap, calendar_of, get_calendar_map,
}
use auto_scheduling_system.ScheduleCheck.{
  CheckStatus, CheckResult, Prefetched, has_bom, machine_cycle, get_calendar, calendar_map,
  check_trigger, check_delivery, check_order, check_conditions, check_conditions,
}

not_ltb : (a b : ℕ) → ltb a b ≡ false → b ≤ a
not_ltb a b h = grind tests

not_of_true : (b : Bool) → not b ≡ true → b ≡ false
not_of_true true h = cc
not_of_true false h = refl

not_of_false : (b : Bool) → not b ≡ false → b ≡ true
not_of_false true h = refl
not_of_false false h = cc

le→leb : (a b : ℕ) → a ≤ b → leb a b ≡ true
le→leb a b h = ground arith

module _ {Float : Type 0} (ratio : Decimal → Decimal → Float) (one : Float)
    (scale : Decimal → Float → Decimal) (default_plant : Text) (bom : List BomRelation)
    (baselines : List MachineCycleBaseline) (calendar_table : List WorkCalendar) (today : Date)
    (order : SalesPlanOrderLine) (prefetched : Prefetched) where
  abbrev order_has_bom : Bool
  order_has_bom =
      has_bom ratio one scale default_plant bom baselines calendar_table today order prefetched

  -- The calendar that counts: the prefetched one where it has items, else the rows of the calendar's
  -- table from 30 days before today to 30 days after the delivery.
  abbrev pub calendar_by : Date → CalendarMap
  calendar_by delivery = elim prefetched.calendar [
    | some (item ∷ items) ↦ item ∷ items
    | _ ↦
        map (λ row. (row.calendar_date, row.is_workday))
          (where_true
            (λ row. leb (today - 30) row.calendar_date && leb row.calendar_date (delivery + 30))
            calendar_table)
  ]

  -- The trigger date of a result that has one: the machine's cycle before the delivery.
  abbrev pub IsTriggered : Option Date → Date → Date → Type 0
  IsTriggered found delivery trigger =
      (subtract_workdays delivery
          (to_int
            (machine_cycle ratio one scale default_plant bom baselines calendar_table today order
              prefetched).0)
          (calendar_of (calendar_by delivery))
        ≡ ok trigger)
      × (found ≡ some trigger)
      × (trigger ≤ delivery)

  abbrev pub IsReady : Date → Type 0
  IsReady delivery =
      (order.confirmed_delivery_date ≡ some delivery)
      × (order.drawing_released ≡ true)
      × (order_has_bom ≡ true)

  -- The status says why, and the flag is that of the status.
  abbrev pub Verdict : CheckResult → Type 0
  Verdict result = elim result.status [
    | CheckStatus.not_found ↦ true ≡ false
    | CheckStatus.pending_delivery ↦
        (result.is_schedulable ≡ false) × (order.confirmed_delivery_date ≡ none)
    | CheckStatus.pending_drawing ↦
        (result.is_schedulable ≡ false) × (order.drawing_released ≡ false)
    | CheckStatus.missing_bom ↦ (result.is_schedulable ≡ false) × (order_has_bom ≡ false)
    | CheckStatus.pending_trigger ↦
        (delivery : Date) × (trigger : Date) × (result.is_schedulable ≡ false)
        × IsReady delivery
        × IsTriggered result.trigger_date delivery trigger
        × (today < trigger)
    | CheckStatus.schedulable ↦
        (delivery : Date) × (trigger : Date) × (result.is_schedulable ≡ true)
        × IsReady delivery
        × IsTriggered result.trigger_date delivery trigger
        × (trigger ≤ today)
  ]

  abbrev Checked : Result CheckResult → Type 0
  Checked result = (r : CheckResult) × (result ≡ ok r) × Verdict r

  check_trigger-Verdict :
      (delivery trigger : Date)
      → IsReady delivery
      → let cycle =
          machine_cycle ratio one scale default_plant bom baselines calendar_table today order
            prefetched in
        let result =
          check_trigger ratio one scale default_plant bom baselines calendar_table today order cycle
            trigger in
        IsTriggered (some trigger) delivery trigger → Verdict result
  unfolding check_trigger
  check_trigger-Verdict delivery trigger ready triggered = elim (Bool-cases (ltb today trigger)) [
    | inl e ↦ rw e (delivery, trigger, refl, ready, triggered, omega (tests, e))
    | inr e ↦ rw e (delivery, trigger, refl, ready, triggered, not_ltb today trigger e)
  ]

  get_calendar-ok :
      (delivery : Date)
      → 31 ≤ today
      → delivery + 30 ≤ max_date
      → get_calendar ratio one scale default_plant bom baselines calendar_table today delivery
        ≡ ok (get_calendar_map calendar_table (today - 30) (delivery + 30))
  unfolding get_calendar
  get_calendar-ok delivery late early =
      rw (le→leb 31 today late, le→leb (delivery + 30) max_date early, get_calendar) refl

  calendar_map-ok :
      (delivery : Date)
      → 31 ≤ today
      → delivery + 30 ≤ max_date
      → calendar_map ratio one scale default_plant bom baselines calendar_table today prefetched
          delivery
        ≡ ok (calendar_by delivery)
  unfolding calendar_map get_calendar_map
  calendar_map-ok delivery late early = elim (Option-cases prefetched.calendar) [
    | inl e ↦ rw (e, calendar_map) (get_calendar-ok delivery late early)
    | inr ([], e) ↦ rw (e, calendar_map) (get_calendar-ok delivery late early)
    | inr (item ∷ items, e) ↦ rw (e, calendar_map) refl
  ]

  check_delivery-Checked :
      (delivery : Date)
      → 31 ≤ today
      → delivery + 30 ≤ max_date
      → reach < delivery
      → IsReady delivery
      → Checked (
          check_delivery ratio one scale default_plant bom baselines calendar_table today order
            prefetched delivery)
  unfolding check_delivery
  check_delivery-Checked delivery late early far ready =
      let cycle =
        machine_cycle ratio one scale default_plant bom baselines calendar_table today order
          prefetched in
      let loaded = calendar_map-ok delivery late early in
      let (trigger, walked, before, _) =
        subtract_workdays_bounds (calendar_of (calendar_by delivery)) delivery (to_int cycle.0)
          far in
      rw (loaded, walked, check_delivery)
        (_, refl, check_trigger-Verdict delivery trigger ready (walked, refl, before))

  if-Checked :
      (b : Bool) (x y : Result CheckResult)
      → (b ≡ true → Checked x)
      → (b ≡ false → Checked y)
      → Checked (if b then x else y)
  if-Checked true x y hx hy = hx refl
  if-Checked false x y hx hy = hy refl

  check_conditions-Checked :
      (confirmed : Option Date)
      → order.confirmed_delivery_date ≡ confirmed
      → 31 ≤ today
      → ((delivery : Date)
          → confirmed ≡ some delivery
          → (reach < delivery) × delivery + 30 ≤ max_date)
      → Checked (
          check_conditions ratio one scale default_plant bom baselines calendar_table today order
            prefetched confirmed)
  unfolding check_conditions
  check_conditions-Checked none e late within = (_, refl, (refl, e))
  check_conditions-Checked (some delivery) e late within =
      if-Checked (not order.drawing_released) _ _ (λ k. (_, refl, (refl, not_of_true _ k)))
        (λ k.
          if-Checked (not order_has_bom) _ _ (λ m. (_, refl, (refl, not_of_true _ m)))
            (λ m.
              check_delivery-Checked delivery late (within delivery refl).1 (within delivery refl).0
                (e, not_of_false _ k, not_of_false _ m)))

  -- Where the dates stay within the calendar of Python, `check_order` returns, its status says which
  -- condition of the order fails or that none does, and the order is schedulable where its delivery
  -- date is confirmed, its drawing is released, its BOM is there and the trigger date, which is the
  -- machine's cycle of work days before the delivery, is reached: work days by the prefetched calendar
  -- where it has items, else by the calendar's table.
  pub check_order-Checked :
      31 ≤ today
      → ((delivery : Date)
          → order.confirmed_delivery_date ≡ some delivery
          → (reach < delivery) × delivery + 30 ≤ max_date)
      → Checked (
          check_order ratio one scale default_plant bom baselines calendar_table today order
            prefetched)
  unfolding check_order
  check_order-Checked late within =
      check_conditions-Checked order.confirmed_delivery_date refl late within
