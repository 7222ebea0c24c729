-- ===== src/PartSchedule.antt =====
-- services/api/app/scheduler/part_schedule_service.py: the rows of an order's parts. The groups of
-- assemblies are scheduled backwards from the end of the machine.
pub mod Rows
pub mod Backward
pub mod Replace
mod Tests
use auto_scheduling_system.Prelude.{
  ℕ, Bool, true, false, not, Option, none, some, List, [], ◌∷◌, ◌++◌, leb, ◌==◌, if◌then◌else◌,
  Text, or_empty, any_where, where_true, first_where, map, sort_by,
}
use auto_scheduling_system.Prelude.Int.{pos, ltb_ℤ}
use auto_scheduling_system.Prelude.Result.{Result, ok, err, value_error, type_error, ◌>>=◌}
use auto_scheduling_system.Prelude.Decimal.{Decimal, decimal, to_int, is_zero}
use auto_scheduling_system.Calendar.{Date, Calendar, subtract_workdays}
use auto_scheduling_system.Bom.{BomRelation}
use auto_scheduling_system.Assemblies.Repo.{AssemblyTimeTable}
use auto_scheduling_system.Assemblies.{Assembly, identify}
use auto_scheduling_system.KeyParts.Baselines.{PartCycleBaseline}
use auto_scheduling_system.KeyParts.Tree.{RecursiveNode}
use auto_scheduling_system.KeyParts.Matching.{CycleLookup, build_cycle_lookup}
use auto_scheduling_system.KeyParts.{list_recursive_self_made_parts_for_assemblies}
use auto_scheduling_system.Orders.{
  SalesPlanOrderLine, WorkCalendar, calendar_of, get_calendar_map, days_before, days_after,
}
use auto_scheduling_system.PartSchedule.Rows.{PartScheduleResult, schedule_assembly}

-- Of a machine's schedule, the columns that the service reads.
pub record MachineSchedule : Type 0 where
  pub id : ℕ
  pub order_line_id : ℕ
  pub machine_assembly_days : Option Decimal
  pub planned_end_date : Option Date

-- The keys of `seq_groups`, the highest first.
unfoldable pub distinct_sequences : List ℕ → List Assembly → List ℕ
distinct_sequences seen [] = []
distinct_sequences seen (asm ∷ assemblies) =
    let later = distinct_sequences (asm.production_sequence ∷ seen) assemblies in
    let rest = distinct_sequences seen assemblies in
    if any_where (λ seq. seq == asm.production_sequence) seen
    then rest
    else asm.production_sequence ∷ later

unfoldable pub sorted_seqs : List Assembly → List ℕ
unfolding sort_by distinct_sequences
sorted_seqs assemblies = sort_by (λ a b. leb b a) (distinct_sequences [] assemblies)

abbrev pub group_of : List Assembly → ℕ → List Assembly
group_of assemblies seq = where_true (λ asm. asm.production_sequence == seq) assemblies

-- `max_assembly_time` after the loop over a group.
unfoldable pub max_assembly_time : Decimal → List Assembly → Decimal
max_assembly_time longest [] = longest
max_assembly_time longest (asm ∷ group) =
    max_assembly_time
      (if ltb_ℤ longest asm.assembly_time_days then asm.assembly_time_days else longest) group

-- What the loops of one order share.
pub record Plan : Type 0 where
  pub order_line_id : ℕ
  pub machine_schedule_id : ℕ
  pub calendar : Calendar
  pub parts_map : List (Text × List RecursiveNode)
  pub cycle_lookup : CycleLookup

unfoldable pub schedule_group : Plan → Date → List Assembly → Result (List PartScheduleResult)
unfolding schedule_assembly
schedule_group plan group_end [] = ok []
schedule_group plan group_end (asm ∷ group) =
    schedule_assembly plan.order_line_id plan.machine_schedule_id plan.calendar plan.parts_map
      plan.cycle_lookup group_end asm
    >>= λ rows. schedule_group plan group_end group >>= λ later. ok (rows ++ later)

-- The loop over the groups: each ends where the assembly of the one before it begins.
unfoldable pub schedule_groups :
    Plan → List Assembly → Date → List ℕ → Result (List PartScheduleResult)
unfolding schedule_group max_assembly_time subtract_workdays to_int
schedule_groups plan assemblies current_end [] = ok []
schedule_groups plan assemblies current_end (seq ∷ seqs) =
    schedule_group plan current_end (group_of assemblies seq) >>= λ rows.
    subtract_workdays current_end (to_int (max_assembly_time (pos 0) (group_of assemblies seq)))
      plan.calendar
    >>= λ next_end. schedule_groups plan assemblies next_end seqs >>= λ later. ok (rows ++ later)

-- `msr.machine_assembly_days or 3`
abbrev pub final_assembly_time : Option Decimal → Decimal
final_assembly_time none = decimal 3
final_assembly_time (some days) = if is_zero days then decimal 3 else days

unfoldable pub schedule_machine :
    Plan → List Assembly → Option Decimal → Date → Result (List PartScheduleResult)
unfolding subtract_workdays to_int sorted_seqs schedule_groups
schedule_machine plan assemblies machine_assembly_days machine_end =
    subtract_workdays machine_end (to_int (final_assembly_time machine_assembly_days)) plan.calendar
    >>= λ current_end. schedule_groups plan assemblies current_end (sorted_seqs assemblies)

-- `none` would be a walk that has run out of fuel.
abbrev or_no_parts : Option (List (Text × List RecursiveNode)) → List (Text × List RecursiveNode)
or_no_parts none = []
or_no_parts (some grouped) = grouped

-- The tables that the service reads.
pub record Source : Type 0 where
  pub default_plant : Text
  pub orders : List SalesPlanOrderLine
  pub machine_schedules : List MachineSchedule
  pub bom : List BomRelation
  pub part_baselines : List PartCycleBaseline
  pub calendar_table : List WorkCalendar

-- The tables that it writes.
pub record Store : Type 0 where
  pub assembly_times : AssemblyTimeTable
  pub part_results : List PartScheduleResult

-- `delete_by_order_line_id` of the repository.
abbrev pub delete_by_order_line_id : ℕ → List PartScheduleResult → List PartScheduleResult
delete_by_order_line_id order_line_id = where_true (λ row. not (row.order_line_id == order_line_id))

-- What the loops share, for the range of the calendar.
unfoldable pub plan_of :
    Source → SalesPlanOrderLine → MachineSchedule → List Assembly → Date → Date → Plan
unfolding get_calendar_map list_recursive_self_made_parts_for_assemblies build_cycle_lookup
    calendar_of
plan_of source order msr assemblies start_range end_range = record {
  order_line_id = order.id;
  machine_schedule_id = msr.id;
  calendar = calendar_of (get_calendar_map source.calendar_table start_range end_range);
  parts_map = or_no_parts (
      list_recursive_self_made_parts_for_assemblies source.default_plant source.bom
        (or_empty order.material_no) order.delivery_plant assemblies);
  cycle_lookup =
      build_cycle_lookup source.part_baselines (or_empty order.product_model) order.delivery_plant;
}

-- From the assemblies on.
unfoldable pub build_parts :
    Source
    → Store
    → SalesPlanOrderLine
    → MachineSchedule
    → List Assembly
    → Date
    → Result (List PartScheduleResult × Store)
unfolding plan_of schedule_machine
build_parts source store order msr assemblies machine_end =
    days_before 365 machine_end >>= λ start_range. days_after 30 machine_end >>= λ end_range.
    schedule_machine (plan_of source order msr assemblies start_range end_range) assemblies
      msr.machine_assembly_days machine_end
    >>= λ rows. ok (
      rows,
      record store { part_results = delete_by_order_line_id order.id store.part_results ++ rows },
    )

abbrev pub with_machine_end {ℓ} : {A : Type ℓ} → Option Date → (Date → Result A) → Result A
with_machine_end none k = err type_error
with_machine_end (some machine_end) k = k machine_end

-- For an order and a machine schedule that are there.
unfoldable pub build_order :
    Source → Store → SalesPlanOrderLine → MachineSchedule → Result (List PartScheduleResult × Store)
unfolding identify build_parts
build_order source store order msr =
    if not (msr.order_line_id == order.id)
    then err value_error
    else (identify source.default_plant source.bom store.assembly_times (or_empty order.material_no)
          order.delivery_plant (or_empty order.product_model) order.product_series
        >>= λ identified.
            let identified_store = record store { assembly_times = identified.1 } in
            elim identified.0 [
              | [] ↦ ok ([], identified_store)
              | asm ∷ assemblies ↦
                  with_machine_end msr.planned_end_date
                    (build_parts source identified_store order msr (asm ∷ assemblies))
            ])

unfoldable pub build : Source → Store → ℕ → ℕ → Result (List PartScheduleResult × Store)
unfolding build_order
build source store order_line_id machine_schedule_id =
    elim (first_where (λ order. order.id == order_line_id) source.orders) [
      | none ↦ ok ([], store)
      | some order ↦
          elim (first_where (λ msr. msr.id == machine_schedule_id) source.machine_schedules) [
            | none ↦ ok ([], store)
            | some msr ↦ build_order source store order msr
          ]
    ]
