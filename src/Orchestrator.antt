-- ===== src/Orchestrator.antt =====
-- services/api/app/scheduler/schedule_orchestrator.py: an order's run, and a batch of them. The tables
-- that a run only reads are `Source`; those that it writes are `World`. The refresh of the order's
-- snapshot is an interface: its effects on a state of its own, and its exceptions.
pub mod Payloads
pub mod Runs
pub mod Warnings
pub mod FirstWarning
pub mod Validation
pub mod Passed
pub mod Marks
pub mod Batch
mod Tests
use auto_scheduling_system.Prelude.{
  ℕ, ◌+◌, Bool, true, false, not, Option, none, some, List, [], ◌∷◌, ◌++◌, map, length, ◌==◌,
  if◌then◌else◌, Text, codes, first_where,
}
use auto_scheduling_system.Prelude.Result.{Result, ok, err, ◌>>=◌}
use auto_scheduling_system.Prelude.Decimal.{Decimal}
use auto_scheduling_system.Calendar.{Date}
use auto_scheduling_system.SyncJobs.{Time}
use auto_scheduling_system.Bom.{BomRelation}
use auto_scheduling_system.Assemblies.Repo.{AssemblyTimeTable}
use auto_scheduling_system.KeyParts.Baselines.{PartCycleBaseline}
use auto_scheduling_system.MachineCycles.Baselines.{MachineCycleBaseline}
use auto_scheduling_system.Orders.{SalesPlanOrderLine, WorkCalendar}
use auto_scheduling_system.DataIssues.{IssueReport, Issues, upsert_open_issue}
use auto_scheduling_system.MachineSchedules.{MachineScheduleResult, MachineResults}
use auto_scheduling_system.PartSchedule.Rows.{PartScheduleResult}
use auto_scheduling_system.PartSchedule.{MachineSchedule, delete_by_order_line_id}
use auto_scheduling_system.ScheduleCheck.{CheckStatus, CheckResult, check}
use auto_scheduling_system.Orchestrator.Payloads.{
  missing_bom_issue, pending_delivery_issue, pending_drawing_issue, machine_cycle_default_issue,
  final_assembly_time_default_issue, part_assembly_time_default_issue, part_cycle_default_issue,
}
use auto_scheduling_system.Orchestrator.Marks.{
  has_flag, mark_machine_schedule_abnormal, mark_parts, assembly_defaults, cycle_defaults,
}
use auto_scheduling_system.MachineSchedules
use auto_scheduling_system.PartSchedule

pub record Source : Type 0 where
  pub default_plant : Text
  pub orders : List SalesPlanOrderLine
  pub bom : List BomRelation
  pub machine_baselines : List MachineCycleBaseline
  pub part_baselines : List PartCycleBaseline
  pub calendar_table : List WorkCalendar
  pub today : Date
  pub now : Time

pub record World (S : Type 0) : Type 0 where
  pub assembly_times : AssemblyTimeTable
  pub machine_results : MachineResults
  pub part_results : List PartScheduleResult
  pub issues : Issues
  pub snapshots : S

-- What `ScheduleSnapshotRefreshService` does, with the reason that it is given.
pub record SnapshotService (S : Type 0) : Type 0 where
  pub refresh_one : ℕ → (reason : Text) → World S → Result S
  pub mark_scheduled : ℕ → (machine_schedule_id : ℕ) → World S → Result S

-- What `schedule_order` returns.
pub data Outcome : Type 0 where
  refused : ℕ → CheckResult → Outcome
  no_machine_schedule : ℕ → Outcome
  scheduled : ℕ → MachineScheduleResult → List PartScheduleResult → Outcome

abbrev pub is_success : Outcome → Bool
is_success (refused _ _) = false
is_success (no_machine_schedule _) = false
is_success (scheduled _ _ _) = true

abbrev pub status_text : CheckStatus → Text
status_text CheckStatus.not_found = codes "not_found"
status_text CheckStatus.pending_delivery = codes "pending_delivery"
status_text CheckStatus.pending_drawing = codes "pending_drawing"
status_text CheckStatus.missing_bom = codes "missing_bom"
status_text CheckStatus.pending_trigger = codes "pending_trigger"
status_text CheckStatus.schedulable = codes "schedulable"

unfoldable pub get_order : List SalesPlanOrderLine → ℕ → Option SalesPlanOrderLine
get_order orders id = first_where (λ order. order.id == id) orders

-- The columns of a machine's schedule that the part service reads.
abbrev pub view : MachineScheduleResult → MachineSchedule
view row = record {
  id = row.id;
  order_line_id = row.order_line_id;
  machine_assembly_days = row.machine_assembly_days;
  planned_end_date = row.planned_end_date;
}

module _ {S : Type 0} where
  unfoldable pub record_issue : IssueReport → World S → Result (World S)
  unfolding upsert_open_issue
  record_issue report world =
      upsert_open_issue report world.issues >>= λ written. ok (record world { issues = written.1 })

  abbrev pub record_if : Bool → IssueReport → World S → Result (World S)
  record_if b report world = if b then record_issue report world else ok world

  -- The issue of an order that is there.
  unfoldable pub record_order_issue :
      ℕ → CheckStatus → SalesPlanOrderLine → World S → Result (World S)
  unfolding record_issue missing_bom_issue pending_delivery_issue pending_drawing_issue
  record_order_issue id CheckStatus.missing_bom order world =
      record_issue (missing_bom_issue id order) world
  record_order_issue id CheckStatus.pending_delivery order world =
      record_if (elim order.confirmed_delivery_date [ none ↦ true | some _ ↦ false ])
        (pending_delivery_issue id order) world
  record_order_issue id CheckStatus.pending_drawing order world =
      record_if (not order.drawing_released) (pending_drawing_issue id order) world
  record_order_issue id _ order world = ok world

  unfoldable pub record_precheck_issue :
      List SalesPlanOrderLine → ℕ → CheckResult → World S → Result (World S)
  unfolding get_order record_order_issue
  record_precheck_issue orders id result world = elim (get_order orders id) [
    | none ↦ ok world
    | some order ↦ record_order_issue id result.status order world
  ]

  -- The row is an entity of the session, so its changes are those of the table.
  abbrev pub put_machine : MachineScheduleResult → World S → World S
  put_machine machine world = record world {
    machine_results = record world.machine_results {
      rows = map (λ row. if row.id == machine.id then machine else row) world.machine_results.rows;
    };
  }

  abbrev pub put_parts : ℕ → List PartScheduleResult → World S → World S
  put_parts id parts world = record world {
    part_results = delete_by_order_line_id id world.part_results ++ parts;
  }

  -- A default of the machine's schedule, its mark and its issue.
  unfoldable pub record_machine_default :
      (flag mark : Text)
      → (MachineScheduleResult → IssueReport)
      → MachineScheduleResult × World S
      → Result (MachineScheduleResult × World S)
  unfolding record_issue mark_machine_schedule_abnormal has_flag
  record_machine_default flag mark issue (machine, world) =
      let marked = mark_machine_schedule_abnormal mark machine in
      if has_flag flag machine.default_flags
      then (record_issue (issue marked) (put_machine marked world) >>= λ after. ok (marked, after))
      else ok (machine, world)

  unfoldable pub record_machine_schedule_default_issues :
      MachineScheduleResult → World S → Result (MachineScheduleResult × World S)
  unfolding record_machine_default machine_cycle_default_issue final_assembly_time_default_issue
  record_machine_schedule_default_issues machine world =
      record_machine_default (codes "machine_cycle") (codes "machine_cycle_default")
        machine_cycle_default_issue (machine, world)
      >>= record_machine_default (codes "final_assembly_time") (codes "final_assembly_time_default")
          final_assembly_time_default_issue

  abbrev pub record_list : List Text → (List Text → IssueReport) → World S → Result (World S)
  record_list [] issue world = ok world
  record_list (item ∷ items) issue world = record_issue (issue (item ∷ items)) world

  -- The rows of the parts with their marks, and the machine's with its own.
  unfoldable pub record_part_schedule_default_issues :
      MachineScheduleResult
      → List PartScheduleResult
      → World S
      → Result (MachineScheduleResult × List PartScheduleResult × World S)
  unfolding mark_parts assembly_defaults cycle_defaults part_assembly_time_default_issue
      part_cycle_default_issue record_issue
  record_part_schedule_default_issues machine [] world = ok (machine, [], world)
  record_part_schedule_default_issues machine (part ∷ parts) world =
      let (marked, rows) = mark_parts machine (part ∷ parts) in
      record_list (assembly_defaults rows) (part_assembly_time_default_issue marked)
        (put_parts machine.order_line_id rows (put_machine marked world))
      >>= record_list (cycle_defaults rows) (part_cycle_default_issue marked)
      >>= λ after. ok (marked, rows, after)
