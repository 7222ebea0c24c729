-- ===== src/Orchestrator/Runs.antt =====
-- services/api/app/scheduler/schedule_orchestrator.py: `schedule_order` and `schedule_batch`. A result
-- that is an error rolls its savepoint back. Python's floats are a parameter, as in `MachineCycles`.
use auto_scheduling_system.Prelude.{
  ℕ, ◌+◌, Option, none, some, List, [], ◌∷◌, ◌++◌, map, length, if◌then◌else◌, codes,
}
use auto_scheduling_system.Prelude.Result.{Result, Exception, ok, err, ◌>>=◌}
use auto_scheduling_system.Prelude.Decimal.{Decimal}
use auto_scheduling_system.ScheduleCheck.{CheckResult, check}
use auto_scheduling_system.MachineSchedules.{MachineScheduleResult}
use auto_scheduling_system.PartSchedule.Rows.{PartScheduleResult}
use auto_scheduling_system.MachineSchedules
use auto_scheduling_system.PartSchedule
use auto_scheduling_system.Orchestrator.{
  Source, World, SnapshotService, Outcome, refused, no_machine_schedule, scheduled, is_success,
  status_text, view, record_precheck_issue, record_machine_schedule_default_issues,
  record_part_schedule_default_issues,
}

-- What a batch has for an order: the outcome, or the note that it raised.
pub data BatchItem : Type 0 where
  finished : Outcome → BatchItem
  failed_with : ℕ → Exception → BatchItem

pub record BatchResult : Type 0 where
  pub total : ℕ
  pub scheduled_count : ℕ
  pub failed_count : ℕ
  pub results : List BatchItem

module _ {Float : Type 0} (ratio : Decimal → Decimal → Float) (one : Float)
    (scale : Decimal → Float → Decimal) {S : Type 0} (service : SnapshotService S)
    (source : Source) where
  abbrev pub with_snapshots : World S → Result S → Result (World S)
  with_snapshots world refreshed = refreshed >>= λ state. ok (record world { snapshots = state })

  -- `self.check_service.check`
  unfoldable pub check_order_line : ℕ → Result CheckResult
  unfolding check
  check_order_line id =
      check ratio one scale source.default_plant source.bom source.machine_baselines
        source.calendar_table source.today source.orders id

  -- `self.machine_service.build`
  unfoldable pub build_machine : ℕ → World S → Result (Option MachineScheduleResult × World S)
  unfolding MachineSchedules.build
  build_machine id world =
      MachineSchedules.build ratio one scale source.machine_baselines source.calendar_table
        source.now source.orders
        (record { assembly_times = world.assembly_times; results = world.machine_results }) id
      >>= λ built. ok (
        built.0,
        record world { assembly_times = built.1.assembly_times; machine_results = built.1.results },
      )

  -- `self.part_service.build`
  unfoldable pub build_parts : ℕ → ℕ → World S → Result (List PartScheduleResult × World S)
  unfolding PartSchedule.build
  build_parts id machine_id world =
      PartSchedule.build
        (record {
          default_plant = source.default_plant;
          orders = source.orders;
          machine_schedules = map view world.machine_results.rows;
          bom = source.bom;
          part_baselines = source.part_baselines;
          calendar_table = source.calendar_table;
        })
        (record { assembly_times = world.assembly_times; part_results = world.part_results }) id
        machine_id
      >>= λ built. ok (
        built.0,
        record world {
          assembly_times = built.1.assembly_times;
          part_results = built.1.part_results;
        },
      )

  -- The order that the check refuses.
  unfoldable pub refuse : ℕ → CheckResult → World S → Result (Outcome × World S)
  unfolding record_precheck_issue
  refuse id result world = record_precheck_issue source.orders id result world >>= λ recorded.
      with_snapshots recorded
        (service.refresh_one id (codes "precheck_failed:" ++ status_text result.status) recorded)
      >>= λ after. ok (refused id result, after)

  -- From the machine's schedule on.
  unfoldable pub schedule_parts :
      ℕ → Option MachineScheduleResult × World S → Result (Outcome × World S)
  unfolding record_machine_schedule_default_issues build_parts record_part_schedule_default_issues
  schedule_parts id (none, world) =
      with_snapshots world (service.refresh_one id (codes "machine_schedule_build_failed") world)
      >>= λ after. ok (no_machine_schedule id, after)
  schedule_parts id (some machine, world) =
      record_machine_schedule_default_issues machine world >>= λ recorded.
      build_parts id machine.id recorded.1 >>= λ built.
      record_part_schedule_default_issues recorded.0 built.0 built.1 >>= λ marked.
      with_snapshots marked.2 (service.mark_scheduled id machine.id marked.2) >>= λ after.
      ok (scheduled id marked.0 marked.1, after)

  unfoldable pub schedule_checked : ℕ → World S → CheckResult → Result (Outcome × World S)
  unfolding refuse build_machine schedule_parts
  schedule_checked id world result =
      if result.is_schedulable
      then (build_machine id world >>= schedule_parts id)
      else refuse id result world

  unfoldable pub schedule_order : ℕ → World S → Result (Outcome × World S)
  unfolding check_order_line schedule_checked
  schedule_order id world = check_order_line id >>= schedule_checked id world

  -- One order of the batch, in a savepoint.
  unfoldable pub add_order :
      BatchResult × World S → ℕ → Result (Outcome × World S) → BatchResult × World S
  add_order (batch, world) id (ok (outcome, after)) = (
    record batch {
      scheduled_count =
          if is_success outcome then batch.scheduled_count + 1 else batch.scheduled_count;
      failed_count = if is_success outcome then batch.failed_count else batch.failed_count + 1;
      results = batch.results ++ finished outcome ∷ [];
    },
    after,
  )
  add_order (batch, world) id (err exception) = (
    record batch {
      failed_count = batch.failed_count + 1;
      results = batch.results ++ failed_with id exception ∷ [];
    },
    world,
  )

  unfoldable pub schedule_orders : BatchResult × World S → List ℕ → BatchResult × World S
  unfolding add_order schedule_order
  schedule_orders state [] = state
  schedule_orders (batch, world) (id ∷ ids) =
      schedule_orders (add_order (batch, world) id (schedule_order id world)) ids

  unfoldable pub schedule_batch : List ℕ → World S → BatchResult × World S
  unfolding schedule_orders
  schedule_batch ids world =
      schedule_orders
        (record { total = length ids; scheduled_count = 0; failed_count = 0; results = [] }, world)
        ids
