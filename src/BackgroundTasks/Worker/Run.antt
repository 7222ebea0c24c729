-- ===== src/BackgroundTasks/Worker/Run.antt =====
-- background_task_worker_service.py: claiming, starting, running and finishing a task.
use auto_scheduling_system.Prelude.{
  ℕ, Bool, true, false, Option, none, some, List, ◌++◌, if◌then◌else◌, Text, codes, text_eq,
}
use auto_scheduling_system.SyncJobs.{Time, JobStatus, SyncJobLog, touch_sync_job}
use auto_scheduling_system.SyncJobs as SyncJobs
use auto_scheduling_system.BackgroundTasks.{
  TaskStatus, is_running, BackgroundTask, Tables, Settings,
}
use auto_scheduling_system.BackgroundTasks.Table.{job_link, get_task, change_task, change_job}
use auto_scheduling_system.BackgroundTasks.Repo.{claim_available}
use auto_scheduling_system.BackgroundTasks.Worker.Failure.{
  TaskException, value_error, build_task_failure_message, mark_task_failed,
}

unfoldable pub claim_once :
    (locked : ℕ → Bool) → Time → Text → ℕ → Tables → List BackgroundTask × Tables
claim_once locked now worker_id limit s =
    let (claimed, tasks) = claim_available locked now worker_id limit s.tasks in
    (claimed, record s { tasks = tasks })

-- The row of `id`, if it is running.
unfoldable pub running_task : ℕ → Tables → Option BackgroundTask
running_task id s = elim (get_task id s.tasks) [
  | none ↦ none
  | some task ↦ if is_running task.status then some task else none
]

pub record ExecutionContext : Type 0 where
  pub task_id : ℕ
  pub task_type : Text
  pub payload : Option Text
  pub sync_job_log_id : Option ℕ

unfoldable pub load_task_execution_context : ℕ → Tables → Option ExecutionContext
unfolding running_task
load_task_execution_context id s = elim (running_task id s) [
  | none ↦ none
  | some task ↦ some (record {
    task_id = task.id;
    task_type = task.task_type;
    payload = task.payload;
    sync_job_log_id = task.sync_job_log_id;
  })
]

abbrev pub start_task : Text → Time → BackgroundTask → BackgroundTask
start_task worker_id now task = record task { started_at = some now; worker_id = some worker_id }

-- A job's `start_time` is never null.
abbrev pub start_job : Time → SyncJobLog → SyncJobLog
start_job now job = record job { status = JobStatus.running; heartbeat_at = some now }

unfoldable pub mark_task_started : Text → Time → ℕ → Tables → Tables
unfolding get_task running_task
mark_task_started worker_id now id s = elim (running_task id s) [
  | none ↦ s
  | some task ↦
      change_job (job_link task.sync_job_log_id) (start_job now)
        (change_task id (start_task worker_id now) s)
]

-- `task.worker_id == self.worker_id`
abbrev pub is_owned_by : Text → BackgroundTask → Bool
is_owned_by worker_id task = elim task.worker_id [ none ↦ false | some w ↦ text_eq w worker_id ]

unfoldable pub verify_task_ownership : Text → ℕ → Tables → Bool
unfolding get_task running_task
verify_task_ownership worker_id id s = elim (running_task id s) [
  | none ↦ false
  | some task ↦ elim task.worker_id [ none ↦ true | some w ↦ text_eq w worker_id ]
]

abbrev pub succeed_task : Time → BackgroundTask → BackgroundTask
succeed_task now task = record task {
  status = TaskStatus.succeeded;
  finished_at = some now;
  last_error = none;
}

-- `_mark_task_succeeded`. The task's status and owner are not read.
unfoldable pub mark_task_succeeded : Time → ℕ → Tables → Tables
unfolding get_task
mark_task_succeeded now id s = elim (get_task id s.tasks) [
  | none ↦ s
  | some _ ↦ change_task id (succeed_task now) s
]

abbrev pub beat_task : Time → BackgroundTask → BackgroundTask
beat_task now task = record task { claimed_at = some now }

abbrev pub beat_job : Time → SyncJobLog → SyncJobLog
beat_job now job = if SyncJobs.is_running job.status then touch_sync_job now job else job

-- One round of `_heartbeat_loop`: whether the loop goes on, and the tables.
unfoldable pub heartbeat : Text → Time → ℕ → Tables → Bool × Tables
unfolding get_task running_task touch_sync_job
heartbeat worker_id now id s = elim (running_task id s) [
  | none ↦ (false, s)
  | some task ↦
      if is_owned_by worker_id task
      then (
        true,
        change_job (job_link task.sync_job_log_id) (beat_job now)
            (change_task id (beat_task now) s),
      )
      else (false, s)
]

-- What a task's body does: the tables after it, and the exception that it raises, if any.
abbrev pub Body : Type 0
Body = ExecutionContext → Tables → Option TaskException × Tables

-- The bodies, `_execute_sales_plan` and so on.
pub record Handlers : Type 0 where
  pub sales_plan : Body
  pub bom : Body
  pub production_orders : Body
  pub part_cycle_baseline_rebuild : Body
  pub research : Body
  pub snapshot_reconcile : Body
  pub bom_backfill_queue_consume : Body

unfoldable pub execute_by_type : Handlers → Body
execute_by_type h context s =
    let t = context.task_type in
    if text_eq t (codes "sales_plan_sync")
    then h.sales_plan context s
    else if text_eq t (codes "bom_sync")
    then h.bom context s
    else if text_eq t (codes "production_order_sync")
    then h.production_orders context s
    else if text_eq t (codes "part_cycle_baseline_rebuild")
    then h.part_cycle_baseline_rebuild context s
    else if text_eq t (codes "research_sync")
    then h.research context s
    else if text_eq t (codes "schedule_snapshot_reconcile")
    then h.snapshot_reconcile context s
    else if text_eq t (codes "bom_backfill_queue_consume")
    then h.bom_backfill_queue_consume context s
    else (some (value_error (codes "Unsupported background task type: " ++ t)), s)

-- `execute_task` where no other worker comes between, at one reading of the clock.
unfoldable pub execute_task : Settings → Text → Time → Handlers → ℕ → Tables → Tables
unfolding load_task_execution_context mark_task_started verify_task_ownership execute_by_type
    mark_task_succeeded mark_task_failed
execute_task settings worker_id now h id s = elim (load_task_execution_context id s) [
  | none ↦ s
  | some context ↦
      let started = mark_task_started worker_id now id s in
      if verify_task_ownership worker_id id started
      then (let (raised, done) = execute_by_type h context started in
          elim raised [
            | none ↦ mark_task_succeeded now id done
            | some exc ↦
                mark_task_failed settings now id
                  (build_task_failure_message id context.task_type exc) done
          ])
      else started
]
