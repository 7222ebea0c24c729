-- ===== src/Lib.antt =====
-- The scheduling back end of the repository: services/api/app, in Python.
--
-- An order line of the sales plan is scheduled backwards from its confirmed delivery date. The
-- scheduler checks that the order is schedulable, subtracts work days to get the dates of the whole
-- machine, finds the assemblies and the self-made parts of the order's BOM, and subtracts their
-- times in turn. Long-running work (synchronisation with outer systems, baseline rebuilds, the
-- reconciliation of snapshots) goes through a table of background tasks that workers claim.
--
-- Files and code:
--   Prelude, Prelude/*: shared names, lists, texts as code points, signed integers, sorting,
--     Python's exceptions as values.
--   Calendar, Calendar/*: common/calendar_utils.py (_is_workday, subtract_workdays, add_workdays).
--     The loop runs on the rounds that MAX_WORKDAY_ITERATIONS leaves, so it needs no other fuel.
--   SyncJobs: sync/sync_support_utils.py, the log of sync jobs.
--   BackgroundTasks: models/background_task.py. BackgroundTasks/Repo:
--     repository/background_task_repo.py. BackgroundTasks/Dispatch:
--     services/background_task_dispatch_service.py. BackgroundTasks/Worker/*:
--     services/background_task_worker_service.py; each operation that commits its own session is a
--     function on the tables, and BackgroundTasks/History is any sequence of these operations and of
--     enqueues, whose look-up may be older than their insert. BackgroundTasks/Keys, /Claim, /Order,
--     /Attempts, /Active, /Overtaken, /Dedupe, /Ownership, /Requeue, /Recovery: proofs.
--   HttpClient: integration/http_client.py, with the network's replies and the `is_success` of httpx
--     as arguments; a check of the circuit and a record of a result each read the clock.
--     HttpClient/Breaker, /Attempts, /Requests: proofs.
--   Orchestrator, Orchestrator/Runs, /Validation: scheduler/schedule_orchestrator.py.
--     Orchestrator/Payloads, /Marks, /Warnings: its helpers in
--     scheduler/schedule_orchestrator_helpers.py. The service that refreshes snapshots is an
--     interface. Orchestrator/Batch, /Passed, /FirstWarning: proofs.
--   DataIssues: models/data_issue.py, repository/data_issue_repo.py. DataIssues/Links, /Rows,
--     /Upsert: proofs.
--   MachineSchedules: models/machine_schedule_result.py, repository/machine_schedule_result_repo.py
--     and scheduler/machine_schedule_service.py. MachineSchedules/Rows, /Build: proofs.
--   BomBackfill: models/bom_backfill_queue.py. BomBackfill/Repo: the queries of
--     repository/bom_backfill_queue_repo.py. BomBackfill/Enqueue, /Failure, /Consume, /Service:
--     sync/bom_backfill_queue_service.py, with the queue's writes of sync/bom_sync_service.py.
--     BomBackfill/Messages: the queue's part of sync/sync_job_message_templates.py. The chunks of a
--     run are on as much fuel as there are items, each chunk having one at least. /Retries,
--     /Waiting, /Due, /Quiet, /Stuck, /Batches, /Counts: proofs.
--   TextParse, TextParse/*: common/text_parse_utils.py. Bom: models/bom_relation.py,
--     repository/bom_relation_repo.py, common/plant_utils.py.
--   Assemblies/Repo: models/assembly_time.py, repository/assembly_time_repo.py.
--     Assemblies/Defaults: baseline/assembly_time_default_service.py. Assemblies:
--     scheduler/assembly_identify_service.py; entities held by the session are rows by id.
--   KeyParts/Baselines: the look-ups of repository/part_cycle_baseline_repo.py. KeyParts/Tree: the
--     recursive walk of scheduler/key_part_identify_service.py, on as much fuel as there are rows
--     and one, since no path visits a material twice. KeyParts/Matching, KeyParts: the rest of
--     that service. KeyParts/Visits, /Nodes, /Cycles, /Longest, /Exact, /Grouped: proofs.
--   MachineCycles/Baselines: the look-ups of repository/machine_cycle_baseline_repo.py.
--     MachineCycles: _get_machine_cycle of scheduler/schedule_check_service.py, with Python's float
--     arithmetic as a parameter. MachineCycles/Deactivation: deactivate_duplicate_active_rows of
--     that repository. MachineCycles/Nearest, /Distinct, /Duplicates, /Kept: proofs.
--   Orders: models/sales_plan.py, models/work_calendar.py, repository/work_calendar_repo.py.
--   ScheduleCheck: scheduler/schedule_check_service.py and
--     services/schedule_constraint_read_service.py. ScheduleCheck/Verdict: proofs.
--   PartSchedule/Rows, PartSchedule: scheduler/part_schedule_service.py, with the tables of
--     models/part_schedule_result.py and models/machine_schedule_result.py.
--     PartSchedule/Backward, /Replace: proofs.
--
-- Conventions. A table is the list of its rows in insertion order, and a query is a filter or a
-- sort of it; two tables' rows are found by id. Within one operation the clock is read once. A time
-- is in microseconds, a date is its ordinal, a Decimal of the database is the integer of its
-- ten-thousandths. A text is the list of its code points.
--
-- Not modelled: logging and metrics, the clients of outer systems, HTTP routers, sessions'
-- connection handling, the polling loop of the worker, whose rounds are the operations in
-- BackgroundTasks/History, and the parts named below each file. The bodies of the background tasks
-- are arguments.
pub mod Prelude
pub mod Calendar
pub mod TextParse
pub mod Bom
pub mod Assemblies
pub mod KeyParts
pub mod MachineCycles
pub mod Orders
pub mod BomBackfill
pub mod DataIssues
pub mod HttpClient
pub mod MachineSchedules
pub mod Orchestrator
pub mod ScheduleCheck
pub mod PartSchedule
pub mod SyncJobs
pub mod BackgroundTasks
