-- ===== src/BackgroundTasks/Dispatch.antt =====
-- services/api/app/services/background_task_dispatch_service.py.
use auto_scheduling_system.Prelude.{
  ℕ, ◌+◌, Bool, true, false, Option, none, some, [], ◌∷◌, ◌++◌, Text,
}
use auto_scheduling_system.SyncJobs.{Time, JobStatus, SyncJobLog, resolve_timeout_seconds}
use auto_scheduling_system.BackgroundTasks.{TaskStatus, BackgroundTask, Tables, Settings}
use auto_scheduling_system.BackgroundTasks.Table.{job_link, get_job}
use auto_scheduling_system.BackgroundTasks.Repo.{get_active_by_dedupe_key}

-- `sync_job_kwargs`
pub record JobRequest : Type 0 where
  pub job_type : Text
  pub source_system : Text
  pub operator_name : Option Text
  pub timeout_seconds : Option ℕ
  pub message : Option Text

-- The arguments of `enqueue`.
pub record TaskRequest : Type 0 where
  pub task_type : Text
  pub source : Text
  pub reason : Option Text
  pub payload : Option Text
  pub dedupe_key : Option Text
  pub sync_job_kwargs : Option JobRequest
  pub max_attempts : Option ℕ

pub record Enqueued : Type 0 where
  pub task : BackgroundTask
  pub job : Option SyncJobLog
  pub created : Bool

unfoldable pub queued_job : Settings → Time → ℕ → JobRequest → SyncJobLog
unfolding resolve_timeout_seconds
queued_job settings now id request = record {
  id = id;
  job_type = request.job_type;
  source_system = request.source_system;
  start_time = now;
  end_time = none;
  status = JobStatus.queued;
  success_count = 0;
  fail_count = 0;
  operator_name = request.operator_name;
  timeout_seconds = resolve_timeout_seconds settings.job_timeout_seconds request.timeout_seconds;
  heartbeat_at = some now;
  recovered_at = none;
  recovery_note = none;
  message = request.message;
}

-- The job that `enqueue` creates, and the tables with it.
unfoldable pub create_job :
    Settings → Time → Option JobRequest → Tables → Option SyncJobLog × Tables
unfolding queued_job
create_job settings now none s = (none, s)
create_job settings now (some request) s =
    let job = queued_job settings now s.next_job_id request in
    (some job, record s { jobs = s.jobs ++ job ∷ []; next_job_id = s.next_job_id + 1 })

unfoldable pub pending_task : Settings → Time → ℕ → TaskRequest → Option SyncJobLog → BackgroundTask
pending_task settings now id request job = record {
  id = id;
  task_type = request.task_type;
  status = TaskStatus.pending;
  source = request.source;
  reason = request.reason;
  dedupe_key = request.dedupe_key;
  payload = request.payload;
  sync_job_log_id = elim job [ none ↦ none | some j ↦ some j.id ];
  attempt_count = 0;
  max_attempts = elim request.max_attempts [ none ↦ settings.default_max_attempts | some n ↦ n ];
  available_at = now;
  claimed_at = none;
  started_at = none;
  finished_at = none;
  worker_id = none;
  last_error = none;
  dead_at = none;
}

-- The branch of `enqueue` with no active task of the key.
unfoldable pub create_task : Settings → Time → TaskRequest → Tables → Enqueued × Tables
unfolding create_job pending_task
create_task settings now request s =
    let (job, s') = create_job settings now request.sync_job_kwargs s in
    let task = pending_task settings now s'.next_task_id request job in
    (
      record { task = task; job = job; created = true },
      record s' { tasks = s'.tasks ++ task ∷ []; next_task_id = s'.next_task_id + 1 },
    )

-- The rest of `enqueue`, after its look-up has given an active task of the key or none.
unfoldable pub enqueue_after :
    Settings → Time → TaskRequest → Option BackgroundTask → Tables → Enqueued × Tables
unfolding create_task
enqueue_after settings now request (some existing) s = (
  record {
    task = existing;
    job = get_job (job_link existing.sync_job_log_id) s.jobs;
    created = false;
  },
  s,
)
enqueue_after settings now request none s = create_task settings now request s

-- `enqueue` in a session that no other one comes between. Nothing locks the key, and the rows are
-- flushed: it is the caller who commits them.
unfoldable pub enqueue : Settings → Time → TaskRequest → Tables → Enqueued × Tables
unfolding enqueue_after get_active_by_dedupe_key
enqueue settings now request s =
    enqueue_after settings now request (get_active_by_dedupe_key request.dedupe_key s.tasks) s
