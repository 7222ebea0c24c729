-- ===== src/BackgroundTasks.antt =====
-- services/api/app/models/background_task.py: the task queue's rows, and the tables that the queue's
-- code reads and writes. The repository, the dispatcher and the worker are the children.
-- Times are as in `SyncJobs`; an operation reads `utc_now()` once, as `now`. A JSON payload is kept
-- as its text.
pub mod Table
pub mod Repo
pub mod Dispatch
pub mod Worker
pub mod History
pub mod Keys
pub mod Claim
pub mod Order
pub mod Attempts
pub mod Active
pub mod Overtaken
pub mod Dedupe
pub mod Ownership
pub mod Requeue
pub mod Recovery
mod Tests
use auto_scheduling_system.Prelude.{ℕ, Bool, true, false, Option, none, some, List, max, Text, ◌||◌}
use auto_scheduling_system.SyncJobs.{Time, SyncJobLog}

pub data TaskStatus : Type 0 where
  pending running succeeded failed : TaskStatus

abbrev pub is_pending : TaskStatus → Bool
is_pending TaskStatus.pending = true
is_pending _ = false

abbrev pub is_running : TaskStatus → Bool
is_running TaskStatus.running = true
is_running _ = false

-- `status in (PENDING, RUNNING)`
abbrev pub is_active : TaskStatus → Bool
is_active TaskStatus.pending = true
is_active TaskStatus.running = true
is_active TaskStatus.succeeded = false
is_active TaskStatus.failed = false

pub record BackgroundTask : Type 0 where
  pub id : ℕ
  pub task_type : Text
  pub status : TaskStatus
  pub source : Text
  pub reason : Option Text
  pub dedupe_key : Option Text
  pub payload : Option Text
  pub sync_job_log_id : Option ℕ
  pub attempt_count : ℕ
  pub max_attempts : ℕ
  pub available_at : Time
  pub claimed_at : Option Time
  pub started_at : Option Time
  pub finished_at : Option Time
  pub worker_id : Option Text
  pub last_error : Option Text
  pub dead_at : Option Time

-- The two tables, and the next ids that the database gives.
pub record Tables : Type 0 where
  pub tasks : List BackgroundTask
  pub jobs : List SyncJobLog
  pub next_task_id : ℕ
  pub next_job_id : ℕ

-- The settings that the queue reads; the backoff is in microseconds, since it is a float of seconds.
pub record Settings : Type 0 where
  pub default_max_attempts : ℕ
  pub retry_backoff : Time
  pub claim_timeout_seconds : ℕ
  pub job_timeout_seconds : ℕ

-- `int(task.max_attempts or 1)`, which is 1 or more for every number that is not negative.
abbrev pub attempts_allowed : BackgroundTask → ℕ
attempts_allowed task = max task.max_attempts 1
