-- ===== src/SyncJobs.antt =====
-- services/api/app/sync/sync_support_utils.py and models/sync_job_log.py: the log of sync jobs.
-- A time is in microseconds since `datetime.min`. An operation reads `utc_now()` once, as `now`.
-- `session.get` looks a row up by its id; the rows stand in insertion order.
use auto_scheduling_system.Prelude.{
  ℕ, ◌+◌, ◌*◌, Bool, true, false, ◌&&◌, ◌||◌, Option, none, some, List, [], ◌∷◌, ◌++◌, map, max,
  leb, ◌==◌, if◌then◌else◌, Text, codes, text_eq, is_empty, or_empty, show_nat, where_true,
}

abbrev pub Time : Type 0
Time = ℕ

-- `timedelta(seconds=n)`
abbrev pub seconds : ℕ → Time
seconds n = n * 1000000

pub data JobStatus : Type 0 where
  queued running completed completed_with_errors failed : JobStatus

abbrev pub is_queued : JobStatus → Bool
is_queued JobStatus.queued = true
is_queued _ = false

abbrev pub is_running : JobStatus → Bool
is_running JobStatus.running = true
is_running _ = false

pub record SyncJobLog : Type 0 where
  pub id : ℕ
  pub job_type : Text
  pub source_system : Text
  pub start_time : Time
  pub end_time : Option Time
  pub status : JobStatus
  pub success_count : ℕ
  pub fail_count : ℕ
  pub operator_name : Option Text
  pub timeout_seconds : ℕ
  pub heartbeat_at : Option Time
  pub recovered_at : Option Time
  pub recovery_note : Option Text
  pub message : Option Text

pub record SyncResult : Type 0 where
  pub success_count : ℕ
  pub fail_count : ℕ
  pub insert_count : ℕ
  pub update_count : ℕ
  pub issue_count : ℕ

abbrev pub no_result : SyncResult
no_result = record {
  success_count = 0;
  fail_count = 0;
  insert_count = 0;
  update_count = 0;
  issue_count = 0;
}

abbrev pub record_insert : SyncResult → SyncResult
record_insert r = record r {
  success_count = r.success_count + 1;
  insert_count = r.insert_count + 1;
}

abbrev pub record_update : SyncResult → SyncResult
record_update r = record r {
  success_count = r.success_count + 1;
  update_count = r.update_count + 1;
}

abbrev pub record_fail : SyncResult → SyncResult
record_fail r = record r { fail_count = r.fail_count + 1 }

abbrev pub record_issue : SyncResult → SyncResult
record_issue r = record r { issue_count = r.issue_count + 1 }

-- `_resolve_timeout_seconds`, with `settings.sync_job_timeout_seconds`.
unfoldable pub resolve_timeout_seconds : (default_timeout : ℕ) → Option ℕ → ℕ
resolve_timeout_seconds default_timeout none = max default_timeout 1
resolve_timeout_seconds default_timeout (some n) = max n 1

-- What `start_sync_job` adds, under the id that the database gives.
unfoldable pub start_sync_job :
    (default_timeout : ℕ) (now : Time) (id : ℕ) (job_type source_system : Text)
    → Option Text
    → Option ℕ
    → SyncJobLog
unfolding resolve_timeout_seconds
start_sync_job default_timeout now id job_type source_system operator_name timeout_seconds =
    record {
      id = id;
      job_type = job_type;
      source_system = source_system;
      start_time = now;
      end_time = none;
      status = JobStatus.running;
      success_count = 0;
      fail_count = 0;
      operator_name = operator_name;
      timeout_seconds = resolve_timeout_seconds default_timeout timeout_seconds;
      heartbeat_at = some now;
      recovered_at = none;
      recovery_note = none;
      message = none;
    }

unfoldable pub touch_sync_job : Time → SyncJobLog → SyncJobLog
touch_sync_job now job = record job { heartbeat_at = some now }

unfoldable pub finish_sync_job : Time → SyncJobLog → SyncResult → Text → SyncJobLog
finish_sync_job now job result message = record job {
  end_time = some now;
  heartbeat_at = some now;
  status = if result.fail_count == 0 then JobStatus.completed else JobStatus.completed_with_errors;
  success_count = result.success_count;
  fail_count = result.fail_count;
  message = some message;
}

-- `job.heartbeat_at or job.start_time`
abbrev pub last_active_at : SyncJobLog → Time
last_active_at job = elim job.heartbeat_at [ some t ↦ t | none ↦ job.start_time ]

unfoldable pub is_sync_job_stale : (default_timeout : ℕ) → Time → SyncJobLog → Bool
unfolding resolve_timeout_seconds
is_sync_job_stale default_timeout now job =
    is_running job.status
    && leb
        (last_active_at job
          + seconds (resolve_timeout_seconds default_timeout (some job.timeout_seconds)))
        now

-- `note` if there is no message, or the message, a line break and the note.
abbrev pub append_note : Option Text → Text → Text
append_note message note =
    if is_empty (or_empty message) then note else or_empty message ++ 10 ∷ note

unfoldable pub mark_sync_job_recovered : Time → Text → SyncJobLog → SyncJobLog
mark_sync_job_recovered now note job = record job {
  end_time = some now;
  heartbeat_at = some now;
  recovered_at = some now;
  recovery_note = some note;
  status = JobStatus.failed;
  message = some (append_note job.message note);
}

timeout_note : Text → Text → ℕ → Text
timeout_note job_type source_system timeout_seconds =
    codes "任务因心跳超时被自动回收：job_type="
    ++ (job_type
        ++ (codes ", source_system="
            ++ (source_system ++ (codes ", timeout_seconds=" ++ show_nat timeout_seconds))))

-- A job of the given type and source system.
abbrev pub is_of : Text → Text → SyncJobLog → Bool
is_of job_type source_system job =
    text_eq job.job_type job_type && text_eq job.source_system source_system

-- One row of the loop in `recover_stale_sync_jobs`: the query's condition, then the test.
unfoldable pub recover_row : (default_timeout : ℕ) → Time → Text → Text → SyncJobLog → SyncJobLog
unfolding timeout_note mark_sync_job_recovered is_sync_job_stale resolve_timeout_seconds
recover_row default_timeout now job_type source_system job =
    if is_of job_type source_system job
      && (is_running job.status && is_sync_job_stale default_timeout now job)
    then mark_sync_job_recovered now
        (timeout_note job_type source_system
          (resolve_timeout_seconds default_timeout (some job.timeout_seconds)))
        job
    else job

-- The rows after `recover_stale_sync_jobs`.
unfoldable pub recover_stale_sync_jobs :
    (default_timeout : ℕ) → Time → Text → Text → List SyncJobLog → List SyncJobLog
unfolding recover_row
recover_stale_sync_jobs default_timeout now job_type source_system =
    map (recover_row default_timeout now job_type source_system)

-- The row of the highest id, as `order_by(id.desc()).limit(1)` returns it.
unfoldable pub latest : List SyncJobLog → Option SyncJobLog
latest [] = none
latest (job ∷ jobs) = elim (latest jobs) [
  | none ↦ some job
  | some other ↦ if leb job.id other.id then some other else some job
]

-- The rows after the recovery, and the live job.
unfoldable pub get_running_sync_job :
    (default_timeout : ℕ)
    → Time
    → Text
    → Text
    → List SyncJobLog
    → Option SyncJobLog × List SyncJobLog
unfolding recover_stale_sync_jobs latest
get_running_sync_job default_timeout now job_type source_system jobs =
    let jobs' = recover_stale_sync_jobs default_timeout now job_type source_system jobs in
    (
      latest (
          where_true
            (λ job.
              is_of job_type source_system job && (is_queued job.status || is_running job.status))
            jobs'),
      jobs',
    )
