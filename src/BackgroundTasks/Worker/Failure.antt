-- ===== src/BackgroundTasks/Worker/Failure.antt =====
-- background_task_worker_service.py: stale tasks and failed tasks go back to the queue or end.
use auto_scheduling_system.Prelude.{
  ℕ, ◌+◌, Bool, none, some, List, [], ◌∷◌, ◌++◌, max, ltb, if◌then◌else◌, Text, codes, contains,
  show_nat, length,
}
use auto_scheduling_system.SyncJobs.{
  Time, seconds, JobStatus, SyncJobLog, no_result, record_fail, finish_sync_job, append_note,
}
use auto_scheduling_system.BackgroundTasks.{
  TaskStatus, BackgroundTask, Tables, Settings, attempts_allowed,
}
use auto_scheduling_system.BackgroundTasks.Table.{job_link, get_task, change_task, change_job}
use auto_scheduling_system.BackgroundTasks.Repo.{list_stale_running}

-- `attempts < max_attempts`
abbrev pub is_retryable : BackgroundTask → Bool
is_retryable task = ltb task.attempt_count (attempts_allowed task)

-- What `recover_stale_tasks` and `_mark_task_failed` write to a task that is tried again.
abbrev pub requeue : Time → Text → BackgroundTask → BackgroundTask
requeue available_at note task = record task {
  status = TaskStatus.pending;
  available_at = available_at;
  claimed_at = none;
  started_at = none;
  worker_id = none;
  last_error = some note;
}

-- What they write to one that has no attempt left.
abbrev pub bury : Time → Text → BackgroundTask → BackgroundTask
bury now note task = record task {
  status = TaskStatus.failed;
  finished_at = some now;
  dead_at = some now;
  last_error = some note;
}

-- A job whose task is tried again.
abbrev pub requeue_job : Time → Text → SyncJobLog → SyncJobLog
requeue_job now message job = record job {
  status = JobStatus.queued;
  heartbeat_at = some now;
  message = some message;
}

-- `result.record_fail()` and `finish_sync_job`.
abbrev pub fail_job : Time → Text → SyncJobLog → SyncJobLog
fail_job now message job = finish_sync_job now job (record_fail no_result) message

unfoldable pub recovery_note : BackgroundTask → Text
recovery_note task =
    codes "后台任务认领超时已回收：task_id="
    ++ (show_nat task.id
        ++ (codes "; task_type="
            ++ (task.task_type
                ++ (codes "; worker_id="
                    ++ (elim task.worker_id [ none ↦ codes "unknown" | some w ↦ w ]
                        ++ (codes "; attempt="
                            ++ (show_nat task.attempt_count
                                ++ (codes "/"
                                    ++ (show_nat (attempts_allowed task)
                                        ++ (codes "; action="
                                            ++ (if is_retryable task
                                                then codes "requeue"
                                                else codes "fail")))))))))))

-- `max(settings.sync_task_retry_backoff_seconds, 10)`, and with 1 in `_mark_task_failed`.
abbrev pub cooldown : Settings → Time
cooldown settings = max settings.retry_backoff (seconds 10)

abbrev pub backoff : Settings → Time
backoff settings = max settings.retry_backoff (seconds 1)

-- The task's part of one round of the loop in `recover_stale_tasks`.
unfoldable pub recover_task : Settings → Time → BackgroundTask → BackgroundTask
recover_task settings now task =
    if is_retryable task
    then requeue (now + cooldown settings) (recovery_note task) task
    else bury now (recovery_note task) task

-- The job's part.
unfoldable pub recover_job : Time → BackgroundTask → SyncJobLog → SyncJobLog
recover_job now task job =
    if is_retryable task
    then requeue_job now (append_note job.message (recovery_note task)) job
    else fail_job now (recovery_note task) job

-- One round.
abbrev pub recover_one : Settings → Time → BackgroundTask → Tables → Tables
recover_one settings now task s =
    change_job (job_link task.sync_job_log_id) (recover_job now task)
      (change_task task.id (recover_task settings now) s)

unfoldable pub recover_loop : Settings → Time → List BackgroundTask → Tables → Tables
unfolding recover_task recover_job
recover_loop settings now [] s = s
recover_loop settings now (task ∷ stale) s =
    recover_loop settings now stale (recover_one settings now task s)

-- `max(settings.sync_task_claim_timeout_seconds, 1)`
abbrev pub claim_timeout : Settings → Time
claim_timeout settings = seconds (max settings.claim_timeout_seconds 1)

-- The number recovered, and the tables.
unfoldable pub recover_stale_tasks : Settings → Time → Tables → ℕ × Tables
unfolding recover_loop
recover_stale_tasks settings now s =
    let stale = list_stale_running (claim_timeout settings) now s.tasks in
    (length stale, recover_loop settings now stale s)

unfoldable pub fail_task : Settings → Time → Text → BackgroundTask → BackgroundTask
fail_task settings now message task =
    if is_retryable task
    then requeue (now + backoff settings) message task
    else bury now message task

unfoldable pub fail_task_job : Time → Text → BackgroundTask → SyncJobLog → SyncJobLog
fail_task_job now message task job =
    if is_retryable task then requeue_job now message job else fail_job now message job

-- `_mark_task_failed`. The task's status and owner are not read.
unfoldable pub mark_task_failed : Settings → Time → ℕ → Text → Tables → Tables
unfolding fail_task fail_task_job get_task
mark_task_failed settings now id message s = elim (get_task id s.tasks) [
  | none ↦ s
  | some task ↦
      change_job (job_link task.sync_job_log_id) (fail_task_job now message task)
        (change_task id (fail_task settings now message) s)
]

pub data ErrorCode : Type 0 where
  success param_error not_found biz_validation_failed external_api_failed : ErrorCode
  db_error schedule_calc_failed export_failed : ErrorCode

-- The exceptions that `_classify_task_exception` tells apart, with their text.
pub data TaskException : Type 0 where
  biz_exception : ErrorCode → Text → TaskException
  timeout request_error value_error other : Text → TaskException

unfoldable pub classify_task_exception : TaskException → Text
classify_task_exception (biz_exception ErrorCode.param_error _) = codes "param_error"
classify_task_exception (biz_exception ErrorCode.not_found _) = codes "not_found"
classify_task_exception (biz_exception ErrorCode.biz_validation_failed _) =
    codes "biz_validation_failed"
classify_task_exception (biz_exception ErrorCode.external_api_failed _) =
    codes "external_api_failed"
classify_task_exception (biz_exception ErrorCode.db_error _) = codes "db_error"
classify_task_exception (biz_exception ErrorCode.schedule_calc_failed _) =
    codes "schedule_calc_failed"
classify_task_exception (biz_exception ErrorCode.export_failed _) = codes "export_failed"
classify_task_exception (biz_exception ErrorCode.success _) = codes "biz_exception"
classify_task_exception (timeout _) = codes "timeout"
classify_task_exception (request_error _) = codes "external_request_error"
classify_task_exception (value_error text) =
    if contains text (codes "Unsupported background task type")
    then codes "unsupported_task_type"
    else codes "unexpected_error"
classify_task_exception (other _) = codes "unexpected_error"

-- `str(exc)`
abbrev pub exception_text : TaskException → Text
exception_text (biz_exception _ text) = text
exception_text (timeout text) = text
exception_text (request_error text) = text
exception_text (value_error text) = text
exception_text (other text) = text

unfoldable pub build_task_failure_message : ℕ → Text → TaskException → Text
unfolding classify_task_exception
build_task_failure_message task_id task_type exc =
    codes "task_id="
    ++ (show_nat task_id
        ++ (codes "; task_type="
            ++ (task_type
                ++ (codes "; stage=execute_task; failure_kind="
                    ++ (classify_task_exception exc ++ (codes "; error=" ++ exception_text exc))))))
