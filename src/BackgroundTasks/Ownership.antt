-- ===== src/BackgroundTasks/Ownership.antt =====
-- Which worker a running task belongs to (background_task_worker_service.py).
use auto_scheduling_system.Prelude.{
  ℕ, ◌+◌, ◌<◌, ◌≡◌, refl, true, false, some, arith, Text, text_eq_refl,
}
use auto_scheduling_system.SyncJobs.{Time}
use auto_scheduling_system.BackgroundTasks.{is_running, BackgroundTask, Tables, Settings}
use auto_scheduling_system.BackgroundTasks.Table.{
  job_link, get_task, change_task, change_job, get_task-update_task,
}
use auto_scheduling_system.BackgroundTasks.Repo.{is_stale}
use auto_scheduling_system.BackgroundTasks.Worker.{
  running_task, mark_task_started, start_task, start_job, verify_task_ownership, heartbeat,
  beat_task, is_owned_by, claim_timeout,
}

running_task_of :
    (id : ℕ) (s : Tables) {t : BackgroundTask}
    → get_task id s.tasks ≡ some t
    → is_running t.status ≡ true
    → running_task id s ≡ some t
unfolding running_task
running_task_of id s e r = rw (e, running_task) (rw r)

-- Where a task is running, the worker that marks it as started passes the ownership test, also
-- where another worker had claimed the task in between.
pub verify_task_ownership-mark_task_started :
    (worker_id : Text) (now : Time) (id : ℕ) (s : Tables) {t : BackgroundTask}
    → get_task id s.tasks ≡ some t
    → is_running t.status ≡ true
    → verify_task_ownership worker_id id (mark_task_started worker_id now id s) ≡ true
unfolding verify_task_ownership mark_task_started
verify_task_ownership-mark_task_started worker_id now id s {t} e r =
    let start = start_task worker_id now in
    let row = get_task-update_task id start s.tasks (λ _. refl) e in
    let after = change_job (job_link t.sync_job_log_id) (start_job now) (change_task id start s) in
    let found : running_task id after ≡ some (start t) = running_task_of id after row r in
    rw (running_task_of id s e r, mark_task_started)
      (rw (found, verify_task_ownership) (text_eq_refl worker_id))

-- A heartbeat of the worker that owns a running task succeeds, and keeps the task from being stale
-- until the claim timeout has passed since the heartbeat; every other worker's heartbeat on a
-- running task ends its loop and changes nothing.
pub heartbeat_lem :
    (settings : Settings) (worker_id : Text) (now later : Time) (id : ℕ) (s : Tables)
    {t : BackgroundTask}
    → get_task id s.tasks ≡ some t
    → is_running t.status ≡ true
    → later < now + claim_timeout settings
    → (is_owned_by worker_id t ≡ true
        → ((heartbeat worker_id now id s).0 ≡ true)
          × (u : BackgroundTask) × (get_task id (heartbeat worker_id now id s).1.tasks ≡ some u)
          × (is_stale (claim_timeout settings) later u ≡ false))
      × (is_owned_by worker_id t ≡ false → heartbeat worker_id now id s ≡ (false, s))
unfolding heartbeat
heartbeat_lem settings worker_id now later id s {t} e r soon = (
  λ o.
      rw (running_task_of id s e r, heartbeat)
        (rw o (
          refl,
          beat_task now t,
          get_task-update_task id (beat_task now) s.tasks (λ _. refl) e,
          ground arith,
        )),
  λ o. rw (running_task_of id s e r, heartbeat) (rw o),
)
