-- ===== src/BackgroundTasks/History.antt =====
-- Any number of workers and callers, as a sequence of operations. Those of the worker commit each by
-- itself. `enqueue` looks for an active task of the key and inserts without a lock or a unique index
-- in between, and its caller commits later: its event is the insert, and has the rows that the
-- caller's transaction saw when it looked, which other callers may have added to since.
use auto_scheduling_system.Prelude.{ℕ, Bool, List, [], ◌∷◌, Text}
use auto_scheduling_system.SyncJobs.{Time}
use auto_scheduling_system.BackgroundTasks.{BackgroundTask, Tables, Settings}
use auto_scheduling_system.BackgroundTasks.Repo.{get_active_by_dedupe_key}
use auto_scheduling_system.BackgroundTasks.Dispatch.{TaskRequest, enqueue_after}
use auto_scheduling_system.BackgroundTasks.Worker.{
  claim_once, mark_task_started, mark_task_succeeded, mark_task_failed, heartbeat,
  recover_stale_tasks,
}

pub data Event : Type 0 where
  enqueued : (seen : List BackgroundTask) → Time → TaskRequest → Event
  claimed : (locked : ℕ → Bool) → Time → (worker_id : Text) → (limit : ℕ) → Event
  started beat : (worker_id : Text) → Time → (id : ℕ) → Event
  succeeded : Time → (id : ℕ) → Event
  failed : Time → (id : ℕ) → (message : Text) → Event
  recovered : Time → Event

module _ (settings : Settings) where
  unfoldable pub step : Event → Tables → Tables
  step (enqueued seen now request) s =
      (enqueue_after settings now request (get_active_by_dedupe_key request.dedupe_key seen) s).1
  step (claimed locked now worker_id limit) s = (claim_once locked now worker_id limit s).1
  step (started worker_id now id) s = mark_task_started worker_id now id s
  step (beat worker_id now id) s = (heartbeat worker_id now id s).1
  step (succeeded now id) s = mark_task_succeeded now id s
  step (failed now id message) s = mark_task_failed settings now id message s
  step (recovered now) s = (recover_stale_tasks settings now s).1

  unfoldable pub run : List Event → Tables → Tables
  unfolding step
  run [] s = s
  run (e ∷ es) s = run es (step e s)
