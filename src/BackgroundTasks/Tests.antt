-- ===== src/BackgroundTasks/Tests.antt =====
-- Runs of the task queue, and the theorems at concrete inputs.
use auto_scheduling_system.Prelude.{
  ℕ, ◌+◌, ◌≤◌, ◌≡◌, ◌⊎◌, refl, Bool, true, false, Option, none, some, List, [], ◌∷◌, ◌++◌, arith,
  Text, codes, text_eq, sort_by, All, Perm, length,
}
use auto_scheduling_system.SyncJobs.{Time}
use auto_scheduling_system.BackgroundTasks.{TaskStatus, BackgroundTask, Tables, Settings}
use auto_scheduling_system.BackgroundTasks.Table.{get_task, update_task}
use auto_scheduling_system.BackgroundTasks.Repo.{
  claim_available, claimable, is_in, is_stale, list_stale_running,
}
use auto_scheduling_system.BackgroundTasks.Dispatch.{TaskRequest, enqueue}
use auto_scheduling_system.BackgroundTasks.Worker.{
  mark_task_started, mark_task_failed, mark_task_succeeded, verify_task_ownership, heartbeat,
  recover_stale_tasks, claim_timeout, is_owned_by, claim_once,
}
use auto_scheduling_system.BackgroundTasks.History.{
  Event, enqueued, claimed, started, failed, recovered, run,
}
use auto_scheduling_system.BackgroundTasks.Keys.{IsKeyed}
use auto_scheduling_system.BackgroundTasks.Claim.{claim_available-excludes}
use auto_scheduling_system.BackgroundTasks.Order.{IsFree, AreInOrder, claimable-AreInOrder}
use auto_scheduling_system.BackgroundTasks.Requeue.{
  IsTriedAgain, mark_task_failed-claim_available, mark_task_failed-mark_task_succeeded,
}
use auto_scheduling_system.BackgroundTasks.Attempts.{IsValid, run-IsValid}
use auto_scheduling_system.BackgroundTasks.Active.{count_active}
use auto_scheduling_system.BackgroundTasks.Dedupe.{
  AllFailSettled, count_overtaken, run-count_active,
}
use auto_scheduling_system.BackgroundTasks.Ownership.{
  verify_task_ownership-mark_task_started, heartbeat_lem,
}
use auto_scheduling_system.BackgroundTasks.Recovery.{recover_stale_tasks_lem}

abbrev settings : Settings
settings = record {
  default_max_attempts = 3;
  retry_backoff = 10000000;
  claim_timeout_seconds = 7200;
  job_timeout_seconds = 7200;
}

abbrev request : TaskRequest
request = record {
  task_type = codes "bom_sync";
  source = codes "manual_api";
  reason = none;
  payload = none;
  dedupe_key = some (codes "bom");
  sync_job_kwargs = none;
  max_attempts = none;
}

abbrev empty : Tables
empty = record { tasks = []; jobs = []; next_task_id = 1; next_job_id = 1 }

abbrev row : ℕ → TaskStatus → Option Time → Option Text → ℕ → BackgroundTask
row id status claimed_at worker_id attempt_count = record {
  id = id;
  task_type = codes "bom_sync";
  status = status;
  source = codes "manual_api";
  reason = none;
  dedupe_key = none;
  payload = none;
  sync_job_log_id = none;
  attempt_count = attempt_count;
  max_attempts = 3;
  available_at = 0;
  claimed_at = claimed_at;
  started_at = none;
  finished_at = none;
  worker_id = worker_id;
  last_error = none;
  dead_at = none;
}

-- A pending task, one that worker B runs, and one that is done.
abbrev rows : List BackgroundTask
rows =
    row 1 TaskStatus.pending none none 0
    ∷ row 2 TaskStatus.running (some 5) (some (codes "B")) 1
    ∷ row 3 TaskStatus.succeeded (some 5) (some (codes "A")) 1
    ∷ []

abbrev tables : Tables
tables = record { tasks = rows; jobs = []; next_task_id = 4; next_job_id = 1 }

abbrev unlocked : ℕ → Bool
unlocked id = false

-- The second request is answered by the first one's task; the first attempt fails.
abbrev history : List Event
history =
    enqueued [] 100 request
    ∷ enqueued (enqueue settings 100 request empty).1.tasks 200 request
    ∷ claimed unlocked 300 (codes "A") 1
    ∷ started (codes "A") 400 1
    ∷ failed 500 1 (codes "timeout")
    ∷ recovered 600
    ∷ []

program : Unit {0}
unfolding run claim_once claim_available mark_task_started mark_task_failed recover_stale_tasks
    list_stale_running enqueue update_task text_eq sort_by
program = tt

run_deduped : length (run settings history empty).tasks ≡ 1
unfolding program
run_deduped = refl

run-IsValid_example : IsValid (run settings history empty)
run-IsValid_example =
    run-IsValid settings history empty (record { keyed = tt; below = tt; attempts = tt })

-- Two callers that both see no task of the key add one each.
abbrev race : List Event
race = enqueued [] 100 request ∷ enqueued [] 100 request ∷ []

run_doubled : count_active (codes "bom") (run settings race empty).tasks ≡ 2
unfolding program
run_doubled = refl

race-AllFailSettled : AllFailSettled settings race empty
race-AllFailSettled = (tt, (tt, tt))

run-count_active_example :
    count_active (codes "bom") (run settings race empty).tasks
    ≤ 1 + count_overtaken (codes "bom") refl settings race empty
run-count_active_example =
    run-count_active (codes "bom") refl settings race empty
      (record { keyed = tt; below = tt; attempts = tt }) race-AllFailSettled (omega arith)

abbrev waiting : List BackgroundTask
waiting = row 5 TaskStatus.pending none none 0 ∷ row 4 TaskStatus.pending none none 0 ∷ rows

rows-IsKeyed : IsKeyed rows
unfolding get_task
rows-IsKeyed = (refl, (refl, (refl, tt)))

-- One row is taken of two free ones, and one is left.
claimable-AreInOrder_example :
    (left : List BackgroundTask) × (others : List BackgroundTask) × Perm
      ((claimable unlocked 9 1 waiting ++ left) ++ others)
      waiting
    × All (IsFree unlocked 9) (claimable unlocked 9 1 waiting ++ left)
    × All (λ t. ¬ IsFree unlocked 9 t) others
    × AreInOrder (claimable unlocked 9 1 waiting ++ left)
    × (length (claimable unlocked 9 1 waiting) ≤ 1)
    × ((left ≡ []) ⊎ (length (claimable unlocked 9 1 waiting) ≡ 1))
claimable-AreInOrder_example = claimable-AreInOrder unlocked 9 1 waiting

claim_available-excludes_example :
    All
      (λ t. is_in (claim_available unlocked 9 (codes "A") 2 rows).0 t ≡ false)
      (claimable unlocked 11 2 (claim_available unlocked 9 (codes "A") 2 rows).1)
claim_available-excludes_example =
    claim_available-excludes unlocked unlocked 9 11 (codes "A") (codes "B") 2 2 rows rows-IsKeyed

-- Worker A starts the task that worker B has claimed.
verify_task_ownership-mark_task_started_example :
    verify_task_ownership (codes "A") 2 (mark_task_started (codes "A") 9 2 tables) ≡ true
unfolding get_task
verify_task_ownership-mark_task_started_example =
    verify_task_ownership-mark_task_started (codes "A") 9 2 tables refl refl

heartbeat_lem_example :
    (is_owned_by (codes "B") (row 2 TaskStatus.running (some 5) (some (codes "B")) 1) ≡ true
      → ((heartbeat (codes "B") 9 2 tables).0 ≡ true)
        × (u : BackgroundTask) × (get_task 2 (heartbeat (codes "B") 9 2 tables).1.tasks ≡ some u)
        × (is_stale (claim_timeout settings) 10 u ≡ false))
    × (is_owned_by (codes "B") (row 2 TaskStatus.running (some 5) (some (codes "B")) 1) ≡ false
        → heartbeat (codes "B") 9 2 tables ≡ (false, tables))
unfolding get_task
heartbeat_lem_example = heartbeat_lem settings (codes "B") 9 10 2 tables refl refl (omega arith)

tables-IsValid : IsValid tables
unfolding get_task
tables-IsValid = record {
  keyed = rows-IsKeyed;
  below = (omega arith, (omega arith, (omega arith, tt)));
  attempts = (
    record { bounded = omega arith; left = λ _. omega arith },
    (
      record { bounded = omega arith; left = λ _. omega arith },
      (record { bounded = omega arith; left = λ _. omega arith }, tt),
    ),
  );
}

-- Worker B's task fails at 9, and is claimed after the backoff of ten seconds.
mark_task_failed-claim_available_example :
    (u : BackgroundTask) × (get_task 2
        (claim_available unlocked 10000009
          (codes "A")
          5
          (mark_task_failed settings 9 2 (codes "x") tables).tasks).1
      ≡ some u)
    × IsTriedAgain settings
        (codes "A")
        9
        10000009
        (row 2 TaskStatus.running (some 5) (some (codes "B")) 1)
        u
unfolding get_task mark_task_failed update_task
mark_task_failed-claim_available_example =
    mark_task_failed-claim_available settings unlocked 9 10000009 (codes "A") (codes "x") 5 2 tables
      tables-IsValid refl refl (omega arith)

-- The task that worker A has finished is reported as failed, and runs again.
mark_task_failed-mark_task_succeeded_example :
    (u : BackgroundTask) × (get_task 2
        (claim_available unlocked 10000009
          (codes "A")
          5
          (mark_task_failed settings 9 2 (codes "x") (mark_task_succeeded 8 2 tables)).tasks).1
      ≡ some u)
    × (u.status ≡ TaskStatus.running)
    × (u.attempt_count ≡ 2)
unfolding get_task mark_task_failed mark_task_succeeded update_task
mark_task_failed-mark_task_succeeded_example =
    mark_task_failed-mark_task_succeeded settings unlocked 8 9 10000009 (codes "A") (codes "x") 5 2
      tables tables-IsValid refl (omega arith) refl (omega arith) (omega arith)

recover_stale_tasks_lem_example :
    (list_stale_running
        (claim_timeout settings)
        8000000000
        (recover_stale_tasks settings 8000000000 tables).1.tasks
      ≡ [])
    × ((t : BackgroundTask)
        → get_task t.id rows ≡ some t
        → is_stale (claim_timeout settings) 8000000000 t ≡ false
        → get_task t.id (recover_stale_tasks settings 8000000000 tables).1.tasks ≡ some t)
recover_stale_tasks_lem_example = recover_stale_tasks_lem settings 8000000000 tables rows-IsKeyed

recover_stale_tasks_runs : (recover_stale_tasks settings 8000000000 tables).0 ≡ 1
unfolding recover_stale_tasks list_stale_running
recover_stale_tasks_runs = refl
