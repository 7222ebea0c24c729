-- ===== src/BackgroundTasks/Repo.antt =====
-- services/api/app/repository/background_task_repo.py.
use auto_scheduling_system.Prelude.{
  ℕ, ◌+◌, Bool, true, false, not, ◌&&◌, ◌||◌, Option, none, some, List, [], ◌∷◌, map, ltb, leb,
  ◌==◌, if◌then◌else◌, Text, text_eq, is_empty, where_true, any_where, sort_by, take, length,
}
use auto_scheduling_system.SyncJobs.{Time}
use auto_scheduling_system.BackgroundTasks.{
  TaskStatus, is_pending, is_running, is_active, BackgroundTask,
}

-- `BackgroundTask.dedupe_key == dedupe_key`, which SQL denies of a null key.
abbrev pub has_key : Text → BackgroundTask → Bool
has_key key task = elim task.dedupe_key [ none ↦ false | some k ↦ text_eq k key ]

abbrev pub is_active_for : Text → BackgroundTask → Bool
is_active_for key task = has_key key task && is_active task.status

-- The task of the highest id.
unfoldable pub latest : List BackgroundTask → Option BackgroundTask
latest [] = none
latest (task ∷ tasks) = elim (latest tasks) [
  | none ↦ some task
  | some other ↦ if leb task.id other.id then some other else some task
]

-- `if not dedupe_key` also passes over the empty key.
unfoldable pub get_active_by_dedupe_key : Option Text → List BackgroundTask → Option BackgroundTask
unfolding latest
get_active_by_dedupe_key none tasks = none
get_active_by_dedupe_key (some key) tasks =
    if is_empty key then none else latest (where_true (is_active_for key) tasks)

abbrev pub is_available : Time → BackgroundTask → Bool
is_available now task = is_pending task.status && leb task.available_at now

-- `order_by(available_at.asc(), id.asc())`
abbrev pub claims_before : BackgroundTask → BackgroundTask → Bool
claims_before a b =
    ltb a.available_at b.available_at || (a.available_at == b.available_at && leb a.id b.id)

-- The rows that the query of `claim_available` returns. `locked` are the ids that another
-- transaction has locked, which `skip_locked` passes over.
unfoldable pub claimable :
    (locked : ℕ → Bool) → Time → ℕ → List BackgroundTask → List BackgroundTask
claimable locked now limit tasks = take limit (
    sort_by claims_before
      (where_true (λ task. is_available now task && not (locked task.id)) tasks))

-- What the loop of `claim_available` writes to a row.
unfoldable pub claim_task : Text → Time → BackgroundTask → BackgroundTask
claim_task worker_id now task = record task {
  status = TaskStatus.running;
  claimed_at = some now;
  worker_id = some worker_id;
  attempt_count = task.attempt_count + 1;
}

abbrev pub is_in : List BackgroundTask → BackgroundTask → Bool
is_in rows task = any_where (λ row. row.id == task.id) rows

-- The tasks that are returned, as they are after the claim, and the table after it.
unfoldable pub claim_available :
    (locked : ℕ → Bool)
    → Time
    → Text
    → ℕ
    → List BackgroundTask
    → List BackgroundTask × List BackgroundTask
unfolding claimable claim_task
claim_available locked now worker_id limit tasks =
    let rows = claimable locked now limit tasks in
    (
      map (claim_task worker_id now) rows,
      map (λ task. if is_in rows task then claim_task worker_id now task else task) tasks,
    )

-- `claimed_at <= stale_before`, with `stale_before = now - timeout` brought to the other side.
abbrev pub is_stale : (timeout : Time) → Time → BackgroundTask → Bool
is_stale timeout now task =
    is_running task.status
    && elim task.claimed_at [ none ↦ false | some claimed ↦ leb (claimed + timeout) now ]

unfoldable pub list_stale_running :
    (timeout : Time) → Time → List BackgroundTask → List BackgroundTask
list_stale_running timeout now = where_true (is_stale timeout now)

abbrev pub is_dead_letter : BackgroundTask → Bool
is_dead_letter task = elim task.status [
  | TaskStatus.failed ↦ elim task.dead_at [ none ↦ false | some _ ↦ true ]
  | _ ↦ false
]

unfoldable pub count_dead_letter : List BackgroundTask → ℕ
count_dead_letter tasks = length (where_true is_dead_letter tasks)
