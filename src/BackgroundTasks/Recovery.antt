-- ===== src/BackgroundTasks/Recovery.antt =====
-- The tasks that the recovery of stale tasks changes
-- (background_task_worker_service.py).
use auto_scheduling_system.Prelude.{
  ℕ, ◌≡◌, refl, ◌∙◌, ◌≢◌, inl, inr, Bool, true, false, some, List, [], ◌∷◌, arith, ◌==◌, Bool-cases,
  where_true, All, All-imp, All-map, All-where_both,
}
use auto_scheduling_system.SyncJobs.{Time}
use auto_scheduling_system.BackgroundTasks.{BackgroundTask, Tables, Settings}
use auto_scheduling_system.BackgroundTasks.Table.{get_task, update_task, get_task-update_task_ne}
use auto_scheduling_system.BackgroundTasks.Repo.{is_in, is_stale, list_stale_running}
use auto_scheduling_system.BackgroundTasks.Worker.{
  recover_task, recover_one, recover_loop, recover_stale_tasks, claim_timeout,
}
use auto_scheduling_system.BackgroundTasks.Keys.{IsKeyed, at_id}
use auto_scheduling_system.BackgroundTasks.Attempts.{recover_task-id}

-- Every stale row is in the list of rows still to be recovered.
abbrev Covers : Time → Time → List BackgroundTask → BackgroundTask → Type 0
Covers timeout now stale t = is_stale timeout now t ≡ true → is_in stale t ≡ true

recover_task-is_stale :
    (settings : Settings) (timeout now : Time) (t : BackgroundTask)
    → is_stale timeout now (recover_task settings now t) ≡ false
unfolding recover_task
recover_task-is_stale settings timeout now t = ground arith

is_in-tail :
    (row t : BackgroundTask) (stale : List BackgroundTask)
    → (t.id == row.id) ≡ false
    → is_in (row ∷ stale) t ≡ true
    → is_in stale t ≡ true
is_in-tail row t stale e h = ground arith

recover_task-Covers :
    (settings : Settings) (timeout now : Time) (row : BackgroundTask) (stale : List BackgroundTask)
    (t : BackgroundTask)
    → Covers timeout now (row ∷ stale) t
    → Covers timeout now stale (at_id row.id (recover_task settings now) t)
recover_task-Covers settings timeout now row stale t h = elim (Bool-cases (t.id == row.id)) [
  | inl e ↦ rw e (λ st. cc (recover_task-is_stale settings timeout now t, st))
  | inr e ↦ rw e (λ st. is_in-tail row t stale e (h st))
]

recover_loop-clears :
    (settings : Settings) (timeout now : Time) (stale : List BackgroundTask) (s : Tables)
    → All (Covers timeout now stale) s.tasks
    → All (λ t. is_stale timeout now t ≡ false) (recover_loop settings now stale s).tasks
unfolding recover_loop update_task
recover_loop-clears settings timeout now [] s h = All-imp s.tasks (λ t c. ground (arith, c)) h
recover_loop-clears settings timeout now (row ∷ stale) s h =
    recover_loop-clears settings timeout now stale (recover_one settings now row s) (
      All-map (Covers timeout now (row ∷ stale)) (Covers timeout now stale)
        (at_id row.id (recover_task settings now)) s.tasks
        (recover_task-Covers settings timeout now row stale) h)

is_in-cons :
    (row t : BackgroundTask) (rows : List BackgroundTask)
    → is_in rows t ≡ true
    → is_in (row ∷ rows) t ≡ true
is_in-cons row t rows h = ground arith

where_true-nil :
    (p : BackgroundTask → Bool) (tasks : List BackgroundTask)
    → All (λ t. p t ≡ false) tasks
    → where_true p tasks ≡ []
where_true-nil p [] h = refl
where_true-nil p (t ∷ tasks) h = rw h.0 (where_true-nil p tasks h.1)

where_true-head :
    (p : BackgroundTask → Bool) (t : BackgroundTask) (tasks : List BackgroundTask)
    → p t ≡ true
    → is_in (where_true p (t ∷ tasks)) t ≡ true
where_true-head p t tasks e = rw e (ground arith)

where_true-tail :
    (p : BackgroundTask → Bool) (t u : BackgroundTask) (tasks : List BackgroundTask)
    → is_in (where_true p tasks) u ≡ true
    → is_in (where_true p (t ∷ tasks)) u ≡ true
where_true-tail p t u tasks h = elim (Bool-cases (p t)) [
  | inl e ↦ rw e (is_in-cons t u (where_true p tasks) h)
  | inr e ↦ rw e h
]

-- What passes the query is in its result.
stale-Covers :
    (timeout now : Time) (tasks : List BackgroundTask)
    → All (Covers timeout now (list_stale_running timeout now tasks)) tasks
unfolding list_stale_running
stale-Covers timeout now [] = tt
stale-Covers timeout now (t ∷ tasks) = (
  where_true-head (is_stale timeout now) t tasks,
  All-imp tasks (λ u h st. where_true-tail (is_stale timeout now) t u tasks (h st))
      (stale-Covers timeout now tasks),
)

recover_loop-others :
    (settings : Settings) (now : Time) (id : ℕ) (stale : List BackgroundTask) (s : Tables)
    → All (λ row. id ≢ row.id) stale
    → get_task id (recover_loop settings now stale s).tasks ≡ get_task id s.tasks
unfolding recover_loop
recover_loop-others settings now id [] s h = refl
recover_loop-others settings now id (row ∷ stale) s h =
    recover_loop-others settings now id stale (recover_one settings now row s) h.1
    ∙ get_task-update_task_ne row.id (recover_task settings now) s.tasks id h.0
        (recover_task-id settings now)

-- In a table with distinct ids, after a recovery no task is stale at that time, and every task that
-- was not stale is as it was.
pub recover_stale_tasks_lem :
    (settings : Settings) (now : Time) (s : Tables)
    → IsKeyed s.tasks
    → (list_stale_running (claim_timeout settings) now (recover_stale_tasks settings now s).1.tasks
        ≡ [])
      × ((t : BackgroundTask)
          → get_task t.id s.tasks ≡ some t
          → is_stale (claim_timeout settings) now t ≡ false
          → get_task t.id (recover_stale_tasks settings now s).1.tasks ≡ some t)
unfolding recover_stale_tasks list_stale_running
recover_stale_tasks_lem settings now s keyed =
    let timeout = claim_timeout settings in
    let stale = list_stale_running timeout now s.tasks in
    (
      where_true-nil (is_stale timeout now) _
          (recover_loop-clears settings timeout now stale s (stale-Covers timeout now s.tasks)),
      λ t e fresh.
          recover_loop-others settings now t.id stale s (
            All-imp stale (λ row h same. cc (fresh, h.0, h.1, e, same))
              (All-where_both (λ u. get_task u.id s.tasks ≡ some u) (is_stale timeout now) s.tasks
                keyed))
          ∙ e,
    )
