-- ===== src/BackgroundTasks/Table.antt =====
-- Rows by id: `session.get`, and a change of the row that was read.
use auto_scheduling_system.Prelude.{
  ℕ, suc, ◌≡◌, refl, ◌≢◌, inl, inr, true, Option, none, some, List, [], ◌∷◌, map, arith, ◌==◌,
  if◌then◌else◌, Bool-cases, first_where, All,
}
use auto_scheduling_system.SyncJobs.{SyncJobLog}
use auto_scheduling_system.BackgroundTasks.{BackgroundTask, Tables}

unfoldable pub get_task : ℕ → List BackgroundTask → Option BackgroundTask
get_task id tasks = first_where (λ task. task.id == id) tasks

unfoldable pub update_task :
    ℕ → (BackgroundTask → BackgroundTask) → List BackgroundTask → List BackgroundTask
update_task id change = map (λ task. if task.id == id then change task else task)

-- `if not task.sync_job_log_id` passes over an id of 0 too.
abbrev pub job_link : Option ℕ → Option ℕ
job_link (some (suc id)) = some (suc id)
job_link _ = none

unfoldable pub get_job : Option ℕ → List SyncJobLog → Option SyncJobLog
get_job none jobs = none
get_job (some id) jobs = first_where (λ job. job.id == id) jobs

unfoldable pub update_job : Option ℕ → (SyncJobLog → SyncJobLog) → List SyncJobLog → List SyncJobLog
update_job none change jobs = jobs
update_job (some id) change jobs = map (λ job. if job.id == id then change job else job) jobs

abbrev pub change_task : ℕ → (BackgroundTask → BackgroundTask) → Tables → Tables
change_task id change s = record s { tasks = update_task id change s.tasks }

abbrev pub change_job : Option ℕ → (SyncJobLog → SyncJobLog) → Tables → Tables
change_job id change s = record s { jobs = update_job id change s.jobs }

module _ (id : ℕ) (change : BackgroundTask → BackgroundTask) where
  -- A change that keeps a property keeps it in the table.
  pub All-update_task {κ} :
      (P : BackgroundTask → Type κ) (tasks : List BackgroundTask)
      → ((task : BackgroundTask) → P task → P (change task))
      → All P tasks
      → All P (update_task id change tasks)
  unfolding update_task
  All-update_task P [] keep h = tt
  All-update_task P (task ∷ tasks) keep h = elim (Bool-cases (task.id == id)) [
    | inl e ↦ rw e (keep task h.0, All-update_task P tasks keep h.1)
    | inr e ↦ rw e (h.0, All-update_task P tasks keep h.1)
  ]

  -- The changed row is found, if the change keeps the id.
  pub get_task-update_task :
      (tasks : List BackgroundTask) {task : BackgroundTask}
      → ((t : BackgroundTask) → (change t).id ≡ t.id)
      → get_task id tasks ≡ some task
      → get_task id (update_task id change tasks) ≡ some (change task)
  unfolding get_task update_task
  get_task-update_task [] keep e = cc
  get_task-update_task (t ∷ tasks) keep e = elim (Bool-cases (t.id == id)) [
    | inl h ↦ let h' : ((change t).id == id) ≡ true = rw (keep t) h in rw (h, h') (cc (rw h at e))
    | inr h ↦ rw (h, h) (get_task-update_task tasks keep (rw h at e))
  ]

  -- No other row changes.
  pub get_task-update_task_ne :
      (tasks : List BackgroundTask) (other : ℕ)
      → other ≢ id
      → ((t : BackgroundTask) → (change t).id ≡ t.id)
      → get_task other (update_task id change tasks) ≡ get_task other tasks
  unfolding get_task update_task
  get_task-update_task_ne [] other ne keep = refl
  get_task-update_task_ne (t ∷ tasks) other ne keep =
      ground (arith, keep t, get_task-update_task_ne tasks other ne keep)

-- The row that is found has the id.
pub get_task-id :
    (id : ℕ) (tasks : List BackgroundTask) {task : BackgroundTask}
    → get_task id tasks ≡ some task
    → task.id ≡ id
unfolding get_task
get_task-id id [] e = cc
get_task-id id (t ∷ tasks) {task} e = ground (arith, get_task-id id tasks {task = task})
