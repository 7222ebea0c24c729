-- ===== src/BackgroundTasks/Attempts.antt =====
-- The attempts of a task, along a history of the queue.
use auto_scheduling_system.Prelude.{
  ℕ, ◌+◌, ◌≤◌, ◌<◌, ◌≡◌, refl, inl, inr, Bool, true, Option, none, some, List, [], ◌∷◌, ◌++◌, map,
  arith, ◌==◌, Bool-cases, Option-cases, Text, sym, All, All-append, All-map, All-both,
}
use mathlib.Core.Path.{subst₂}
use auto_scheduling_system.SyncJobs.{Time, SyncJobLog}
use auto_scheduling_system.BackgroundTasks.{
  is_pending, BackgroundTask, Tables, Settings, attempts_allowed,
}
use auto_scheduling_system.BackgroundTasks.Table.{get_task, update_task}
use auto_scheduling_system.BackgroundTasks.Repo.{
  claim_available, claim_task, claimable, is_in, list_stale_running, get_active_by_dedupe_key,
}
use auto_scheduling_system.BackgroundTasks.Dispatch.{
  JobRequest, TaskRequest, enqueue_after, create_task, create_job, pending_task,
}
use auto_scheduling_system.BackgroundTasks.Claim.{write_claims, write_claims-id, is_in-is_pending}
use auto_scheduling_system.BackgroundTasks.Worker.{
  fail_task, recover_task, recover_loop, recover_stale_tasks, mark_task_failed, claim_once,
  mark_task_started, start_task, mark_task_succeeded, succeed_task, heartbeat, beat_task,
  is_owned_by, running_task, claim_timeout,
}
use auto_scheduling_system.BackgroundTasks.History.{
  Event, enqueued, claimed, started, beat, succeeded, failed, recovered, step, run,
}
use auto_scheduling_system.BackgroundTasks.Keys.{
  IsKeyed, IsBelow, KeepsId, map-IsKeyed, map-IsBelow, at_id, at_id-KeepsId, append-IsKeyed,
  append-IsBelow,
}

-- No task has had more attempts than it is allowed, and a pending one has an attempt left.
pub record HasAttempts (task : BackgroundTask) : Type 0 where
  pub bounded : task.attempt_count ≤ attempts_allowed task
  pub left : is_pending task.status ≡ true → task.attempt_count < attempts_allowed task

pub record IsValidTable (next_id : ℕ) (tasks : List BackgroundTask) : Type 0 where
  pub keyed : IsKeyed tasks
  pub below : IsBelow next_id tasks
  pub attempts : All HasAttempts tasks

abbrev pub IsValid : Tables → Type 0
IsValid s = IsValidTable s.next_task_id s.tasks

pub recover_task-id : (settings : Settings) (now : Time) → KeepsId (recover_task settings now)
unfolding recover_task
recover_task-id settings now task = ground arith

pub fail_task-id :
    (settings : Settings) (now : Time) (message : Text) → KeepsId (fail_task settings now message)
unfolding fail_task
fail_task-id settings now message task = ground arith

recover_task-HasAttempts :
    (settings : Settings) (now : Time) (task : BackgroundTask)
    → HasAttempts task
    → HasAttempts (recover_task settings now task)
unfolding recover_task
recover_task-HasAttempts settings now task h = ground arith

fail_task-HasAttempts :
    (settings : Settings) (now : Time) (message : Text) (task : BackgroundTask)
    → HasAttempts task
    → HasAttempts (fail_task settings now message task)
unfolding fail_task
fail_task-HasAttempts settings now message task h = ground arith

claim_task-HasAttempts :
    (worker_id : Text) (now : Time) (task : BackgroundTask)
    → is_pending task.status ≡ true
    → HasAttempts task
    → HasAttempts (claim_task worker_id now task)
unfolding claim_task
claim_task-HasAttempts worker_id now task p h = ground arith

-- A change of the rows that keeps their ids and their bounds.
map-IsValid :
    (n : ℕ) (tasks : List BackgroundTask) (f : BackgroundTask → BackgroundTask)
    → KeepsId f
    → ((t : BackgroundTask) → (get_task t.id tasks ≡ some t) × HasAttempts t → HasAttempts (f t))
    → IsValidTable n tasks
    → IsValidTable n (map f tasks)
map-IsValid n tasks f keep attempt v = record {
  keyed = map-IsKeyed f keep tasks v.keyed;
  below = map-IsBelow f keep n tasks v.below;
  attempts =
      All-map (λ t. (get_task t.id tasks ≡ some t) × HasAttempts t) HasAttempts f tasks attempt
        (All-both (λ t. get_task t.id tasks ≡ some t) HasAttempts tasks v.keyed v.attempts);
}

update-IsValid :
    (n : ℕ) (tasks : List BackgroundTask) (id : ℕ) (change : BackgroundTask → BackgroundTask)
    → KeepsId change
    → ((t : BackgroundTask) → HasAttempts t → HasAttempts (change t))
    → IsValidTable n tasks
    → IsValidTable n (update_task id change tasks)
unfolding update_task
update-IsValid n tasks id change keep attempt =
    map-IsValid n tasks (at_id id change) (at_id-KeepsId id change keep)
      (λ t h. elim (Bool-cases (t.id == id)) [ inl e ↦ rw e (attempt t h.1) | inr e ↦ rw e h.1 ])

recover_loop-IsValid :
    (settings : Settings) (now : Time) (stale : List BackgroundTask) (s : Tables)
    → IsValid s
    → IsValid (recover_loop settings now stale s)
unfolding recover_loop
recover_loop-IsValid settings now [] s v = v
recover_loop-IsValid settings now (task ∷ stale) s v = recover_loop-IsValid settings now stale _ (
    update-IsValid s.next_task_id s.tasks task.id (recover_task settings now)
      (recover_task-id settings now) (recover_task-HasAttempts settings now) v)

pub create_job-keeps :
    (settings : Settings) (now : Time) (request : Option JobRequest) (s : Tables)
    → ((create_job settings now request s).1.tasks ≡ s.tasks)
      × ((create_job settings now request s).1.next_task_id ≡ s.next_task_id)
unfolding create_job
create_job-keeps settings now none s = (refl, refl)
create_job-keeps settings now (some request) s = (refl, refl)

pending_task-id :
    (settings : Settings) (now : Time) (id : ℕ) (request : TaskRequest) (job : Option SyncJobLog)
    → (pending_task settings now id request job).id ≡ id
unfolding pending_task
pending_task-id settings now id request job = refl

new_task-HasAttempts :
    (settings : Settings) (now : Time) (id : ℕ) (request : TaskRequest) (job : Option SyncJobLog)
    → HasAttempts (pending_task settings now id request job)
unfolding pending_task
new_task-HasAttempts settings now id request job = omega arith

append-IsValid :
    (n : ℕ) (tasks : List BackgroundTask) (t : BackgroundTask)
    → t.id ≡ n
    → HasAttempts t
    → IsValidTable n tasks
    → IsValidTable (n + 1) (tasks ++ t ∷ [])
append-IsValid n tasks t e h v = record {
  keyed = append-IsKeyed n tasks t e v.below v.keyed;
  below = append-IsBelow n tasks t e v.below;
  attempts = All-append HasAttempts tasks (t ∷ []) v.attempts (h, tt);
}

create_task-IsValid :
    (settings : Settings) (now : Time) (request : TaskRequest) (s : Tables)
    → IsValid s
    → IsValid (create_task settings now request s).1
unfolding create_task
create_task-IsValid settings now request s v =
    let (job, s') = create_job settings now request.sync_job_kwargs s in
    let kept = create_job-keeps settings now request.sync_job_kwargs s in
    append-IsValid s'.next_task_id s'.tasks (pending_task settings now s'.next_task_id request job)
      (pending_task-id settings now s'.next_task_id request job)
      (new_task-HasAttempts settings now s'.next_task_id request job)
      (subst₂ IsValidTable (sym kept.1) (sym kept.0) v)

enqueue_after-IsValid :
    (settings : Settings) (now : Time) (request : TaskRequest) (found : Option BackgroundTask)
    (s : Tables)
    → IsValid s
    → IsValid (enqueue_after settings now request found s).1
unfolding enqueue_after
enqueue_after-IsValid settings now request (some t) s v = v
enqueue_after-IsValid settings now request none s v = create_task-IsValid settings now request s v

claim_once-IsValid :
    (locked : ℕ → Bool) (now : Time) (worker_id : Text) (limit : ℕ) (s : Tables)
    → IsValid s
    → IsValid (claim_once locked now worker_id limit s).1
unfolding claim_once claim_available
claim_once-IsValid locked now worker_id limit s v =
    let rows = claimable locked now limit s.tasks in
    map-IsValid s.next_task_id s.tasks (write_claims rows worker_id now)
      (write_claims-id rows worker_id now)
      (λ t h. elim (Bool-cases (is_in rows t)) [
        | inl m ↦ rw m (
            claim_task-HasAttempts worker_id now t
              (is_in-is_pending locked now limit s.tasks t v.keyed h.0 m) h.1)
        | inr m ↦ rw m h.1
      ])
      v

mark_task_started-IsValid :
    (worker_id : Text) (now : Time) (id : ℕ) (s : Tables)
    → IsValid s
    → IsValid (mark_task_started worker_id now id s)
unfolding mark_task_started
mark_task_started-IsValid worker_id now id s v = elim (Option-cases (running_task id s)) [
  | inl e ↦ rw (e, mark_task_started) v
  | inr (t, e) ↦
      rw (e, mark_task_started)
        (update-IsValid s.next_task_id s.tasks id (start_task worker_id now) (λ _. refl)
          (λ u h. record { bounded = h.bounded; left = h.left }) v)
]

heartbeat-IsValid :
    (worker_id : Text) (now : Time) (id : ℕ) (s : Tables)
    → IsValid s
    → IsValid (heartbeat worker_id now id s).1
unfolding heartbeat
heartbeat-IsValid worker_id now id s v = elim (Option-cases (running_task id s)) [
  | inl e ↦ rw (e, heartbeat) v
  | inr (t, e) ↦ elim (Bool-cases (is_owned_by worker_id t)) [
    | inl o ↦
        rw (e, o, heartbeat)
          (update-IsValid s.next_task_id s.tasks id (beat_task now) (λ _. refl)
            (λ u h. record { bounded = h.bounded; left = h.left }) v)
    | inr o ↦ rw (e, o, heartbeat) v
  ]
]

pub mark_task_succeeded-IsValid :
    (now : Time) (id : ℕ) (s : Tables) → IsValid s → IsValid (mark_task_succeeded now id s)
unfolding mark_task_succeeded
mark_task_succeeded-IsValid now id s v = elim (Option-cases (get_task id s.tasks)) [
  | inl e ↦ rw (e, mark_task_succeeded) v
  | inr (t, e) ↦
      rw (e, mark_task_succeeded)
        (update-IsValid s.next_task_id s.tasks id (succeed_task now) (λ _. refl)
          (λ u h. record { bounded = h.bounded; left = λ p. cc }) v)
]

pub mark_task_failed-IsValid :
    (settings : Settings) (now : Time) (id : ℕ) (message : Text) (s : Tables)
    → IsValid s
    → IsValid (mark_task_failed settings now id message s)
unfolding mark_task_failed
mark_task_failed-IsValid settings now id message s v = elim (Option-cases (get_task id s.tasks)) [
  | inl e ↦ rw (e, mark_task_failed) v
  | inr (t, e) ↦
      rw (e, mark_task_failed)
        (update-IsValid s.next_task_id s.tasks id (fail_task settings now message)
          (fail_task-id settings now message) (fail_task-HasAttempts settings now message) v)
]

pub step-IsValid :
    (settings : Settings) (e : Event) (s : Tables) → IsValid s → IsValid (step settings e s)
unfolding step recover_stale_tasks
step-IsValid settings (enqueued seen now request) s v =
    enqueue_after-IsValid settings now request (get_active_by_dedupe_key request.dedupe_key seen) s
      v
step-IsValid settings (claimed locked now worker_id limit) s v =
    claim_once-IsValid locked now worker_id limit s v
step-IsValid settings (started worker_id now id) s v =
    mark_task_started-IsValid worker_id now id s v
step-IsValid settings (beat worker_id now id) s v = heartbeat-IsValid worker_id now id s v
step-IsValid settings (succeeded now id) s v = mark_task_succeeded-IsValid now id s v
step-IsValid settings (failed now id message) s v =
    mark_task_failed-IsValid settings now id message s v
step-IsValid settings (recovered now) s v =
    recover_loop-IsValid settings now (list_stale_running (claim_timeout settings) now s.tasks) s v

-- Whatever the workers and callers do, and in whatever order, the ids of the tasks stay distinct,
-- no task is attempted more than max(max_attempts, 1) times, and a pending task has an attempt left.
pub run-IsValid :
    (settings : Settings) (es : List Event) (s : Tables) → IsValid s → IsValid (run settings es s)
unfolding run
run-IsValid settings [] s v = v
run-IsValid settings (e ∷ es) s v =
    run-IsValid settings es (step settings e s) (step-IsValid settings e s v)
