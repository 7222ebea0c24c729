-- ===== src/BackgroundTasks/Requeue.antt =====
-- What becomes of a task whose failure is reported (background_task_worker_service.py), up to the next
-- claim (background_task_repo.py).
use auto_scheduling_system.Prelude.{
  Bool, ap, ◌∙◌, ℕ, ◌+◌, ◌≤◌, ◌<◌, ◌≡◌, ◌⊎◌, inl, inr, refl, true, false, not, ◌&&◌, none, some,
  max, arith, where_true, length, Bool-cases, le_cases, true_is_not_false, Text,
}
use auto_scheduling_system.SyncJobs.{Time, seconds}
use auto_scheduling_system.BackgroundTasks.{TaskStatus, BackgroundTask, Tables, Settings}
use auto_scheduling_system.BackgroundTasks.Table.{get_task, get_task-id, get_task-update_task}
use auto_scheduling_system.BackgroundTasks.Repo.{claim_available, claim_task, is_available}
use auto_scheduling_system.BackgroundTasks.Worker.{
  mark_task_failed, mark_task_succeeded, succeed_task, fail_task,
}
use auto_scheduling_system.BackgroundTasks.Claim.{is_open}
use auto_scheduling_system.BackgroundTasks.Order.{claim_available-takes, claim_available-passes}
use auto_scheduling_system.BackgroundTasks.Attempts.{
  IsValid, fail_task-id, mark_task_failed-IsValid, mark_task_succeeded-IsValid,
}

-- The row after a failure at one time and a claim at a later one, by what it was before: it is
-- claimed for one more attempt, or still waits, or has used its attempts and is a dead letter.
abbrev pub IsTriedAgain :
    Settings → (worker_id : Text) (now later : Time) (before after : BackgroundTask) → Type 0
IsTriedAgain settings worker_id now later before after =
    ((before.attempt_count < max before.max_attempts 1)
      × (now + max settings.retry_backoff (seconds 1) ≤ later)
      × (after.status ≡ TaskStatus.running)
      × (after.worker_id ≡ some worker_id)
      × (after.attempt_count ≡ before.attempt_count + 1))
    ⊎ ((before.attempt_count < max before.max_attempts 1)
        × (later < now + max settings.retry_backoff (seconds 1))
        × (after.status ≡ TaskStatus.pending)
        × (after.worker_id ≡ none)
        × (after.attempt_count ≡ before.attempt_count))
    ⊎ ((max before.max_attempts 1 ≤ before.attempt_count)
        × (after.status ≡ TaskStatus.failed)
        × (after.dead_at ≡ some now))

module _ (settings : Settings) (locked : ℕ → Bool) (now later : Time) (worker_id message : Text)
    (t : BackgroundTask) (free : locked t.id ≡ false) where
  fail_task-is_open :
      t.attempt_count < max t.max_attempts 1
      → now + max settings.retry_backoff (seconds 1) ≤ later
      → is_open locked later (fail_task settings now message t) ≡ true
  unfolding fail_task
  fail_task-is_open more due = ground arith

  fail_task-waits :
      t.attempt_count < max t.max_attempts 1
      → later < now + max settings.retry_backoff (seconds 1)
      → is_open locked later (fail_task settings now message t) ≡ false
  unfolding fail_task
  fail_task-waits more soon = ground arith

  fail_task-buried :
      max t.max_attempts 1 ≤ t.attempt_count
      → is_open locked later (fail_task settings now message t) ≡ false
  unfolding fail_task
  fail_task-buried used = ground arith

  -- The row after a claim, which took it or passed it over.
  fail_task-IsTriedAgain :
      (after : BackgroundTask)
      → ((is_open locked later (fail_task settings now message t) ≡ true)
          × (after ≡ claim_task worker_id later (fail_task settings now message t)))
        ⊎ ((is_open locked later (fail_task settings now message t) ≡ false)
            × (after ≡ fail_task settings now message t))
      → IsTriedAgain settings worker_id now later t after
  unfolding fail_task claim_task
  fail_task-IsTriedAgain after h = elim (le_cases (max t.max_attempts 1) t.attempt_count) [
    | inl used ↦ elim h [
      | inl (open_row, _) ↦ true_is_not_false (fail_task-buried used) open_row
      | inr (_, e) ↦ rw e (inr (inr (used, ground arith, ground arith)))
    ]
    | inr more ↦ elim (le_cases (now + max settings.retry_backoff (seconds 1)) later) [
      | inl due ↦ elim h [
        | inl (_, e) ↦ rw e (inl (more, due, refl, refl, ground arith))
        | inr (shut, _) ↦ true_is_not_false shut (fail_task-is_open more due)
      ]
      | inr soon ↦ elim h [
        | inl (open_row, _) ↦ true_is_not_false (fail_task-waits more soon) open_row
        | inr (_, e) ↦ rw e (inr (inl (more, soon, ground arith, ground arith, ground arith)))
      ]
    ]
  ]

mark_task_failed-row :
    (settings : Settings) (now : Time) (id : ℕ) (message : Text) (s : Tables) {t : BackgroundTask}
    → get_task id s.tasks ≡ some t
    → get_task id (mark_task_failed settings now id message s).tasks
      ≡ some (fail_task settings now message t)
unfolding mark_task_failed
mark_task_failed-row settings now id message s {t} e =
    rw (e, mark_task_failed)
      (get_task-update_task id (fail_task settings now message) s.tasks
        (fail_task-id settings now message) e)

-- After a failure that is reported in valid tables, whatever the status of the task was, the next
-- claim, if it finds no lock on the task and has room for all free ones, takes it from the backoff on
-- and not before, for one more attempt, where it has been attempted less than max(max_attempts, 1)
-- times; else it is a dead letter that the claim leaves. The backoff is a second at least.
pub mark_task_failed-claim_available :
    (settings : Settings) (locked : ℕ → Bool) (now later : Time) (worker_id message : Text)
    (limit id : ℕ) (s : Tables) {t : BackgroundTask}
    → IsValid s
    → get_task id s.tasks ≡ some t
    → locked id ≡ false
    → length (
        where_true
          (λ row. is_available later row && not (locked row.id))
          (mark_task_failed settings now id message s).tasks)
      ≤ limit
    → (u : BackgroundTask) × (get_task id
          (claim_available locked later worker_id limit
            (mark_task_failed settings now id message s).tasks).1
        ≡ some u)
      × IsTriedAgain settings worker_id now later t u
mark_task_failed-claim_available settings locked now later worker_id message limit id s {t} valid e
      free room =
    let failed = mark_task_failed settings now id message s in
    let keyed = (mark_task_failed-IsValid settings now id message s valid).keyed in
    let row = mark_task_failed-row settings now id message s e in
    let free_row : locked t.id ≡ false = ap locked (get_task-id id s.tasks e) ∙ free in
    let again = fail_task-IsTriedAgain settings locked now later worker_id message t free_row in
    elim (Bool-cases (is_open locked later (fail_task settings now message t))) [
      | inl is_free ↦ (
        claim_task worker_id later (fail_task settings now message t),
        claim_available-takes locked later worker_id limit failed.tasks keyed id row is_free room,
        again _ (inl (is_free, refl)),
      )
      | inr shut ↦ (
        fail_task settings now message t,
        claim_available-passes locked later worker_id limit failed.tasks keyed id row shut,
        again _ (inr (shut, refl)),
      )
    ]

mark_task_succeeded-row :
    (now : Time) (id : ℕ) (s : Tables) {t : BackgroundTask}
    → get_task id s.tasks ≡ some t
    → get_task id (mark_task_succeeded now id s).tasks ≡ some (succeed_task now t)
unfolding mark_task_succeeded
mark_task_succeeded-row now id s e =
    rw (e, mark_task_succeeded) (get_task-update_task id (succeed_task now) s.tasks (λ _. refl) e)

-- In valid tables, a task that is reported as succeeded, and then as failed, runs again with the next
-- claim, if that comes from the backoff on, finds no lock on the task and has room for all free ones,
-- and if the task has been attempted less than max(max_attempts, 1) times.
pub mark_task_failed-mark_task_succeeded :
    (settings : Settings) (locked : ℕ → Bool) (succeeded_at now later : Time)
    (worker_id message : Text) (limit id : ℕ) (s : Tables) {t : BackgroundTask}
    → IsValid s
    → get_task id s.tasks ≡ some t
    → t.attempt_count < max t.max_attempts 1
    → locked id ≡ false
    → now + max settings.retry_backoff (seconds 1) ≤ later
    → length (
        where_true
          (λ row. is_available later row && not (locked row.id))
          (mark_task_failed settings now id message (mark_task_succeeded succeeded_at id s)).tasks)
      ≤ limit
    → (u : BackgroundTask) × (get_task id
          (claim_available locked later worker_id limit
            (mark_task_failed settings now id message
              (mark_task_succeeded succeeded_at id s)).tasks).1
        ≡ some u)
      × (u.status ≡ TaskStatus.running)
      × (u.attempt_count ≡ t.attempt_count + 1)
mark_task_failed-mark_task_succeeded settings locked succeeded_at now later worker_id message limit
      id s {t} valid e more free due room =
    let (u, row, again) =
      mark_task_failed-claim_available settings locked now later worker_id message limit id
        (mark_task_succeeded succeeded_at id s)
        (mark_task_succeeded-IsValid succeeded_at id s valid)
        (mark_task_succeeded-row succeeded_at id s e) free room in
    elim again [
      | inl (_, _, running, _, count) ↦ (u, row, running, count)
      | inr (inl (_, soon, _, _, _)) ↦ absurd (omega arith)
      | inr (inr (used, _, _)) ↦ absurd (omega arith)
    ]
