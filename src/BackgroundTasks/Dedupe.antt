-- ===== src/BackgroundTasks/Dedupe.antt =====
-- The active tasks of a dedupe key, along a history of the queue.
use auto_scheduling_system.Prelude.{
  ℕ, ◌≤◌, ◌+◌, ◌≡◌, subst, inl, inr, Bool, true, false, if◌then◌else◌, some, List, [], ◌∷◌, arith,
  ◌==◌, ==_iff, Bool-cases, Option-cases, Text, is_empty, All, All-imp, All-always,
}
use auto_scheduling_system.SyncJobs.{Time}
use auto_scheduling_system.BackgroundTasks.{is_pending, BackgroundTask, Tables, Settings}
use auto_scheduling_system.BackgroundTasks.Table.{get_task, update_task}
use auto_scheduling_system.BackgroundTasks.Repo.{is_in, claimable, claim_available, claim_task}
use auto_scheduling_system.BackgroundTasks.Worker.{
  claim_once, mark_task_started, mark_task_succeeded, mark_task_failed, fail_task, heartbeat,
  recover_stale_tasks, running_task, is_owned_by, start_task, beat_task, succeed_task,
  claim_timeout,
}
use auto_scheduling_system.BackgroundTasks.History.{
  Event, enqueued, claimed, started, beat, succeeded, failed, recovered, step, run,
}
use auto_scheduling_system.BackgroundTasks.Keys.{IsKeyed, at_id}
use auto_scheduling_system.BackgroundTasks.Claim.{write_claims, is_in-is_pending}
use auto_scheduling_system.BackgroundTasks.Overtaken.{is_overtaken, enqueue_after-count_active}
use auto_scheduling_system.BackgroundTasks.Attempts.{IsValid, step-IsValid}
use auto_scheduling_system.BackgroundTasks.Active.{
  count_active, Revives, count_active-map, IsSettled, recover-count_active,
}

module _ (key : Text) (full : is_empty key ≡ false) where
  update-count_active :
      (id : ℕ) (change : BackgroundTask → BackgroundTask) (tasks : List BackgroundTask)
      → All (λ t. t.id ≡ id → Revives key change t) tasks
      → count_active key (update_task id change tasks) ≤ count_active key tasks
  unfolding update_task
  update-count_active id change tasks h = count_active-map key (at_id id change) tasks (
      All-imp tasks
        (λ t k. elim (Bool-cases (t.id == id)) [
          | inl e ↦ rw e (k ((==_iff t.id id).0 e))
          | inr e ↦ rw e (λ a. a)
        ])
        h)

  claim_task-Revives :
      (worker_id : Text) (now : Time) (t : BackgroundTask)
      → is_pending t.status ≡ true
      → Revives key (claim_task worker_id now) t
  unfolding claim_task
  claim_task-Revives worker_id now t p = ground arith

  claim-count_active :
      (locked : ℕ → Bool) (now : Time) (worker_id : Text) (limit : ℕ) (tasks : List BackgroundTask)
      → IsKeyed tasks
      → count_active key (claim_available locked now worker_id limit tasks).1
        ≤ count_active key tasks
  unfolding claim_available
  claim-count_active locked now worker_id limit tasks keyed =
      let rows = claimable locked now limit tasks in
      count_active-map key (write_claims rows worker_id now) tasks (
        All-imp tasks
          (λ t e. elim (Bool-cases (is_in rows t)) [
            | inl m ↦ rw m (
                claim_task-Revives worker_id now t
                  (is_in-is_pending locked now limit tasks t keyed e m))
            | inr m ↦ rw m (λ a. a)
          ])
          keyed)

  started-count_active :
      (worker_id : Text) (now : Time) (id : ℕ) (s : Tables)
      → count_active key (mark_task_started worker_id now id s).tasks ≤ count_active key s.tasks
  unfolding mark_task_started
  started-count_active worker_id now id s = elim (Option-cases (running_task id s)) [
    | inl e ↦ rw (e, mark_task_started) (omega arith)
    | inr (t, e) ↦
        rw (e, mark_task_started)
          (update-count_active id (start_task worker_id now) s.tasks (
            All-always (λ t. t.id ≡ id → Revives key (start_task worker_id now) t) s.tasks
              (λ t _ a. a)))
  ]

  heartbeat-count_active :
      (worker_id : Text) (now : Time) (id : ℕ) (s : Tables)
      → count_active key (heartbeat worker_id now id s).1.tasks ≤ count_active key s.tasks
  unfolding heartbeat
  heartbeat-count_active worker_id now id s = elim (Option-cases (running_task id s)) [
    | inl e ↦ rw (e, heartbeat) (omega arith)
    | inr (t, e) ↦ elim (Bool-cases (is_owned_by worker_id t)) [
      | inl o ↦
          rw (e, o, heartbeat)
            (update-count_active id (beat_task now) s.tasks
              (All-always (λ t. t.id ≡ id → Revives key (beat_task now) t) s.tasks (λ t _ a. a)))
      | inr o ↦ rw (e, o, heartbeat) (omega arith)
    ]
  ]

  succeed_task-Revives : (now : Time) (t : BackgroundTask) → Revives key (succeed_task now) t
  succeed_task-Revives now t = ground arith

  succeeded-count_active :
      (now : Time) (id : ℕ) (s : Tables)
      → count_active key (mark_task_succeeded now id s).tasks ≤ count_active key s.tasks
  unfolding mark_task_succeeded
  succeeded-count_active now id s = elim (Option-cases (get_task id s.tasks)) [
    | inl e ↦ rw (e, mark_task_succeeded) (omega arith)
    | inr (t, e) ↦
        rw (e, mark_task_succeeded)
          (update-count_active id (succeed_task now) s.tasks (
            All-always (λ t. t.id ≡ id → Revives key (succeed_task now) t) s.tasks
              (λ t _. succeed_task-Revives now t)))
  ]

  fail_task-Revives :
      (settings : Settings) (now : Time) (message : Text) (t : BackgroundTask)
      → IsSettled t
      → Revives key (fail_task settings now message) t
  unfolding fail_task
  fail_task-Revives settings now message t h = ground arith

  failed-count_active :
      (settings : Settings) (now : Time) (id : ℕ) (message : Text) (s : Tables)
      → IsKeyed s.tasks
      → ((t : BackgroundTask) → get_task id s.tasks ≡ some t → IsSettled t)
      → count_active key (mark_task_failed settings now id message s).tasks
        ≤ count_active key s.tasks
  unfolding mark_task_failed
  failed-count_active settings now id message s keyed settled =
      elim (Option-cases (get_task id s.tasks)) [
        | inl e ↦ rw (e, mark_task_failed) (omega arith)
        | inr (t, e) ↦
            rw (e, mark_task_failed)
              (update-count_active id (fail_task settings now message) s.tasks (
                All-imp s.tasks
                  (λ u k same.
                    fail_task-Revives settings now message u
                      (settled u (subst (λ i. get_task i s.tasks ≡ some u) same k)))
                  keyed))
      ]

-- A failure is reported for a task that is still active or has no attempt left.
abbrev pub FailsSettled : Event → Tables → Type 0
FailsSettled (failed now id message) s =
    (t : BackgroundTask) → get_task id s.tasks ≡ some t → IsSettled t
FailsSettled (enqueued _ _ _) s = Unit
FailsSettled (claimed _ _ _ _) s = Unit
FailsSettled (started _ _ _) s = Unit
FailsSettled (beat _ _ _) s = Unit
FailsSettled (succeeded _ _) s = Unit
FailsSettled (recovered _) s = Unit

-- So is each failure of a history.
abbrev pub AllFailSettled : Settings → List Event → Tables → Type 0
AllFailSettled settings [] s = Unit
AllFailSettled settings (e ∷ es) s =
    FailsSettled e s × AllFailSettled settings es (step settings e s)

module _ (key : Text) (full : is_empty key ≡ false) (settings : Settings) where
  -- How many enqueues of a history are overtaken by another one of the key.
  abbrev pub count_overtaken : List Event → Tables → ℕ
  count_overtaken [] s = 0
  count_overtaken (e ∷ es) s =
      (if is_overtaken key e s then 1 else 0) + count_overtaken es (step settings e s)

  step-count_active :
      (e : Event) (n : ℕ) (s : Tables)
      → IsValid s
      → FailsSettled e s
      → count_active key s.tasks ≤ 1 + n
      → count_active key (step settings e s).tasks ≤ 1 + n + (if is_overtaken key e s then 1 else 0)
  unfolding step claim_once recover_stale_tasks
  step-count_active (enqueued seen now request) n s v g few =
      enqueue_after-count_active key full settings seen now request n s few
  step-count_active (claimed locked now worker_id limit) n s v g few =
      omega (arith, claim-count_active key full locked now worker_id limit s.tasks v.keyed)
  step-count_active (started worker_id now id) n s v g few =
      omega (arith, started-count_active key full worker_id now id s)
  step-count_active (beat worker_id now id) n s v g few =
      omega (arith, heartbeat-count_active key full worker_id now id s)
  step-count_active (succeeded now id) n s v g few =
      omega (arith, succeeded-count_active key full now id s)
  step-count_active (failed now id message) n s v g few =
      omega (arith, failed-count_active key full settings now id message s v.keyed g)
  step-count_active (recovered now) n s v g few =
      omega (arith, recover-count_active settings (claim_timeout settings) now key s v.keyed)

  run-bounded :
      (es : List Event) (n : ℕ) (s : Tables)
      → IsValid s
      → AllFailSettled settings es s
      → count_active key s.tasks ≤ 1 + n
      → count_active key (run settings es s).tasks ≤ 1 + n + count_overtaken es s
  unfolding run
  run-bounded [] n s v g few = omega arith
  run-bounded (e ∷ es) n s v g few =
      let more : ℕ = if is_overtaken key e s then 1 else 0 in
      let rest =
        run-bounded es (n + more) (step settings e s) (step-IsValid settings e s v) g.1
          (omega (arith, step-count_active e n s v g.0 few)) in
      omega (arith, rest)

  -- From valid tables with at most one pending or running task of a dedupe key that is not empty,
  -- along every history of enqueues, claims, starts, heartbeats, successes, recoveries and failures
  -- in which each failure is reported for a task that is still active or has no attempt left, the
  -- key has at most one such task, and one more for each enqueue whose look-up saw none of the key,
  -- where there is one when it inserts.
  pub run-count_active :
      (es : List Event) (s : Tables)
      → IsValid s
      → AllFailSettled settings es s
      → count_active key s.tasks ≤ 1
      → count_active key (run settings es s).tasks ≤ 1 + count_overtaken es s
  run-count_active es s v g once = run-bounded es 0 s v g once
