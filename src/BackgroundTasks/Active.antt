-- ===== src/BackgroundTasks/Active.antt =====
-- The number of active tasks of a dedupe key, under the changes that the queue makes to its rows.
use auto_scheduling_system.Prelude.{
  ℕ, ◌+◌, ◌≤◌, ◌≡◌, refl, subst, ◌⊎◌, inl, inr, true, false, none, some, List, [], ◌∷◌, ◌++◌, map,
  arith, ◌==◌, ==_iff, Bool-cases, Text, is_empty, where_true, length, length-append,
  where_true-append, All, All-map, All-imp, All-where_both,
}
use auto_scheduling_system.SyncJobs.{Time}
use auto_scheduling_system.BackgroundTasks.{is_active, BackgroundTask, Tables, Settings}
use auto_scheduling_system.BackgroundTasks.Table.{get_task, update_task}
use auto_scheduling_system.BackgroundTasks.Repo.{
  is_active_for, is_stale, list_stale_running, latest, get_active_by_dedupe_key,
}
use auto_scheduling_system.BackgroundTasks.Worker.{
  is_retryable, recover_task, recover_one, recover_loop,
}
use auto_scheduling_system.BackgroundTasks.Keys.{IsKeyed, at_id}

-- The number of pending or running tasks of the key.
abbrev pub count_active : Text → List BackgroundTask → ℕ
count_active key tasks = length (where_true (is_active_for key) tasks)

-- A change of the row that makes it active for no key for which it was not.
abbrev pub Revives : Text → (BackgroundTask → BackgroundTask) → BackgroundTask → Type 0
Revives key f t = is_active_for key (f t) ≡ true → is_active_for key t ≡ true

pub count_active-map :
    (key : Text) (f : BackgroundTask → BackgroundTask) (tasks : List BackgroundTask)
    → All (Revives key f) tasks
    → count_active key (map f tasks) ≤ count_active key tasks
count_active-map key f [] h = omega arith
count_active-map key f (t ∷ tasks) h = elim (Bool-cases (is_active_for key (f t))) [
  | inl e ↦ rw (e, h.0 e) (omega (arith, count_active-map key f tasks h.1))
  | inr e ↦ rw e (elim (Bool-cases (is_active_for key t)) [
    | inl a ↦ rw a (omega (arith, count_active-map key f tasks h.1))
    | inr a ↦ rw a (count_active-map key f tasks h.1)
  ])
]

pub count_active-append :
    (key : Text) (xs ys : List BackgroundTask)
    → count_active key (xs ++ ys) ≡ count_active key xs + count_active key ys
count_active-append key xs ys = rw (where_true-append (is_active_for key) xs ys) (length-append _ _)

-- With no latest row there is no row.
latest-none : (tasks : List BackgroundTask) → latest tasks ≡ none → length tasks ≡ 0
unfolding latest
latest-none [] e = refl
latest-none (t ∷ tasks) e = ground arith

pub no_active :
    (key : Text) (tasks : List BackgroundTask)
    → is_empty key ≡ false
    → get_active_by_dedupe_key (some key) tasks ≡ none
    → count_active key tasks ≡ 0
unfolding get_active_by_dedupe_key
no_active key tasks full e = latest-none (where_true (is_active_for key) tasks) (rw full at e)

-- A task that `recover_task` and `fail_task` do not revive: it is active, or has no attempt left.
abbrev pub IsSettled : BackgroundTask → Type 0
IsSettled t = (is_active t.status ≡ true) ⊎ (is_retryable t ≡ false)

recover_task-Revives :
    (settings : Settings) (now : Time) (key : Text) (t : BackgroundTask)
    → IsSettled t
    → Revives key (recover_task settings now) t
unfolding recover_task
recover_task-Revives settings now key t h = ground arith

recover_task-IsSettled :
    (settings : Settings) (now : Time) (t : BackgroundTask)
    → IsSettled (recover_task settings now t)
unfolding recover_task
recover_task-IsSettled settings now t = elim (Bool-cases (is_retryable t)) [
  | inl e ↦ rw e (inl refl)
  | inr e ↦ rw e (inr e)
]

-- The rows with the id of a task in the list are settled.
abbrev Settles : List BackgroundTask → BackgroundTask → Type 0
Settles tasks stale = All (λ t. t.id ≡ stale.id → IsSettled t) tasks

recover-IsSettled_other :
    (settings : Settings) (now : Time) (id : ℕ) (other t : BackgroundTask)
    → (t.id ≡ other.id → IsSettled t)
    → (at_id id (recover_task settings now) t).id ≡ other.id
    → IsSettled (at_id id (recover_task settings now) t)
recover-IsSettled_other settings now id other t h = elim (Bool-cases (t.id == id)) [
  | inl e ↦ rw e (λ _. recover_task-IsSettled settings now t)
  | inr e ↦ rw e h
]

recover-Revives_none :
    (settings : Settings) (now : Time) (key : Text) (id : ℕ) (t : BackgroundTask)
    → (t.id ≡ id → IsSettled t)
    → Revives key (at_id id (recover_task settings now)) t
recover-Revives_none settings now key id t h = elim (Bool-cases (t.id == id)) [
  | inl e ↦ rw e (recover_task-Revives settings now key t (h ((==_iff t.id id).0 e)))
  | inr e ↦ rw e (λ a. a)
]

-- A recovery makes no task active.
recover_loop-count_active :
    (settings : Settings) (now : Time) (key : Text) (stale : List BackgroundTask) (s : Tables)
    → All (Settles s.tasks) stale
    → count_active key (recover_loop settings now stale s).tasks ≤ count_active key s.tasks
unfolding recover_loop update_task
recover_loop-count_active settings now key [] s h = omega arith
recover_loop-count_active settings now key (task ∷ stale) s h =
    let f = at_id task.id (recover_task settings now) in
    let settled =
      All-imp stale
        (λ other k.
          All-map (λ t. t.id ≡ other.id → IsSettled t) (λ t. t.id ≡ other.id → IsSettled t) f
            s.tasks (recover-IsSettled_other settings now task.id other) k)
        h.1 in
    let tail =
      recover_loop-count_active settings now key stale (recover_one settings now task s) settled in
    let head =
      count_active-map key f s.tasks
        (All-imp s.tasks (recover-Revives_none settings now key task.id) h.0) in
    omega (arith, tail, head)

running-IsSettled :
    (timeout now : Time) (t : BackgroundTask) → is_stale timeout now t ≡ true → IsSettled t
running-IsSettled timeout now t h = inl (ground arith)

-- The stale rows of a table with distinct ids are running.
pub stale-Settles :
    (timeout now : Time) (tasks : List BackgroundTask)
    → IsKeyed tasks
    → All (Settles tasks) (list_stale_running timeout now tasks)
unfolding list_stale_running
stale-Settles timeout now tasks keyed =
    All-imp (list_stale_running timeout now tasks)
      (λ row h.
        All-imp tasks
          (λ t e same.
            let row_is : row ≡ t = cc (h.0, e, same) in
            subst IsSettled row_is (running-IsSettled timeout now row h.1))
          keyed)
      (All-where_both (λ t. get_task t.id tasks ≡ some t) (is_stale timeout now) tasks keyed)

pub recover-count_active :
    (settings : Settings) (timeout now : Time) (key : Text) (s : Tables)
    → IsKeyed s.tasks
    → count_active key (recover_loop settings now (list_stale_running timeout now s.tasks) s).tasks
      ≤ count_active key s.tasks
recover-count_active settings timeout now key s keyed =
    recover_loop-count_active settings now key (list_stale_running timeout now s.tasks) s
      (stale-Settles timeout now s.tasks keyed)
