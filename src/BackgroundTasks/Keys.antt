-- ===== src/BackgroundTasks/Keys.antt =====
-- The ids of the task table.
use auto_scheduling_system.Prelude.{
  ℕ, ◌+◌, ◌<◌, ◌≡◌, sym, subst, some, List, [], ◌∷◌, ◌++◌, map, arith, ◌==◌, if◌then◌else◌, All,
  All-append, All-imp, All-map,
}
use auto_scheduling_system.BackgroundTasks.{BackgroundTask}
use auto_scheduling_system.BackgroundTasks.Table.{get_task}

-- Each row is the one that its id finds.
abbrev pub IsKeyed : List BackgroundTask → Type 0
IsKeyed tasks = All (λ t. get_task t.id tasks ≡ some t) tasks

-- Every id is below the next one.
abbrev pub IsBelow : ℕ → List BackgroundTask → Type 0
IsBelow n tasks = All (λ t. t.id < n) tasks

abbrev pub KeepsId : (BackgroundTask → BackgroundTask) → Type 0
KeepsId f = (t : BackgroundTask) → (f t).id ≡ t.id

pub get_task-map :
    (f : BackgroundTask → BackgroundTask)
    → KeepsId f
    → (id : ℕ) (tasks : List BackgroundTask) {t : BackgroundTask} → get_task id tasks ≡ some t
    → get_task id (map f tasks) ≡ some (f t)
unfolding get_task
get_task-map f keep id [] e = cc
get_task-map f keep id (x ∷ xs) {t} e = ground (arith, keep x, get_task-map f keep id xs {t = t})

pub map-IsKeyed :
    (f : BackgroundTask → BackgroundTask)
    → KeepsId f
    → (tasks : List BackgroundTask) → IsKeyed tasks
    → IsKeyed (map f tasks)
map-IsKeyed f keep tasks h =
    All-map (λ t. get_task t.id tasks ≡ some t) (λ t. get_task t.id (map f tasks) ≡ some t) f tasks
      (λ t e.
        subst (λ i. get_task i (map f tasks) ≡ some (f t)) (sym (keep t))
          (get_task-map f keep t.id tasks e))
      h

pub map-IsBelow :
    (f : BackgroundTask → BackgroundTask)
    → KeepsId f
    → (n : ℕ) (tasks : List BackgroundTask) → IsBelow n tasks
    → IsBelow n (map f tasks)
map-IsBelow f keep n tasks h =
    All-map (λ t. t.id < n) (λ t. t.id < n) f tasks (λ t e. rw (keep t) e) h

-- The change that `update_task` makes of every row.
abbrev pub at_id : ℕ → (BackgroundTask → BackgroundTask) → BackgroundTask → BackgroundTask
at_id id change task = if task.id == id then change task else task

pub at_id-KeepsId :
    (id : ℕ) (change : BackgroundTask → BackgroundTask) → KeepsId change → KeepsId (at_id id change)
at_id-KeepsId id change keep t = ground (arith, keep t)

get_task-append :
    (id : ℕ) (xs ys : List BackgroundTask) {t : BackgroundTask}
    → get_task id xs ≡ some t
    → get_task id (xs ++ ys) ≡ some t
unfolding get_task
get_task-append id [] ys e = cc
get_task-append id (x ∷ xs) ys {t} e = ground (arith, get_task-append id xs ys {t = t})

get_task-append_new :
    (n : ℕ) (xs : List BackgroundTask) (t : BackgroundTask)
    → IsBelow n xs
    → t.id ≡ n
    → get_task n (xs ++ t ∷ []) ≡ some t
unfolding get_task
get_task-append_new n [] t h e = ground arith
get_task-append_new n (x ∷ xs) t h e = ground (arith, get_task-append_new n xs t h.1 e)

pub append-IsKeyed :
    (n : ℕ) (xs : List BackgroundTask) (t : BackgroundTask)
    → t.id ≡ n
    → IsBelow n xs
    → IsKeyed xs
    → IsKeyed (xs ++ t ∷ [])
append-IsKeyed n xs t e below h =
    All-append (λ u. get_task u.id (xs ++ t ∷ []) ≡ some u) xs (t ∷ [])
      (All-imp xs (λ u f. get_task-append u.id xs (t ∷ []) f) h)
      (
        subst (λ i. get_task i (xs ++ t ∷ []) ≡ some t) (sym e)
            (get_task-append_new n xs t below e),
        tt,
      )

pub append-IsBelow :
    (n : ℕ) (xs : List BackgroundTask) (t : BackgroundTask)
    → t.id ≡ n
    → IsBelow n xs
    → IsBelow (n + 1) (xs ++ t ∷ [])
append-IsBelow n xs t e below =
    All-append (λ u. u.id < n + 1) xs (t ∷ []) (All-imp xs (λ u h. omega arith) below)
      (omega arith, tt)
