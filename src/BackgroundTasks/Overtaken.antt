-- ===== src/BackgroundTasks/Overtaken.antt =====
-- background_task_dispatch_service.py: the active tasks of a dedupe key after an enqueue, which another
-- one may have overtaken.
use auto_scheduling_system.Prelude.{
  ℕ, ◌≤◌, ◌+◌, sym, ◌≡◌, refl, subst, inl, inr, Bool, true, false, ◌&&◌, leb, if◌then◌else◌, Option,
  none, some, List, [], ◌∷◌, ◌++◌, arith, ◌==◌, ==_iff, Bool-cases, Option-cases, Text, text_eq,
  text_eq→≡, is_empty,
}
use auto_scheduling_system.SyncJobs.{Time}
use auto_scheduling_system.BackgroundTasks.{BackgroundTask, Tables, Settings}
use auto_scheduling_system.BackgroundTasks.Repo.{is_active_for, get_active_by_dedupe_key}
use auto_scheduling_system.BackgroundTasks.Dispatch.{
  TaskRequest, enqueue_after, create_task, pending_task,
}
use auto_scheduling_system.BackgroundTasks.History.{Event, enqueued}
use auto_scheduling_system.BackgroundTasks.Attempts.{create_job-keeps}
use auto_scheduling_system.BackgroundTasks.Active.{count_active, count_active-append, no_active}

&&-left : (a b : Bool) → a && b ≡ true → a ≡ true
&&-left a b h = ground arith

room_for_one : (n count : ℕ) → count ≤ 1 + n → count + 1 ≤ 1 + n + (if leb 1 count then 1 else 0)
room_for_one n count few = ground arith

module _ (key : Text) where
  -- The request has the key.
  abbrev pub asks_for : TaskRequest → Bool
  asks_for request = elim request.dedupe_key [ none ↦ false | some k ↦ text_eq k key ]

  -- The caller saw no active task of the key, and there is one when it inserts its own.
  abbrev pub is_overtaken : Event → Tables → Bool
  is_overtaken (enqueued seen now request) s =
      asks_for request && (count_active key seen == 0) && leb 1 (count_active key s.tasks)
  is_overtaken _ s = false

module _ (key : Text) (full : is_empty key ≡ false) where
  found-count_active :
      (dedupe_key : Option Text) (seen : List BackgroundTask)
      → get_active_by_dedupe_key dedupe_key seen ≡ none
      → elim dedupe_key [ none ↦ false | some k ↦ text_eq k key ] ≡ true
      → count_active key seen ≡ 0
  found-count_active none seen e h = cc
  found-count_active (some k) seen e h =
      no_active key seen full
        (subst (λ j. get_active_by_dedupe_key (some j) seen ≡ none) (text_eq→≡ k key h) e)

  append-count_active :
      (n : ℕ) (overtaken : Bool) (tasks : List BackgroundTask) (t : BackgroundTask)
      → (is_active_for key t ≡ true → leb 1 (count_active key tasks) ≡ overtaken)
      → count_active key tasks ≤ 1 + n
      → count_active key (tasks ++ t ∷ []) ≤ 1 + n + (if overtaken then 1 else 0)
  append-count_active n overtaken tasks t h few =
      rw (count_active-append key tasks (t ∷ [])) (elim (Bool-cases (is_active_for key t)) [
        | inl e ↦ rw (e, sym (h e)) (room_for_one n (count_active key tasks) few)
        | inr e ↦ rw e (omega arith)
      ])

  create_task-count_active :
      (settings : Settings) (now : Time) (request : TaskRequest) (n : ℕ) (overtaken : Bool)
      (s : Tables)
      → (asks_for key request ≡ true → leb 1 (count_active key s.tasks) ≡ overtaken)
      → count_active key s.tasks ≤ 1 + n
      → count_active key (create_task settings now request s).1.tasks
        ≤ 1 + n + (if overtaken then 1 else 0)
  unfolding create_task pending_task
  create_task-count_active settings now request n overtaken s h few =
      rw (create_job-keeps settings now request.sync_job_kwargs s).0
        (append-count_active n overtaken s.tasks _ (λ a. h (&&-left _ _ a)) few)

  -- One more task of the key than before, and only where the caller was overtaken.
  pub enqueue_after-count_active :
      (settings : Settings) (seen : List BackgroundTask) (now : Time) (request : TaskRequest)
      (n : ℕ) (s : Tables)
      → count_active key s.tasks ≤ 1 + n
      → count_active key
          (enqueue_after settings now request
            (get_active_by_dedupe_key request.dedupe_key seen)
            s).1.tasks
        ≤ 1 + n + (if is_overtaken key (enqueued seen now request) s then 1 else 0)
  unfolding enqueue_after
  enqueue_after-count_active settings seen now request n s few =
      elim (Option-cases (get_active_by_dedupe_key request.dedupe_key seen)) [
        | inl e ↦
            rw (e, enqueue_after)
              (create_task-count_active settings now request n
                (is_overtaken key (enqueued seen now request) s) s
                (λ asks.
                  let none_seen : (count_active key seen == 0) ≡ true =
                    (==_iff _ 0).1 (found-count_active request.dedupe_key seen e asks) in
                  rw (asks, none_seen) refl)
                few)
        | inr (t, e) ↦ rw (e, enqueue_after) (omega arith)
      ]
