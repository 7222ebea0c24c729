-- ===== src/BackgroundTasks/Order.antt =====
-- Which tasks a claim takes, and in which order (background_task_repo.py).
use mathlib.Core.List.{perm_middle}
use mathlib.Core.List.Perm
use auto_scheduling_system.Prelude.{
  ℕ, ◌≡◌, sym, ◌∙◌, ◌==◌, ◌≤◌, ◌<◌, ◌⊎◌, refl, subst, inl, inr, Bool, true, false, not, some, List,
  [], ◌∷◌, ◌++◌, arith, Bool-cases, All, All-imp, All-where_true, All-sort_by, drop, take_all,
  drop_all, le_cases, any_where-where_true, any_where-sort_by, true_is_not_false, where_true,
  length, take-append-drop, length-take, length-sort_by, Text, IsSorted, Perm, sort_by,
  sort_by-perm, sort_by-IsSorted,
}
use auto_scheduling_system.SyncJobs.{Time}
use auto_scheduling_system.BackgroundTasks.{TaskStatus, BackgroundTask}
use auto_scheduling_system.BackgroundTasks.Table.{get_task, get_task-id}
use auto_scheduling_system.BackgroundTasks.Repo.{
  claim_available, claim_task, claimable, claims_before, is_in,
}
use auto_scheduling_system.BackgroundTasks.Keys.{IsKeyed, get_task-map}
use auto_scheduling_system.BackgroundTasks.Claim.{
  is_open, is_in-IsClaimable, claimable-IsClaimable, write_claims, write_claims-id,
}

claims_before_total : (a b : BackgroundTask) → claims_before a b ≡ false → claims_before b a ≡ true
claims_before_total a b h = ground arith

claims_before_trans :
    (a b c : BackgroundTask)
    → claims_before a b ≡ true
    → claims_before b c ≡ true
    → claims_before a c ≡ true
claims_before_trans a b c h k = ground arith

-- A pending task whose time has come, and that no other transaction has locked.
abbrev pub IsFree : (ℕ → Bool) → Time → BackgroundTask → Type 0
IsFree locked now t =
    (t.status ≡ TaskStatus.pending) × (t.available_at ≤ now) × (locked t.id ≡ false)

is_open-IsFree :
    (locked : ℕ → Bool) (now : Time) (t : BackgroundTask)
    → is_open locked now t ≡ true
    → IsFree locked now t
is_open-IsFree locked now t h = ground arith

-- Earlier in time, or at the same time with an id that is not higher.
abbrev pub ComesBefore : BackgroundTask → BackgroundTask → Type 0
ComesBefore a b =
    (a.available_at < b.available_at) ⊎ ((a.available_at ≡ b.available_at) × (a.id ≤ b.id))

claims_before-ComesBefore : (a b : BackgroundTask) → claims_before a b ≡ true → ComesBefore a b
claims_before-ComesBefore a b h = ground arith

is_open-not-IsFree :
    (locked : ℕ → Bool) (now : Time) (t : BackgroundTask)
    → not (is_open locked now t) ≡ true
    → ¬ IsFree locked now t
is_open-not-IsFree locked now t h (pending, due, free) = ground arith

-- Every row comes before those that follow it.
abbrev pub AreInOrder : List BackgroundTask → Type 0
AreInOrder [] = Unit
AreInOrder (t ∷ tasks) = All (ComesBefore t) tasks × AreInOrder tasks

IsSorted-AreInOrder :
    (tasks : List BackgroundTask) → IsSorted claims_before tasks → AreInOrder tasks
IsSorted-AreInOrder [] s = tt
IsSorted-AreInOrder (t ∷ tasks) s =
    (All-imp tasks (claims_before-ComesBefore t) s.0, IsSorted-AreInOrder tasks s.1)

where_true-perm :
    (test : BackgroundTask → Bool) (tasks : List BackgroundTask)
    → Perm (where_true test tasks ++ where_true (λ t. not (test t)) tasks) tasks
where_true-perm test [] = Perm.refl []
where_true-perm test (t ∷ tasks) = elim (Bool-cases (test t)) [
  | inl e ↦ rw e (Perm.cons t (where_true-perm test tasks))
  | inr e ↦ rw e (
      Perm.trans (perm_middle (where_true test tasks) (where_true (λ u. not (test u)) tasks))
        (Perm.cons t (where_true-perm test tasks)))
]

-- The rows of the table are those that a claim takes, the free ones that it leaves, and the others.
-- Free is a pending row whose time has come and that is not locked. The free rows are in the order
-- of their times, and of their ids at one time, those that are taken first; and some are left only
-- where as many are taken as the limit allows.
pub claimable-AreInOrder :
    (locked : ℕ → Bool) (now : Time) (limit : ℕ) (tasks : List BackgroundTask)
    → (left : List BackgroundTask) × (others : List BackgroundTask) × Perm
        ((claimable locked now limit tasks ++ left) ++ others)
        tasks
      × All (IsFree locked now) (claimable locked now limit tasks ++ left)
      × All (λ t. ¬ IsFree locked now t) others
      × AreInOrder (claimable locked now limit tasks ++ left)
      × (length (claimable locked now limit tasks) ≤ limit)
      × ((left ≡ []) ⊎ (length (claimable locked now limit tasks) ≡ limit))
unfolding claimable
claimable-AreInOrder locked now limit tasks =
    let rows = where_true (is_open locked now) tasks in
    let sorted = sort_by claims_before rows in
    let others = where_true (λ t. not (is_open locked now t)) tasks in
    (
      drop limit sorted,
      others,
      rw (take-append-drop limit sorted) (
          Perm.trans (Perm.append (sort_by-perm claims_before rows) (Perm.refl others))
            (where_true-perm (is_open locked now) tasks)),
      rw (take-append-drop limit sorted) (
          All-sort_by (IsFree locked now) claims_before rows (
            All-where_true (IsFree locked now) (is_open locked now) tasks
              (is_open-IsFree locked now))),
      All-where_true (λ t. ¬ IsFree locked now t) (λ t. not (is_open locked now t)) tasks
          (is_open-not-IsFree locked now),
      rw (take-append-drop limit sorted) (
          IsSorted-AreInOrder sorted
            (sort_by-IsSorted claims_before claims_before_total claims_before_trans rows)),
      omega (arith, length-take limit sorted),
      elim (le_cases (length sorted) limit) [
        | inl all ↦ inl (drop_all limit sorted all)
        | inr many ↦ inr (omega (arith, length-take limit sorted))
      ],
    )

module _ (locked : ℕ → Bool) (now : Time) (worker_id : Text) (limit : ℕ)
    (tasks : List BackgroundTask) (keyed : IsKeyed tasks) (id : ℕ) {t : BackgroundTask}
    (found : get_task id tasks ≡ some t) where
  claim_available-row :
      get_task id (claim_available locked now worker_id limit tasks).1
      ≡ some (write_claims (claimable locked now limit tasks) worker_id now t)
  unfolding claim_available
  claim_available-row =
      get_task-map (write_claims (claimable locked now limit tasks) worker_id now)
        (write_claims-id (claimable locked now limit tasks) worker_id now) id tasks found

  own : get_task t.id tasks ≡ some t
  own = subst (λ i. get_task i tasks ≡ some t) (sym (get_task-id id tasks found)) found

  -- A row that is not free stays as it is.
  pub claim_available-passes :
      is_open locked now t ≡ false
      → get_task id (claim_available locked now worker_id limit tasks).1 ≡ some t
  claim_available-passes shut = elim (Bool-cases (is_in (claimable locked now limit tasks) t)) [
    | inl taken ↦ true_is_not_false shut (
        is_in-IsClaimable locked now tasks (claimable locked now limit tasks) t
          (claimable-IsClaimable locked now limit tasks keyed) own taken)
    | inr passed ↦ claim_available-row ∙ rw passed refl
  ]

  is_in-free :
      is_open locked now t ≡ true
      → length (where_true (is_open locked now) tasks) ≤ limit
      → is_in (claimable locked now limit tasks) t ≡ true
  unfolding claimable get_task
  is_in-free free room =
      let rows = where_true (is_open locked now) tasks in
      let size : length (sort_by claims_before rows) ≤ limit =
        rw (length-sort_by claims_before rows) room in
      rw (take_all limit (sort_by claims_before rows) size) (
        any_where-sort_by claims_before (λ row. row.id == t.id) rows
        ∙ any_where-where_true (λ row. row.id == t.id) (is_open locked now) tasks own free)

  -- A free row is taken, where the limit has room for all of them.
  pub claim_available-takes :
      is_open locked now t ≡ true
      → length (where_true (is_open locked now) tasks) ≤ limit
      → get_task id (claim_available locked now worker_id limit tasks).1
        ≡ some (claim_task worker_id now t)
  claim_available-takes free room = claim_available-row ∙ rw (is_in-free free room) refl
