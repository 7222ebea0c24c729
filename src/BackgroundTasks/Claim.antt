-- ===== src/BackgroundTasks/Claim.antt =====
-- The claim of available tasks (background_task_repo.py).
use auto_scheduling_system.Prelude.{
  ℕ, ◌≡◌, refl, subst, inl, inr, Bool, true, false, not, ◌&&◌, some, List, [], ◌∷◌, map, arith, leb,
  ◌==◌, ==_iff, if◌then◌else◌, Bool-cases, All, All-take, All-sort_by, All-both, where_true, Text,
  All-where_both, All-imp, sort_by,
}
use auto_scheduling_system.SyncJobs.{Time}
use auto_scheduling_system.BackgroundTasks.{is_pending, BackgroundTask}
use auto_scheduling_system.BackgroundTasks.Table.{get_task}
use auto_scheduling_system.BackgroundTasks.Repo.{
  claim_available, claim_task, claimable, claims_before, is_available, is_in,
}
use auto_scheduling_system.BackgroundTasks.Keys.{IsKeyed, KeepsId, get_task-map, map-IsKeyed}

abbrev pub is_open : (ℕ → Bool) → Time → BackgroundTask → Bool
is_open locked now t = is_available now t && not (locked t.id)

-- A row of the table that the query admits.
abbrev pub IsClaimable : (ℕ → Bool) → Time → List BackgroundTask → BackgroundTask → Type 0
IsClaimable locked now tasks t =
    (get_task t.id tasks ≡ some t) × (is_available now t && not (locked t.id) ≡ true)

pub claimable-IsClaimable :
    (locked : ℕ → Bool) (now : Time) (limit : ℕ) (tasks : List BackgroundTask)
    → IsKeyed tasks
    → All (IsClaimable locked now tasks) (claimable locked now limit tasks)
unfolding claimable
claimable-IsClaimable locked now limit tasks keyed =
    let rows = where_true (is_open locked now) tasks in
    All-take (IsClaimable locked now tasks) limit (sort_by claims_before rows) (
      All-sort_by (IsClaimable locked now tasks) claims_before rows
        (All-where_both (λ t. get_task t.id tasks ≡ some t) (is_open locked now) tasks keyed))

-- A row of the table with the id of a claimed one is that one.
pub is_in-IsClaimable :
    (locked : ℕ → Bool) (now : Time) (tasks rows : List BackgroundTask) (t : BackgroundTask)
    → All (IsClaimable locked now tasks) rows
    → get_task t.id tasks ≡ some t
    → is_in rows t ≡ true
    → is_available now t && not (locked t.id) ≡ true
is_in-IsClaimable locked now tasks [] t h e m = cc
is_in-IsClaimable locked now tasks (row ∷ rows) t h e m = elim (Bool-cases (row.id == t.id)) [
  | inl same ↦
      let row_is : row ≡ t = cc ((==_iff row.id t.id).0 same, h.0.0, e) in
      subst (λ r. is_open locked now r ≡ true) row_is h.0.1
  | inr other ↦ is_in-IsClaimable locked now tasks rows t h.1 e (rw other at m)
]

-- `and` of Booleans.
&&-left : (a b : Bool) → a && b ≡ true → a ≡ true
&&-left a b h = ground arith

is_open-is_pending :
    (locked : ℕ → Bool) (now : Time) (t : BackgroundTask)
    → is_open locked now t ≡ true
    → is_pending t.status ≡ true
is_open-is_pending locked now t h =
    &&-left (is_pending t.status) (leb t.available_at now)
      (&&-left (is_available now t) (not (locked t.id)) h)

pub is_in-is_pending :
    (locked : ℕ → Bool) (now : Time) (limit : ℕ) (tasks : List BackgroundTask) (t : BackgroundTask)
    → IsKeyed tasks
    → get_task t.id tasks ≡ some t
    → is_in (claimable locked now limit tasks) t ≡ true
    → is_pending t.status ≡ true
is_in-is_pending locked now limit tasks t keyed e m = is_open-is_pending locked now t (
    is_in-IsClaimable locked now tasks (claimable locked now limit tasks) t
      (claimable-IsClaimable locked now limit tasks keyed) e m)

abbrev pub write_claims :
    (rows : List BackgroundTask) → Text → Time → BackgroundTask → BackgroundTask
write_claims rows worker_id now task =
    if is_in rows task then claim_task worker_id now task else task

pub write_claims-id :
    (rows : List BackgroundTask) (worker_id : Text) (now : Time)
    → KeepsId (write_claims rows worker_id now)
unfolding claim_task
write_claims-id rows worker_id now t = ground arith

claim_available-IsKeyed :
    (locked : ℕ → Bool) (now : Time) (worker_id : Text) (limit : ℕ) (tasks : List BackgroundTask)
    → IsKeyed tasks
    → IsKeyed (claim_available locked now worker_id limit tasks).1
unfolding claim_available
claim_available-IsKeyed locked now worker_id limit tasks =
    let rows = claimable locked now limit tasks in
    map-IsKeyed (write_claims rows worker_id now) (write_claims-id rows worker_id now) tasks

is_in_cons :
    (x t : BackgroundTask) (rows : List BackgroundTask)
    → is_in rows t ≡ true
    → is_in (x ∷ rows) t ≡ true
is_in_cons x t rows h = ground arith

is_in_self : (rows : List BackgroundTask) → All (λ r. is_in rows r ≡ true) rows
is_in_self [] = tt
is_in_self (x ∷ rows) = (ground arith, All-imp rows (λ t. is_in_cons x t rows) (is_in_self rows))

not_in_claimed :
    (worker_id : Text) (now : Time) (tasks rows : List BackgroundTask) (t : BackgroundTask)
    → All (λ r. get_task r.id tasks ≡ some (claim_task worker_id now r)) rows
    → get_task t.id tasks ≡ some t
    → is_pending t.status ≡ true
    → is_in (map (claim_task worker_id now) rows) t ≡ false
unfolding claim_task
not_in_claimed worker_id now tasks [] t h e p = refl
not_in_claimed worker_id now tasks (r ∷ rows) t h e p = elim (Bool-cases (r.id == t.id)) [
  | inl same ↦
      let here : claim_task worker_id now r ≡ t = cc ((==_iff r.id t.id).0 same, h.0, e) in
      let stopped : is_pending t.status ≡ false =
        subst (λ u. is_pending u.status ≡ false) here refl in
      cc (p, stopped)
  | inr other ↦ rw other (not_in_claimed worker_id now tasks rows t h.1 e p)
]

-- In the table after a claim, no row that it returned is pending.
pub claimed_not_pending :
    (locked : ℕ → Bool) (now : Time) (worker_id : Text) (limit : ℕ) (tasks : List BackgroundTask)
    (t : BackgroundTask)
    → IsKeyed tasks
    → get_task t.id (claim_available locked now worker_id limit tasks).1 ≡ some t
    → is_pending t.status ≡ true
    → is_in (claim_available locked now worker_id limit tasks).0 t ≡ false
unfolding claim_available
claimed_not_pending locked now worker_id limit tasks t keyed e p =
    let rows = claimable locked now limit tasks in
    let write = write_claims rows worker_id now in
    not_in_claimed worker_id now (map write tasks) rows t
      (All-imp rows
        (λ r h.
          subst
            (λ b.
              get_task r.id (map write tasks) ≡ some (if b then claim_task worker_id now r else r))
            h.1 (get_task-map write (write_claims-id rows worker_id now) r.id tasks h.0.0))
        (All-both (IsClaimable locked now tasks) (λ r. is_in rows r ≡ true) rows
          (claimable-IsClaimable locked now limit tasks keyed) (is_in_self rows)))
      e p

-- A task that one worker has claimed is not returned by a claim that follows at once, whichever
-- worker makes it, and whatever its clock, locks and limit.
pub claim_available-excludes :
    (locked locked' : ℕ → Bool) (now now' : Time) (worker_id worker_id' : Text) (limit limit' : ℕ)
    (tasks : List BackgroundTask)
    → IsKeyed tasks
    → All
        (λ t. is_in (claim_available locked now worker_id limit tasks).0 t ≡ false)
        (claimable locked' now' limit' (claim_available locked now worker_id limit tasks).1)
claim_available-excludes locked locked' now now' worker_id worker_id' limit limit' tasks keyed =
    let after = (claim_available locked now worker_id limit tasks).1 in
    All-imp (claimable locked' now' limit' after)
      (λ t h.
        claimed_not_pending locked now worker_id limit tasks t keyed h.0
          (is_open-is_pending locked' now' t h.1))
      (claimable-IsClaimable locked' now' limit' after
        (claim_available-IsKeyed locked now worker_id limit tasks keyed))
