-- ===== src/BomBackfill/Quiet.antt =====
-- services/api/app/sync/bom_backfill_queue_service.py: the history of a row while no outcome of an
-- execution is written.
use auto_scheduling_system.Prelude.{
  ℕ, ◌≡◌, refl, ap, Bool, true, false, Option, none, some, List, [], ◌∷◌, ◌++◌, map, inl, inr,
  Bool-cases, Text, first_where, any_where, ◌&&◌, ◌==◌, if◌then◌else◌,
}
use auto_scheduling_system.SyncJobs.{Time}
use auto_scheduling_system.BomBackfill.{QueueStatus, QueueItem, Queue, get_item, update_item}
use auto_scheduling_system.BomBackfill.Repo.{claim_batch, claim_item, claimable, is_in}
use auto_scheduling_system.BomBackfill.Enqueue.{
  upsert_queue_item, track_item, is_reactivated, retry_queue_items, retry_item, is_retried,
  is_retryable,
}
use auto_scheduling_system.BomBackfill.Due.{first_where-map}

-- The writes of the queue other than the outcome of an execution.
pub data Quiet (queue : Queue) : Queue → Type 0 where
  start : Quiet queue queue
  track :
      {before : Queue} (now : Time) (source reason : Text) (entity : Option QueueItem)
      (material_no plant : Text)
      → Quiet queue before
      → Quiet queue (upsert_queue_item now source reason before entity material_no plant).1
  claim :
      {before : Queue} (locked : ℕ → Bool) (now : Time) (limit : ℕ)
      → Quiet queue before
      → Quiet queue (record before { items = (claim_batch locked now limit before.items).1 })
  retry :
      {before : Queue} (ids : List ℕ)
      → Quiet queue before
      → Quiet queue (record before { items = (retry_queue_items ids before.items).1 })

-- The row of an id, which is being processed.
abbrev pub IsProcessing : ℕ → List QueueItem → Type 0
IsProcessing id items =
    (item : QueueItem) × (get_item id items ≡ some item) × (item.status ≡ QueueStatus.processing)

-- A change of some rows keeps the row and its status, if it keeps the id and the status.
change-IsProcessing :
    (id : ℕ) (test : QueueItem → Bool) (change : QueueItem → QueueItem) (items : List QueueItem)
    → ((item : QueueItem) → (change item).id ≡ item.id)
    → ((item : QueueItem)
        → item.status ≡ QueueStatus.processing
        → test item ≡ true
        → (change item).status ≡ QueueStatus.processing)
    → IsProcessing id items
    → IsProcessing id (map (λ item. if test item then change item else item) items)
unfolding get_item
change-IsProcessing id test change items same keep (item, found, status) =
    let step : QueueItem → QueueItem = λ row. if test row then change row else row in
    let kept : (row : QueueItem) → (step row).id ≡ row.id =
      λ row. elim (Bool-cases (test row)) [ inl e ↦ rw e (same row) | inr e ↦ rw e refl ] in
    (
      step item,
      first_where-map (λ row. row.id == id) step items (λ row. ap (λ i. i == id) (kept row)) found,
      elim (Bool-cases (test item)) [ inl e ↦ rw e (keep item status e) | inr e ↦ rw e status ],
    )

first_where-append {ℓ} :
    {A : Type ℓ} (test : A → Bool) (xs ys : List A) {x : A}
    → first_where test xs ≡ some x
    → first_where test (xs ++ ys) ≡ some x
first_where-append test [] ys e = cc
first_where-append test (y ∷ xs) ys {x} e = elim (Bool-cases (test y)) [
  | inl t ↦ rw t (rw t at e)
  | inr t ↦ rw t (first_where-append test xs ys (rw t at e))
]

track_item-id :
    (source reason : Text) (item : QueueItem) → (track_item source reason item).id ≡ item.id
unfolding track_item
track_item-id source reason item = elim (Bool-cases (is_reactivated item.status)) [
  | inl e ↦ rw e refl
  | inr e ↦ rw e refl
]

track_item-processing :
    (source reason : Text) (item : QueueItem)
    → item.status ≡ QueueStatus.processing
    → (track_item source reason item).status ≡ QueueStatus.processing
unfolding track_item
track_item-processing source reason item h =
    let kept : is_reactivated item.status ≡ false = rw h refl in rw kept h

and_right : (a b : Bool) → (a && b) ≡ true → b ≡ true
and_right true b h = h
and_right false b h = cc

not-is_retried-processing :
    (ids : List ℕ) (item : QueueItem)
    → item.status ≡ QueueStatus.processing
    → ¬ (is_retried ids item ≡ true)
not-is_retried-processing ids item h e =
    let retryable = and_right (any_where (λ id. id == item.id) ids) (is_retryable item.status) e in
    let not_retryable : is_retryable item.status ≡ false = rw h refl in cc

pub Quiet-IsProcessing :
    {queue after : Queue} (id : ℕ)
    → Quiet queue after
    → IsProcessing id queue.items
    → IsProcessing id after.items
unfolding upsert_queue_item update_item claim_batch claim_item retry_queue_items retry_item get_item
Quiet-IsProcessing id start h = h
Quiet-IsProcessing id (track {before} now source reason none material_no plant earlier) h =
    let (item, found, status) = Quiet-IsProcessing id earlier h in
    (item, first_where-append (λ row. row.id == id) before.items _ found, status)
Quiet-IsProcessing id (track {before} now source reason (some entity) material_no plant earlier) h =
    change-IsProcessing id (λ row. row.id == entity.id) (track_item source reason) before.items
      (track_item-id source reason) (λ item p _. track_item-processing source reason item p)
      (Quiet-IsProcessing id earlier h)
Quiet-IsProcessing id (claim {before} locked now limit earlier) h =
    change-IsProcessing id (is_in (claimable locked now limit before.items)) (claim_item now)
      before.items (λ _. refl) (λ _ _ _. refl) (Quiet-IsProcessing id earlier h)
Quiet-IsProcessing id (retry {before} ids earlier) h =
    change-IsProcessing id (is_retried ids) retry_item before.items (λ _. refl)
      (λ item p e. absurd (not-is_retried-processing ids item p e))
      (Quiet-IsProcessing id earlier h)
