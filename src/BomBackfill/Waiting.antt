-- ===== src/BomBackfill/Waiting.antt =====
-- services/api/app/sync/bom_backfill_queue_service.py and repository/bom_backfill_queue_repo.py: the
-- history of the queue as a step relation, and the items that wait for a retry in it.
use auto_scheduling_system.Prelude.{
  ℕ, ◌<◌, ◌≡◌, refl, Bool, false, Option, none, some, List, [], ◌∷◌, map, ◌⊎◌, inl, inr, Bool-cases,
  Text, ◌==◌, All, All-append, All-map, if◌then◌else◌,
}
use auto_scheduling_system.SyncJobs.{Time}
use auto_scheduling_system.BomBackfill.{QueueItem, Queue, Settings, update_item, is_retry_wait}
use auto_scheduling_system.BomBackfill.Repo.{claim_batch, claim_item, is_in, claimable, has_key}
use auto_scheduling_system.BomBackfill.Failure.{
  Execution, apply_failure, mark_queue_success, resolve_item,
}
use auto_scheduling_system.BomBackfill.Enqueue.{
  upsert_queue_item, new_item, track_item, is_reactivated, retry_queue_items, retry_item,
  is_retried,
}
use auto_scheduling_system.BomBackfill.Retries.{apply_failure_lem}

-- One write of the queue: a candidate is tracked, a batch is claimed, items are retried by hand, an
-- execution fails or succeeds.
pub data Step (settings : Settings) : Queue → Queue → Type 0 where
  track :
      (queue : Queue) (now : Time) (source reason : Text) (entity : Option QueueItem)
      (material_no plant : Text)
      → Step settings queue (upsert_queue_item now source reason queue entity material_no plant).1
  claim :
      (queue : Queue) (locked : ℕ → Bool) (now : Time) (limit : ℕ)
      → Step settings queue (record queue { items = (claim_batch locked now limit queue.items).1 })
  retry :
      (queue : Queue) (ids : List ℕ)
      → Step settings queue (record queue { items = (retry_queue_items ids queue.items).1 })
  fail :
      (queue : Queue) (now : Time) (id job_id : ℕ) (execution : Execution)
      → Step settings queue (record queue {
        items = update_item id (apply_failure settings now job_id execution) queue.items;
      })
  succeed :
      (queue : Queue) (now : Time) (material_no plant : Text)
      → Step settings queue
          (record queue { items = mark_queue_success now material_no plant queue.items })

pub data Reach (settings : Settings) (start : Queue) : Queue → Type 0 where
  here : Reach settings start start
  next :
      {before after : Queue}
      → Reach settings start before
      → Step settings before after
      → Reach settings start after

-- A status that does not wait, or a retry with its time and an attempt left.
abbrev pub IsWaiting : Settings → QueueItem → Type 0
IsWaiting settings item =
    (is_retry_wait item.status ≡ false)
    ⊎ ((item.fail_count < settings.max_fail_count) × (at : Time) × (item.next_retry_at ≡ some at))

-- A change of some rows.
All-change {κ} :
    (P : QueueItem → Type κ) (test : QueueItem → Bool) (change : QueueItem → QueueItem)
    (items : List QueueItem)
    → ((item : QueueItem) → P item → P (change item))
    → All P items
    → All P (map (λ item. if test item then change item else item) items)
All-change P test change items keep h =
    All-map P P (λ item. if test item then change item else item) items
      (λ item p. elim (Bool-cases (test item)) [ inl e ↦ rw e (keep item p) | inr e ↦ rw e p ]) h

track_item-IsWaiting :
    (settings : Settings) (source reason : Text) (item : QueueItem)
    → IsWaiting settings item
    → IsWaiting settings (track_item source reason item)
unfolding track_item
track_item-IsWaiting settings source reason item h =
    elim (Bool-cases (is_reactivated item.status)) [ inl e ↦ rw e (inl refl) | inr e ↦ rw e h ]

apply_failure-IsWaiting :
    (settings : Settings) (now : Time) (job_id : ℕ) (execution : Execution) (item : QueueItem)
    → IsWaiting settings (apply_failure settings now job_id execution item)
apply_failure-IsWaiting settings now job_id execution item =
    elim (apply_failure_lem settings now job_id execution item).1 [
      | inl h ↦ inl (rw h.1.0)
      | inr h ↦ inr (h.1.1, h.1.3, h.1.4)
    ]

Step-IsWaiting :
    {settings : Settings} {before after : Queue}
    → Step settings before after
    → All (IsWaiting settings) before.items
    → All (IsWaiting settings) after.items
unfolding upsert_queue_item new_item update_item claim_batch claim_item retry_queue_items retry_item
    mark_queue_success resolve_item
Step-IsWaiting {settings} (track queue now source reason none material_no plant) h =
    All-append (IsWaiting settings) queue.items
      (new_item now queue.next_id material_no plant source reason ∷ []) h (inl refl, tt)
Step-IsWaiting {settings} (track queue now source reason (some entity) material_no plant) h =
    All-change (IsWaiting settings) (λ item. item.id == entity.id) (track_item source reason)
      queue.items (track_item-IsWaiting settings source reason) h
Step-IsWaiting {settings} (claim queue locked now limit) h =
    All-change (IsWaiting settings) (is_in (claimable locked now limit queue.items))
      (claim_item now) queue.items (λ item p. inl refl) h
Step-IsWaiting {settings} (retry queue ids) h =
    All-change (IsWaiting settings) (is_retried ids) retry_item queue.items (λ item p. inl refl) h
Step-IsWaiting {settings} (fail queue now id job_id execution) h =
    All-change (IsWaiting settings) (λ item. item.id == id)
      (apply_failure settings now job_id execution) queue.items
      (λ item p. apply_failure-IsWaiting settings now job_id execution item) h
Step-IsWaiting {settings} (succeed queue now material_no plant) h =
    All-change (IsWaiting settings) (has_key material_no plant) (resolve_item now) queue.items
      (λ item p. inl refl) h

-- Through any history of a queue that starts so, an item that waits for a retry has the time of the
-- retry and has failed less often than the limit.
pub Reach-IsWaiting :
    (settings : Settings) (start after : Queue)
    → All (IsWaiting settings) start.items
    → Reach settings start after
    → All (IsWaiting settings) after.items
Reach-IsWaiting settings start after h here = h
Reach-IsWaiting settings start after h (next earlier step) =
    Step-IsWaiting step (Reach-IsWaiting settings start _ h earlier)
