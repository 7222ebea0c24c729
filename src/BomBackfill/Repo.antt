-- ===== src/BomBackfill/Repo.antt =====
-- services/api/app/repository/bom_backfill_queue_repo.py.
use auto_scheduling_system.Prelude.{
  ℕ, Bool, true, false, not, ◌&&◌, ◌||◌, Option, none, some, List, map, length, ltb, leb, ◌==◌,
  if◌then◌else◌, Text, text_eq, any_where, where_true, first_where, sort_by, take,
}
use auto_scheduling_system.SyncJobs.{Time}
use auto_scheduling_system.BomBackfill.{QueueStatus, QueueItem, is_pending, is_retry_wait}

-- `(entity.material_no, entity.plant) == (material_no, plant)`
abbrev pub has_key : Text → Text → QueueItem → Bool
has_key material_no plant item = text_eq item.material_no material_no && text_eq item.plant plant

unfoldable pub get_by_material_and_plant : List QueueItem → Text → Text → Option QueueItem
unfolding text_eq
get_by_material_and_plant items material_no plant = first_where (has_key material_no plant) items

unfoldable pub find_by_material_plants : List QueueItem → List (Text × Text) → List QueueItem
unfolding text_eq
find_by_material_plants items pairs =
    where_true (λ item. any_where (λ pair. has_key pair.0 pair.1 item) pairs) items

unfoldable pub find_by_ids : List QueueItem → List ℕ → List QueueItem
find_by_ids items ids = where_true (λ item. any_where (λ id. id == item.id) ids) items

abbrev pub is_retry_due : Time → QueueItem → Bool
is_retry_due now item =
    is_retry_wait item.status && elim item.next_retry_at [ none ↦ false | some t ↦ leb t now ]

-- The condition of `claim_batch` and of `get_oldest_pending`.
abbrev pub is_due : Time → QueueItem → Bool
is_due now item = is_pending item.status || is_retry_due now item

-- `order_by(priority.asc(), first_detected_at.asc(), id.asc())`
abbrev pub claims_before : QueueItem → QueueItem → Bool
claims_before a b =
    ltb a.priority b.priority
    || (a.priority == b.priority
        && (ltb a.first_detected_at b.first_detected_at
            || (a.first_detected_at == b.first_detected_at && leb a.id b.id)))

-- The rows of the query. `locked` are the ids that another transaction has locked.
unfoldable pub claimable : (locked : ℕ → Bool) → Time → ℕ → List QueueItem → List QueueItem
unfolding sort_by
claimable locked now limit items =
    take limit
      (sort_by claims_before (where_true (λ item. is_due now item && not (locked item.id)) items))

unfoldable pub claim_item : Time → QueueItem → QueueItem
claim_item now item = record item { status = QueueStatus.processing; last_attempt_at = some now }

abbrev pub is_in : List QueueItem → QueueItem → Bool
is_in rows item = any_where (λ row. row.id == item.id) rows

-- The rows that are returned, as they are after the claim, and the table after it.
unfoldable pub claim_batch :
    (locked : ℕ → Bool) → Time → ℕ → List QueueItem → List QueueItem × List QueueItem
unfolding claimable claim_item
claim_batch locked now limit items =
    let rows = claimable locked now limit items in
    (
      map (claim_item now) rows,
      map (λ item. if is_in rows item then claim_item now item else item) items,
    )

unfoldable pub count_retry_wait_due : Time → List QueueItem → ℕ
count_retry_wait_due now items = length (where_true (is_retry_due now) items)

abbrev pub detected_before : QueueItem → QueueItem → Bool
detected_before a b =
    ltb a.first_detected_at b.first_detected_at
    || (a.first_detected_at == b.first_detected_at && leb a.id b.id)

unfoldable pub get_oldest_pending : Time → List QueueItem → Option QueueItem
unfolding sort_by
get_oldest_pending now items =
    first_where (λ _. true) (sort_by detected_before (where_true (is_due now) items))
