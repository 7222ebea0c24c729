-- ===== src/BomBackfill/Enqueue.antt =====
-- services/api/app/sync/bom_backfill_queue_service.py: the candidates, their way into the queue,
-- and the manual retry.
use auto_scheduling_system.Prelude.{
  ℕ, ◌+◌, min, Bool, true, false, not, ◌&&◌, ◌||◌, Option, none, some, List, [], ◌∷◌, ◌++◌, map,
  length, ltb, leb, ◌==◌, if◌then◌else◌, Text, codes, text_eq, text_leb, is_empty, or_empty,
  any_where, where_true, first_where, sort_by,
}
use auto_scheduling_system.SyncJobs.{Time}
use auto_scheduling_system.Bom.{BomRelation}
use auto_scheduling_system.Orders.{SalesPlanOrderLine}
use auto_scheduling_system.BomBackfill.{QueueStatus, QueueItem, Queue, update_item}
use auto_scheduling_system.BomBackfill.Repo.{has_key, find_by_material_plants}
use auto_scheduling_system.BomBackfill.Messages.{
  auto_bom_enqueue_empty_message, auto_bom_enqueue_summary_message,
}

-- `func.coalesce(plant, "1000")`
abbrev pub or_default_plant : Option Text → Text
or_default_plant none = codes "1000"
or_default_plant (some plant) = plant

-- `exists(...)` of the BOM's rows.
abbrev pub has_bom_row : List BomRelation → Text → Text → Bool
has_bom_row bom material plant =
    any_where
      (λ row.
        text_eq row.machine_material_no material && text_eq (or_default_plant row.plant) plant)
      bom

-- The conditions of the query; an empty or missing list of ids restricts nothing there.
abbrev pub is_candidate : List BomRelation → List ℕ → SalesPlanOrderLine → Bool
is_candidate bom order_line_ids order =
    (elim order.confirmed_delivery_date [ none ↦ false | some _ ↦ true ])
    && (order.drawing_released
        && ((elim order.material_no [
          | none ↦ false
          | some material ↦ not (has_bom_row bom material (or_default_plant order.delivery_plant))
        ])
            && (elim order_line_ids [
              | [] ↦ true
              | id ∷ ids ↦ any_where (λ i. i == order.id) (id ∷ ids)
            ])))

pub record Candidates : Type 0 where
  pub order_ids : List ℕ
  pub items : List (Text × Text)

-- `unique_items.add((material_no, plant))`, where the material is not empty.
unfoldable pub unique_items : List (Text × Text) → List SalesPlanOrderLine → List (Text × Text)
unfolding text_eq
unique_items seen [] = []
unique_items seen (order ∷ orders) =
    let material = or_empty order.material_no in
    let plant = or_default_plant order.delivery_plant in
    let later = unique_items ((material, plant) ∷ seen) orders in
    let rest = unique_items seen orders in
    if is_empty material || any_where (λ pair. text_eq pair.0 material && text_eq pair.1 plant) seen
    then rest
    else (material, plant) ∷ later

abbrev pub pair_before : Text × Text → Text × Text → Bool
pair_before (m, p) (n, q) = if text_eq m n then text_leb p q else text_leb m n

-- `_load_candidates`; the ids of the orders are distinct.
unfoldable pub load_candidates :
    List SalesPlanOrderLine → List BomRelation → Option (List ℕ) → Candidates
unfolding text_eq unique_items sort_by
load_candidates orders bom (some []) = record { order_ids = []; items = [] }
load_candidates orders bom none =
    let found = where_true (is_candidate bom []) orders in
    record {
      order_ids = sort_by leb (map (λ order. order.id) found);
      items = sort_by pair_before (unique_items [] found);
    }
load_candidates orders bom (some (id ∷ ids)) =
    let found = where_true (is_candidate bom (id ∷ ids)) orders in
    record {
      order_ids = sort_by leb (map (λ order. order.id) found);
      items = sort_by pair_before (unique_items [] found);
    }

pub data Action : Type 0 where
  enqueued reactivated already_tracked : Action

unfoldable pub new_item : Time → ℕ → Text → Text → Text → Text → QueueItem
new_item now id material_no plant source reason = record {
  id = id;
  material_no = material_no;
  plant = plant;
  source = source;
  trigger_reason = some reason;
  status = QueueStatus.pending;
  priority = 100;
  fail_count = 0;
  failure_kind = none;
  last_error = none;
  next_retry_at = none;
  first_detected_at = now;
  last_attempt_at = none;
  resolved_at = none;
  last_job_id = none;
}

abbrev pub is_reactivated : QueueStatus → Bool
is_reactivated QueueStatus.failed = true
is_reactivated QueueStatus.retry_wait = true
is_reactivated QueueStatus.success = true
is_reactivated _ = false

-- `entity.priority or 100`
abbrev pub priority_or_100 : ℕ → ℕ
priority_or_100 n = if n == 0 then 100 else n

-- What `_upsert_queue_item` writes to a row that is there.
unfoldable pub track_item : Text → Text → QueueItem → QueueItem
track_item source reason item =
    let tracked = record item {
      source = source;
      trigger_reason = some reason;
      priority = min (priority_or_100 item.priority) 100;
    } in
    if is_reactivated item.status
    then record tracked {
      status = QueueStatus.pending;
      fail_count = 0;
      next_retry_at = none;
      failure_kind = none;
      last_error = none;
      resolved_at = none;
      last_job_id = none;
    }
    else tracked

-- `_upsert_queue_item`
unfoldable pub upsert_queue_item :
    Time → Text → Text → Queue → Option QueueItem → Text → Text → Action × Queue
unfolding new_item track_item update_item
upsert_queue_item now source reason queue none material_no plant = (
  Action.enqueued,
  record {
    items = queue.items ++ new_item now queue.next_id material_no plant source reason ∷ [];
    next_id = queue.next_id + 1;
  },
)
upsert_queue_item now source reason queue (some entity) material_no plant = (
  if is_reactivated entity.status then Action.reactivated else Action.already_tracked,
  record queue { items = update_item entity.id (track_item source reason) queue.items },
)

pub record EnqueueResult : Type 0 where
  pub created : Bool
  pub candidate_orders : ℕ
  pub candidate_items : ℕ
  pub enqueued_items : ℕ
  pub reactivated_items : ℕ
  pub already_tracked_items : ℕ
  pub message : Text

unfoldable pub count_action : Action → EnqueueResult → EnqueueResult
count_action Action.enqueued r = record r { enqueued_items = r.enqueued_items + 1 }
count_action Action.reactivated r = record r { reactivated_items = r.reactivated_items + 1 }
count_action Action.already_tracked r = record r {
  already_tracked_items = r.already_tracked_items + 1;
}

-- The loop over the candidates; `existing` are the rows that were read before it.
unfoldable pub upsert_items :
    Time
    → Text
    → Text
    → List QueueItem
    → EnqueueResult × Queue
    → List (Text × Text)
    → EnqueueResult × Queue
unfolding upsert_queue_item count_action text_eq
upsert_items now source reason existing (result, queue) [] = (result, queue)
upsert_items now source reason existing (result, queue) ((material_no, plant) ∷ items) =
    let (action, next) =
      upsert_queue_item now source reason queue (first_where (has_key material_no plant) existing)
        material_no plant in
    upsert_items now source reason existing (count_action action result, next) items

unfoldable pub enqueue_candidates :
    Time
    → Text
    → Text
    → List SalesPlanOrderLine
    → List BomRelation
    → Option (List ℕ)
    → Queue
    → EnqueueResult × Queue
unfolding load_candidates upsert_items find_by_material_plants
enqueue_candidates now source reason orders bom order_line_ids queue =
    let candidates = load_candidates orders bom order_line_ids in
    let start : EnqueueResult = record {
      created = false;
      candidate_orders = length candidates.order_ids;
      candidate_items = length candidates.items;
      enqueued_items = 0;
      reactivated_items = 0;
      already_tracked_items = 0;
      message = [];
    } in
    let (result, after) =
      upsert_items now source reason (find_by_material_plants queue.items candidates.items)
        (start, queue) candidates.items in
    elim candidates.items [
      | [] ↦ (record start { message = auto_bom_enqueue_empty_message source reason }, queue)
      | _ ∷ _ ↦ (
        record result {
          created = ltb 0 result.enqueued_items || ltb 0 result.reactivated_items;
          message =
              auto_bom_enqueue_summary_message result.candidate_orders result.candidate_items
                result.enqueued_items result.reactivated_items result.already_tracked_items;
        },
        after,
      )
    ]

abbrev pub is_retryable : QueueStatus → Bool
is_retryable QueueStatus.retry_wait = true
is_retryable QueueStatus.failed = true
is_retryable _ = false

unfoldable pub retry_item : QueueItem → QueueItem
retry_item item = record item {
  status = QueueStatus.pending;
  next_retry_at = none;
  failure_kind = none;
  last_error = none;
}

abbrev pub is_retried : List ℕ → QueueItem → Bool
is_retried ids item = any_where (λ id. id == item.id) ids && is_retryable item.status

-- The number of changed rows, and the table.
unfoldable pub retry_queue_items : List ℕ → List QueueItem → ℕ × List QueueItem
unfolding retry_item
retry_queue_items ids items = (
  length (where_true (is_retried ids) items),
  map (λ item. if is_retried ids item then retry_item item else item) items,
)
