-- ===== src/BomBackfill.antt =====
-- services/api/app/models/bom_backfill_queue.py and common/enums.py: the rows of the queue of
-- machines whose BOM is missing. The repository, the queue's service and the messages are the
-- children. Times are as in `SyncJobs`; an operation reads the clock once. A priority and a count
-- of failures are not negative.
pub mod Repo
pub mod Enqueue
pub mod Failure
pub mod Messages
pub mod Consume
pub mod Service
pub mod Retries
pub mod Waiting
pub mod Due
pub mod Quiet
pub mod Stuck
pub mod Batches
pub mod Counts
mod Tests
use auto_scheduling_system.Prelude.{
  ℕ, ◌*◌, Bool, true, false, ◌&&◌, Option, List, ◌==◌, if◌then◌else◌, Text, codes, text_eq,
  first_where, map,
}
use auto_scheduling_system.SyncJobs.{Time, seconds}

-- `timedelta(minutes=n)`
abbrev pub minutes : ℕ → Time
minutes n = seconds (n * 60)

pub data QueueStatus : Type 0 where
  pending processing retry_wait success failed paused : QueueStatus

abbrev pub is_pending : QueueStatus → Bool
is_pending QueueStatus.pending = true
is_pending _ = false

abbrev pub is_processing : QueueStatus → Bool
is_processing QueueStatus.processing = true
is_processing _ = false

abbrev pub is_retry_wait : QueueStatus → Bool
is_retry_wait QueueStatus.retry_wait = true
is_retry_wait _ = false

-- The kinds of a failure that the queue tests for.
abbrev pub permanent_error : Text
permanent_error = codes "permanent_error"

abbrev pub empty_result : Text
empty_result = codes "empty_result"

pub record QueueItem : Type 0 where
  pub id : ℕ
  pub material_no : Text
  pub plant : Text
  pub source : Text
  pub trigger_reason : Option Text
  pub status : QueueStatus
  pub priority : ℕ
  pub fail_count : ℕ
  pub failure_kind : Option Text
  pub last_error : Option Text
  pub next_retry_at : Option Time
  pub first_detected_at : Time
  pub last_attempt_at : Option Time
  pub resolved_at : Option Time
  pub last_job_id : Option ℕ

pub record Settings : Type 0 where
  pub max_items_per_run : ℕ
  pub batch_size : ℕ
  pub max_fail_count : ℕ
  pub retry_base_minutes : ℕ
  pub empty_result_retry_minutes : ℕ
  pub job_timeout_seconds : ℕ

-- The table, and the id of the next row.
pub record Queue : Type 0 where
  pub items : List QueueItem
  pub next_id : ℕ

unfoldable pub get_item : ℕ → List QueueItem → Option QueueItem
get_item id items = first_where (λ item. item.id == id) items

unfoldable pub update_item : ℕ → (QueueItem → QueueItem) → List QueueItem → List QueueItem
update_item id change = map (λ item. if item.id == id then change item else item)
