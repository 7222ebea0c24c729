-- ===== src/BomBackfill/Tests.antt =====
-- Runs of the queue and the theorems at concrete rows.
use auto_scheduling_system.Prelude.{
  ℕ, ◌≡◌, refl, true, false, none, some, [], ◌∷◌, Bool, Text, codes, arith, length, map, text_eq,
  if◌then◌else◌, ◌≤◌, ◌<◌, suc, ◌+◌, ◌⊎◌,
}
use auto_scheduling_system.SyncJobs.{Time, SyncJobLog, no_result}
use auto_scheduling_system.BomBackfill.{
  QueueStatus, QueueItem, Queue, Settings, get_item, update_item, permanent_error,
}
use auto_scheduling_system.Bom.{column_eq}
use auto_scheduling_system.BomBackfill.Repo.{claim_batch, claim_item}
use auto_scheduling_system.BomBackfill.Failure.{Execution, apply_failure, transient_error}
use auto_scheduling_system.BomBackfill.Enqueue.{new_item, upsert_queue_item}
use auto_scheduling_system.BomBackfill.Consume.{
  Outcome, raised, executed, Tables, Run, empty_consume_result, record_execution, chunk_queue_items,
}
use auto_scheduling_system.BomBackfill.Service.{consume_queue, running_job}
use auto_scheduling_system.BomBackfill.Waiting.{Step, Reach, here, next}
use auto_scheduling_system.BomBackfill.Due.{Reach-claimed}
use auto_scheduling_system.BomBackfill.Quiet.{Quiet, IsProcessing}
use auto_scheduling_system.BomBackfill.Stuck.{consume_queue-raised}
use auto_scheduling_system.BomBackfill.Retries.{
  IsGivenUp, IsRetried, fail_times, apply_failure_lem, fail_times_lem,
}
use auto_scheduling_system.BomBackfill.Batches.{AreChunks, chunk_queue_items_lem}
use auto_scheduling_system.BomBackfill.Counts.{
  IsCounted, IsSkipped, claim_of, consume_queue-IsCounted, record_execution-limit,
}

abbrev settings : Settings
settings = record {
  max_items_per_run = 10;
  batch_size = 2;
  max_fail_count = 3;
  retry_base_minutes = 5;
  empty_result_retry_minutes = 60;
  job_timeout_seconds = 600;
}

abbrev item_of : ℕ → Text → QueueItem
unfolding new_item
item_of id material = new_item 100 id material (codes "1000") (codes "sync") (codes "new")

abbrev tables : Tables
tables = record {
  items = item_of 1 (codes "M1") ∷ item_of 2 (codes "M2") ∷ item_of 3 (codes "M3") ∷ [];
  jobs = [];
  next_job_id = 7;
}

abbrev timeout : Execution
timeout = record {
  success = false;
  inserted_rows = 0;
  error_kind = some transient_error;
  error_message = some (codes "timeout");
}

abbrev no_lock : ℕ → Bool
no_lock id = false

abbrev timing_out : Text → Text → Outcome
timing_out material plant = executed timeout

-- All three fail, in two batches.
timing_out_run :
    (consume_queue settings timing_out no_lock 200
      (codes "s")
      (codes "r")
      none
      tables).0.retry_wait_items
    ≡ 3
unfolding consume_queue item_of
timing_out_run = refl

-- Of a run in which the machine M2 is the second of the first batch and raises, the first batch's rows
-- go back to what the claim has left, and the third item is not reached.
abbrev raising_at_m2 : Text → Text → Outcome
unfolding text_eq
raising_at_m2 material plant =
    if text_eq material (codes "M2") then raised (codes "broken") else executed timeout

raising_run :
    map {B = QueueStatus × ℕ}
      (λ (item : QueueItem). (item.status, item.fail_count))
      (consume_queue settings raising_at_m2 no_lock 200 (codes "s") (codes "r") none tables).1.items
    ≡ (QueueStatus.processing, 0) ∷ (QueueStatus.processing, 0) ∷ (QueueStatus.processing, 0) ∷ []
unfolding consume_queue item_of raising_at_m2
raising_run = refl

consume_queue-IsCounted_example :
    ((job : SyncJobLog)
      → (running_job settings 200 none []).0 ≡ some job
      → IsSkipped job tables
          (consume_queue settings raising_at_m2 no_lock 200 (codes "s") (codes "r") none tables))
    × ((running_job settings 200 none []).0 ≡ none
        → IsCounted
            (length (claim_of settings no_lock 200 tables).0)
            (length (claim_of settings no_lock 200 tables).0)
            (consume_queue settings raising_at_m2 no_lock 200
              (codes "s")
              (codes "r")
              none
              tables).0)
consume_queue-IsCounted_example =
    consume_queue-IsCounted settings raising_at_m2 no_lock 200 (codes "s") (codes "r") none tables

abbrev last_attempt : QueueItem
unfolding item_of
last_attempt = record (item_of 1 (codes "M1")) { fail_count = 2; status = QueueStatus.processing }

abbrev last_run : Run
unfolding last_attempt
last_run = record {
  result = empty_consume_result;
  sync_result = no_result;
  tables = record { items = last_attempt ∷ []; jobs = []; next_job_id = 8 };
}

record_execution-limit_example :
    ((record_execution settings 200 7 last_attempt timeout last_run).result.retry_wait_items ≡ 1)
    × (after : QueueItem) × (get_item 1
          (record_execution settings 200 7 last_attempt timeout last_run).tables.items
        ≡ some after)
    × (after.status ≡ QueueStatus.failed)
unfolding last_attempt last_run item_of get_item text_eq
record_execution-limit_example =
    record_execution-limit settings 200 7 last_attempt timeout last_run refl refl refl (omega arith)

abbrev failed_once : QueueItem
unfolding item_of apply_failure
failed_once = apply_failure settings 200 7 timeout (item_of 1 (codes "M1"))

abbrev failed_once_queue : Queue
unfolding failed_once
failed_once_queue = record { items = failed_once ∷ []; next_id = 2 }

abbrev history : Reach settings (record { items = []; next_id = 1 }) failed_once_queue
unfolding item_of failed_once failed_once_queue upsert_queue_item update_item
history =
    next
      (next here (
        Step.track (record { items = []; next_id = 1 }) 100 (codes "sync") (codes "new") none
          (codes "M1") (codes "1000")))
      (Step.fail (record { items = item_of 1 (codes "M1") ∷ []; next_id = 2 }) 200 1 7 timeout)

Reach-claimed_example :
    (due_at : Time) × (failed_once.next_retry_at ≡ some due_at)
    × ((1000000000000 < due_at)
        ⊎ (get_item 1 (claim_batch no_lock 1000000000000 2 failed_once_queue.items).1
            ≡ some (claim_item 1000000000000 failed_once)))
unfolding failed_once failed_once_queue history get_item
Reach-claimed_example =
    Reach-claimed settings (record { items = []; next_id = 1 }) failed_once_queue 1 1000000000000 2
      refl history refl refl (omega arith)

apply_failure_lem_example :
    ((apply_failure settings 200 7 timeout failed_once).fail_count ≡ 2)
    × (((column_eq timeout.error_kind permanent_error ≡ true) ⊎ (settings.max_fail_count ≤ 2))
          × IsGivenUp timeout (apply_failure settings 200 7 timeout failed_once)
        ⊎ (column_eq timeout.error_kind permanent_error ≡ false)
          × IsRetried settings 200 timeout (apply_failure settings 200 7 timeout failed_once))
unfolding failed_once
apply_failure_lem_example = apply_failure_lem settings 200 7 timeout failed_once

fail_times_lem_example :
    ((n : ℕ)
      → suc n < 3
      → (fail_times settings
          (λ _. 7)
          (λ n. 200 + n)
          timeout
          (suc n)
          (item_of 1 (codes "M1"))).status
        ≡ QueueStatus.retry_wait)
    × ((n : ℕ)
        → suc n ≡ 3
        → (fail_times settings
            (λ _. 7)
            (λ n. 200 + n)
            timeout
            (suc n)
            (item_of 1 (codes "M1"))).status
          ≡ QueueStatus.failed)
unfolding item_of text_eq
fail_times_lem_example =
    fail_times_lem settings (λ _. 7) (λ n. 200 + n) timeout (item_of 1 (codes "M1")) refl refl

-- The claimed row of M1 after the raising run.
consume_queue-raised_example :
    IsProcessing 1
      (consume_queue settings
        (λ _ _. raised (codes "broken"))
        no_lock
        200
        (codes "s")
        (codes "r")
        none
        tables).1.items
unfolding consume_queue item_of get_item claim_batch
consume_queue-raised_example =
    consume_queue-raised settings (codes "broken") no_lock 200 (codes "s") (codes "r") none tables 4
      1 refl (_, refl, refl) Quiet.start

chunk_queue_items_lem_example : AreChunks 2 tables.items (chunk_queue_items settings tables.items)
chunk_queue_items_lem_example = chunk_queue_items_lem settings tables.items
