-- ===== src/BomBackfill/Consume.antt =====
-- services/api/app/sync/bom_backfill_queue_service.py: the consumption of the queue. What
-- `BomSyncService.sync_item` does with a machine's BOM is an argument, `sync_item`: it gives an
-- execution, or the text of the exception that it raises. Its effect on the queue is here. The
-- operation reads the clock once; the pause between two batches is left out.
use auto_scheduling_system.Prelude.{
  ℕ, zero, suc, ◌+◌, Option, none, some, List, [], ◌∷◌, map, length, ◌==◌, if◌then◌else◌, Text,
  text_eq, take, drop,
}
use auto_scheduling_system.SyncJobs.{Time, SyncJobLog, SyncResult, no_result, finish_sync_job}
use auto_scheduling_system.Bom.{column_eq}
use auto_scheduling_system.BomBackfill.{QueueItem, Settings, get_item, update_item, permanent_error}
use auto_scheduling_system.BomBackfill.Failure.{Execution, apply_failure, mark_queue_success}
use auto_scheduling_system.BomBackfill.Messages.{
  queue_consume_progress_message, queue_consume_completed_message, queue_consume_failed_message,
  counts_text,
}

pub data Outcome : Type 0 where
  raised : Text → Outcome
  executed : Execution → Outcome

pub record ConsumeResult : Type 0 where
  pub job_id : Option ℕ
  pub claimed_items : ℕ
  pub processed_items : ℕ
  pub success_items : ℕ
  pub retry_wait_items : ℕ
  pub failed_items : ℕ
  pub total_success_rows : ℕ
  pub total_fail_rows : ℕ
  pub message : Text

abbrev pub empty_consume_result : ConsumeResult
empty_consume_result = record {
  job_id = none;
  claimed_items = 0;
  processed_items = 0;
  success_items = 0;
  retry_wait_items = 0;
  failed_items = 0;
  total_success_rows = 0;
  total_fail_rows = 0;
  message = [];
}

-- The tables of the queue and of the jobs, and the id of the next job.
pub record Tables : Type 0 where
  pub items : List QueueItem
  pub jobs : List SyncJobLog
  pub next_job_id : ℕ

-- A run between two items: the result so far, `total_sync_result` and the tables.
pub record Run : Type 0 where
  pub result : ConsumeResult
  pub sync_result : SyncResult
  pub tables : Tables

-- A loop that goes on, or that an exception has ended.
pub data Progress : Type 0 where
  goes_on : Run → Progress
  ends : Text → Run → Progress

unfoldable pub update_job : ℕ → (SyncJobLog → SyncJobLog) → List SyncJobLog → List SyncJobLog
update_job id change = map (λ job. if job.id == id then change job else job)

-- The chunks of a list, by fuel; each takes one item at least, so its length is enough.
unfoldable pub chunks : (fuel size : ℕ) → List QueueItem → List (List QueueItem)
chunks zero size items = []
chunks (suc fuel) size [] = []
chunks (suc fuel) size (item ∷ items) =
    take (suc size) (item ∷ items) ∷ chunks fuel size (drop size items)

-- A chunk has `max(1, batch_size)` items.
abbrev pub chunks_of : (batch_size : ℕ) → List QueueItem → List (List QueueItem)
chunks_of zero items = chunks (length items) 0 items
chunks_of (suc size) items = chunks (length items) size items

-- `_chunk_queue_items`
unfoldable pub chunk_queue_items : Settings → List QueueItem → List (List QueueItem)
unfolding chunks
chunk_queue_items settings items = chunks_of settings.batch_size items

abbrev pub count_success : Execution → Run → Run
count_success execution run = record run {
  result = record run.result {
    processed_items = run.result.processed_items + 1;
    success_items = run.result.success_items + 1;
  };
  sync_result = record run.sync_result {
    success_count = run.sync_result.success_count + execution.inserted_rows;
    insert_count = run.sync_result.insert_count + execution.inserted_rows;
  };
}

abbrev pub count_failure : Execution → Run → Run
count_failure execution run =
    let result = record run.result { processed_items = run.result.processed_items + 1 } in
    record run {
      result =
          if column_eq execution.error_kind permanent_error
          then record result { failed_items = result.failed_items + 1 }
          else record result { retry_wait_items = result.retry_wait_items + 1 };
      sync_result = record run.sync_result { fail_count = run.sync_result.fail_count + 1 };
    }

abbrev pub with_items : List QueueItem → Run → Run
with_items items run = record run { tables = record run.tables { items = items } }

-- One queue item whose row is there, after `sync_item`.
unfoldable pub record_execution : Settings → Time → (job_id : ℕ) → QueueItem → Execution → Run → Run
unfolding text_eq apply_failure mark_queue_success update_item
record_execution settings now job_id item execution run =
    if execution.success
    then with_items (mark_queue_success now item.material_no item.plant run.tables.items)
        (count_success execution run)
    else with_items
        (update_item item.id (apply_failure settings now job_id execution) run.tables.items)
        (count_failure execution run)

-- The loop over a batch. A row's id, material and plant do not change in between.
unfoldable pub consume_items :
    Settings
    → (sync_item : Text → Text → Outcome) → Time
    → (job_id : ℕ) → Run
    → List QueueItem
    → Progress
unfolding record_execution get_item
consume_items settings sync_item now job_id run [] = goes_on run
consume_items settings sync_item now job_id run (queue_item ∷ batch) =
    elim (get_item queue_item.id run.tables.items) [
      | none ↦ consume_items settings sync_item now job_id run batch
      | some live ↦ elim (sync_item live.material_no live.plant) [
        | raised text ↦ ends text run
        | executed execution ↦
            consume_items settings sync_item now job_id
              (record_execution settings now job_id live execution run) batch
      ]
    ]

abbrev pub result_counts : ConsumeResult → List Text
result_counts r =
    counts_text r.claimed_items r.processed_items r.success_items r.retry_wait_items r.failed_items

-- The end of a batch: the totals, and the job's progress.
unfoldable pub end_batch : (job_id current total : ℕ) → Run → Run
unfolding update_job queue_consume_progress_message counts_text
end_batch job_id current total run =
    let result : ConsumeResult = record run.result {
      total_success_rows = run.sync_result.success_count;
      total_fail_rows = run.sync_result.fail_count;
    } in
    let progress : SyncJobLog → SyncJobLog = λ job. record job {
      success_count = result.total_success_rows;
      fail_count = result.total_fail_rows;
      message = some (queue_consume_progress_message current total (result_counts result));
    } in
    record run {
      result = result;
      tables = record run.tables { jobs = update_job job_id progress run.tables.jobs };
    }

-- A batch in a session of its own: an exception rolls the batch's rows back.
unfoldable pub consume_batch :
    Settings
    → (sync_item : Text → Text → Outcome) → Time
    → (job_id current total : ℕ) → Run
    → List QueueItem
    → Progress
unfolding consume_items end_batch
consume_batch settings sync_item now job_id current total run batch =
    elim (consume_items settings sync_item now job_id run batch) [
      | goes_on after ↦ goes_on (end_batch job_id current total after)
      | ends text after ↦ ends text (record after { tables = run.tables })
    ]

unfoldable pub consume_batches :
    Settings
    → (sync_item : Text → Text → Outcome) → Time
    → (job_id current total : ℕ) → Run
    → List (List QueueItem)
    → Progress
unfolding consume_batch
consume_batches settings sync_item now job_id current total run [] = goes_on run
consume_batches settings sync_item now job_id current total run (batch ∷ batches) =
    elim (consume_batch settings sync_item now job_id current total run batch) [
      | goes_on after ↦
          consume_batches settings sync_item now job_id (current + 1) total after batches
      | ends text after ↦ ends text after
    ]

-- The last session: the job is finished, with its result or with the exception.
unfoldable pub finish_consume : Time → (job_id : ℕ) → Progress → ConsumeResult × Tables
unfolding update_job finish_sync_job queue_consume_completed_message counts_text
    queue_consume_failed_message
finish_consume now job_id (goes_on run) =
    let message =
      queue_consume_completed_message (result_counts run.result) run.result.total_success_rows
        run.result.total_fail_rows in
    let finish : SyncJobLog → SyncJobLog = λ job. finish_sync_job now job run.sync_result message in
    (
      record run.result { message = message },
      record run.tables { jobs = update_job job_id finish run.tables.jobs },
    )
finish_consume now job_id (ends text run) =
    let message = queue_consume_failed_message text in
    let fail_result : SyncResult = record no_result {
      success_count = run.result.total_success_rows;
      fail_count = run.result.total_fail_rows + 1;
      insert_count = run.result.total_success_rows;
    } in
    let finish : SyncJobLog → SyncJobLog = λ job. finish_sync_job now job fail_result message in
    (
      record run.result { message = message },
      record run.tables { jobs = update_job job_id finish run.tables.jobs },
    )
