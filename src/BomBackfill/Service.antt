-- ===== src/BomBackfill/Service.antt =====
-- services/api/app/sync/bom_backfill_queue_service.py: `consume_queue`, from the claim to the end of
-- its job.
use auto_scheduling_system.Prelude.{
  ℕ, ◌+◌, max, Bool, Option, none, some, List, [], ◌∷◌, ◌++◌, length, ◌==◌, Text, codes,
  first_where,
}
use auto_scheduling_system.SyncJobs.{
  Time, SyncJobLog, no_result, start_sync_job, finish_sync_job, get_running_sync_job,
}
use auto_scheduling_system.BomBackfill.{QueueItem, Settings}
use auto_scheduling_system.BomBackfill.Repo.{claim_batch}
use auto_scheduling_system.BomBackfill.Messages.{
  queue_consume_running_message, queue_consume_empty_message, queue_consume_started_message,
}
use auto_scheduling_system.BomBackfill.Consume.{
  Outcome, ConsumeResult, empty_consume_result, Tables, Run, update_job, chunk_queue_items,
  consume_batches, finish_consume,
}

unfoldable pub get_job : ℕ → List SyncJobLog → Option SyncJobLog
get_job id jobs = first_where (λ job. job.id == id) jobs

-- The job that is running, where the caller brings none, and the jobs after the recovery.
unfoldable pub running_job :
    Settings → Time → Option ℕ → List SyncJobLog → Option SyncJobLog × List SyncJobLog
unfolding get_running_sync_job
running_job settings now (some id) jobs = (none, jobs)
running_job settings now none jobs =
    get_running_sync_job settings.job_timeout_seconds now (codes "bom") (codes "sap") jobs

-- `session.get(SyncJobLog, existing_job_id)`
abbrev pub existing_job : Option ℕ → List SyncJobLog → Option SyncJobLog
existing_job none jobs = none
existing_job (some id) jobs = get_job id jobs

-- The job with its message, the job's id, and the tables: a job that is there, or a new one.
unfoldable pub start_consume : Settings → Time → Text → Option SyncJobLog → Tables → ℕ × Tables
unfolding update_job start_sync_job
start_consume settings now message (some job) tables = (
  job.id,
  record tables {
    jobs = update_job job.id (λ row. record row { message = some message }) tables.jobs;
  },
)
start_consume settings now message none tables = (
  tables.next_job_id,
  record tables {
    jobs =
        tables.jobs
        ++ record (start_sync_job settings.job_timeout_seconds now tables.next_job_id (codes "bom")
            (codes "sap") none none) { message = some message }
          ∷ [];
    next_job_id = tables.next_job_id + 1;
  },
)

abbrev pub start_run : List QueueItem → ℕ → Tables → Run
start_run claimed job_id tables = record {
  result = record empty_consume_result { job_id = some job_id; claimed_items = length claimed };
  sync_result = no_result;
  tables = tables;
}

-- The batches of the claimed items.
unfoldable pub consume_claimed :
    Settings
    → (sync_item : Text → Text → Outcome) → Time
    → List QueueItem
    → ℕ × Tables
    → ConsumeResult × Tables
unfolding chunk_queue_items consume_batches finish_consume
consume_claimed settings sync_item now claimed (job_id, tables) =
    let batches = chunk_queue_items settings claimed in
    finish_consume now job_id (
      consume_batches settings sync_item now job_id 1 (length batches)
        (start_run claimed job_id tables) batches)

-- No item was claimed.
unfoldable pub finish_empty :
    Time → Text → Option ℕ → Option SyncJobLog → Tables → ConsumeResult × Tables
unfolding update_job finish_sync_job
finish_empty now message existing_job_id job tables = (
  record empty_consume_result { job_id = existing_job_id; message = message },
  elim job [
    | none ↦ tables
    | some row ↦ record tables {
      jobs = update_job row.id (λ j. finish_sync_job now j no_result message) tables.jobs;
    }
  ],
)

-- From the claimed items on; `tables` are those after the claim.
unfoldable pub consume_rows :
    Settings
    → (sync_item : Text → Text → Outcome) → Time
    → (source reason : Text) → Option ℕ
    → Option SyncJobLog
    → List QueueItem
    → Tables
    → ConsumeResult × Tables
unfolding start_consume consume_claimed finish_empty queue_consume_empty_message
    queue_consume_started_message
consume_rows settings sync_item now source reason existing_job_id job [] tables =
    finish_empty now (queue_consume_empty_message source reason) existing_job_id job tables
consume_rows settings sync_item now source reason existing_job_id job (item ∷ rest) tables =
    consume_claimed settings sync_item now (item ∷ rest) (
      start_consume settings now
        (queue_consume_started_message (length (item ∷ rest)) (max 1 settings.batch_size)) job
        tables)

-- From the claim on; `jobs` are the rows after the recovery.
unfoldable pub consume_unless_running :
    Settings
    → (sync_item : Text → Text → Outcome) (locked : ℕ → Bool) → Time
    → (source reason : Text) → Option ℕ
    → Option SyncJobLog × List SyncJobLog
    → Tables
    → ConsumeResult × Tables
unfolding claim_batch consume_rows queue_consume_running_message get_job
consume_unless_running settings sync_item locked now source reason existing_job_id (some job, jobs)
      tables =
    (
      record empty_consume_result {
        job_id = some job.id;
        message = queue_consume_running_message source reason job.id;
      },
      tables,
    )
consume_unless_running settings sync_item locked now source reason existing_job_id (none, jobs)
      tables =
    let (claimed, items) = claim_batch locked now (max 1 settings.max_items_per_run) tables.items in
    consume_rows settings sync_item now source reason existing_job_id
      (existing_job existing_job_id jobs) claimed (record tables { items = items; jobs = jobs })

unfoldable pub consume_queue :
    Settings
    → (sync_item : Text → Text → Outcome) (locked : ℕ → Bool) → Time
    → (source reason : Text) → Option ℕ
    → Tables
    → ConsumeResult × Tables
unfolding consume_unless_running running_job
consume_queue settings sync_item locked now source reason existing_job_id tables =
    consume_unless_running settings sync_item locked now source reason existing_job_id
      (running_job settings now existing_job_id tables.jobs) tables
