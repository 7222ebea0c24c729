-- ===== src/BomBackfill/Stuck.antt =====
-- services/api/app/sync/bom_backfill_queue_service.py: what an exception in `consume_queue` leaves
-- behind.
use auto_scheduling_system.Prelude.{
  ℕ, ◌+◌, max, ◌≡◌, refl, sym, subst, ◌∙◌, Bool, Option, none, some, List, [], ◌∷◌, length, inl,
  inr, Option-cases, ◌⊎◌, Text,
}
use auto_scheduling_system.SyncJobs.{Time, SyncJobLog}
use auto_scheduling_system.BomBackfill.{QueueItem, Queue, Settings, get_item}
use auto_scheduling_system.BomBackfill.Repo.{claim_batch}
use auto_scheduling_system.BomBackfill.Consume.{
  Outcome, raised, Tables, Run, Progress, goes_on, ends, consume_items, consume_batch,
  consume_batches, end_batch, finish_consume, chunk_queue_items,
}
use auto_scheduling_system.BomBackfill.Service.{
  running_job, consume_claimed, start_run, consume_rows, start_consume, finish_empty,
  consume_unless_running, consume_queue, existing_job,
}
use auto_scheduling_system.BomBackfill.Messages.{
  queue_consume_empty_message, queue_consume_started_message,
}
use auto_scheduling_system.BomBackfill.Quiet.{Quiet, IsProcessing, Quiet-IsProcessing}

module _ (settings : Settings) (text : Text) (now : Time) (job_id : ℕ) where
  abbrev raising : Text → Text → Outcome
  raising material_no plant = raised text

  -- The rows of the queue that a loop has.
  abbrev rows_of : Progress → List QueueItem
  rows_of (goes_on run) = run.tables.items
  rows_of (ends _ run) = run.tables.items

  consume_items-raising :
      (run : Run) (batch : List QueueItem)
      → rows_of (consume_items settings raising now job_id run batch) ≡ run.tables.items
  unfolding consume_items
  consume_items-raising run [] = refl
  consume_items-raising run (item ∷ batch) =
      elim (Option-cases (get_item item.id run.tables.items)) [
        | inl e ↦ rw (e, rows_of) (consume_items-raising run batch)
        | inr (live, e) ↦ rw (e, rows_of) refl
      ]

  end_rows :
      (current total : ℕ) (run : Run) (progress : Progress)
      → rows_of progress ≡ run.tables.items
      → rows_of (elim progress [
        | goes_on after ↦ goes_on (end_batch job_id current total after)
        | ends e after ↦ ends e (record after { tables = run.tables })
      ])
        ≡ run.tables.items
  unfolding end_batch
  end_rows current total run (goes_on after) h = h
  end_rows current total run (ends e after) h = refl

  consume_batch-raising :
      (current total : ℕ) (run : Run) (batch : List QueueItem)
      → rows_of (consume_batch settings raising now job_id current total run batch)
        ≡ run.tables.items
  unfolding consume_batch
  consume_batch-raising current total run batch =
      end_rows current total run (consume_items settings raising now job_id run batch)
        (consume_items-raising run batch)

  Progress-cases :
      (progress : Progress)
      → ((run : Run) × (progress ≡ goes_on run))
        ⊎ ((e : Text) × (run : Run) × (progress ≡ ends e run))
  Progress-cases (goes_on run) = inl (run, refl)
  Progress-cases (ends e run) = inr (e, run, refl)

  consume_batches-raising :
      (current total : ℕ) (run : Run) (batches : List (List QueueItem))
      → rows_of (consume_batches settings raising now job_id current total run batches)
        ≡ run.tables.items
  unfolding consume_batches
  consume_batches-raising current total run [] = refl
  consume_batches-raising current total run (batch ∷ batches) =
      let progress = consume_batch settings raising now job_id current total run batch in
      let same = consume_batch-raising current total run batch in
      elim (Progress-cases progress) [
        | inl (after, e) ↦
            rw (e, rows_of)
              (consume_batches-raising (current + 1) total after batches ∙ (rw e at same))
        | inr (text_of, after, e) ↦ rw (e, rows_of) (rw e at same)
      ]

  finish_consume-items :
      (progress : Progress) → (finish_consume now job_id progress).1.items ≡ rows_of progress
  unfolding finish_consume
  finish_consume-items (goes_on run) = refl
  finish_consume-items (ends e run) = refl

  consume_claimed-raising :
      (claimed : List QueueItem) (tables : Tables)
      → (consume_claimed settings raising now claimed (job_id, tables)).1.items ≡ tables.items
  unfolding consume_claimed
  consume_claimed-raising claimed tables =
      let batches = chunk_queue_items settings claimed in
      let start = start_run claimed job_id tables in
      finish_consume-items
        (consume_batches settings raising now job_id 1 (length batches) start batches)
      ∙ consume_batches-raising 1 (length batches) start batches

start_consume-items :
    (settings : Settings) (now : Time) (message : Text) (job : Option SyncJobLog) (tables : Tables)
    → (start_consume settings now message job tables).1.items ≡ tables.items
unfolding start_consume
start_consume-items settings now message none tables = refl
start_consume-items settings now message (some job) tables = refl

finish_empty-items :
    (now : Time) (message : Text) (id : Option ℕ) (job : Option SyncJobLog) (tables : Tables)
    → (finish_empty now message id job tables).1.items ≡ tables.items
unfolding finish_empty
finish_empty-items now message id none tables = refl
finish_empty-items now message id (some job) tables = refl

module _ (settings : Settings) (text : Text) (locked : ℕ → Bool) (now : Time) (source reason : Text)
    (existing_job_id : Option ℕ) where
  abbrev claimed_items : Tables → List QueueItem
  claimed_items tables = (claim_batch locked now (max 1 settings.max_items_per_run) tables.items).1

  consume_rows-raising :
      (job : Option SyncJobLog) (claimed : List QueueItem) (tables : Tables)
      → (consume_rows settings
          (λ _ _. raised text)
          now
          source
          reason
          existing_job_id
          job
          claimed
          tables).1.items
        ≡ tables.items
  unfolding consume_rows
  consume_rows-raising job [] tables =
      finish_empty-items now (queue_consume_empty_message source reason) existing_job_id job tables
  consume_rows-raising job (item ∷ rest) tables =
      let message =
        queue_consume_started_message (length (item ∷ rest)) (max 1 settings.batch_size) in
      let (job_id, started) = start_consume settings now message job tables in
      consume_claimed-raising settings text now job_id (item ∷ rest) started
      ∙ start_consume-items settings now message job tables

  consume_unless_running-raising :
      (running : Option SyncJobLog × List SyncJobLog) (tables : Tables)
      → running.0 ≡ none
      → (consume_unless_running settings
          (λ _ _. raised text)
          locked
          now
          source
          reason
          existing_job_id
          running
          tables).1.items
        ≡ claimed_items tables
  unfolding consume_unless_running
  consume_unless_running-raising (some job, jobs) tables h = cc
  consume_unless_running-raising (none, jobs) tables h =
      let after : Tables = record tables { items = claimed_items tables; jobs = jobs } in
      consume_rows-raising (existing_job existing_job_id jobs)
        (claim_batch locked now (max 1 settings.max_items_per_run) tables.items).0 after

-- Where no job runs and each synchronisation raises an exception, `consume_queue` leaves the items
-- that it has claimed as being processed, and no later claim, manual retry or tracking of candidates
-- changes their status.
pub consume_queue-raised :
    (settings : Settings) (text : Text) (locked : ℕ → Bool) (now : Time) (source reason : Text)
    (existing_job_id : Option ℕ) (tables : Tables) (next_id id : ℕ) {after : Queue}
    → (running_job settings now existing_job_id tables.jobs).0 ≡ none
    → IsProcessing id (claim_batch locked now (max 1 settings.max_items_per_run) tables.items).1
    → Quiet
        (record {
          items =
              (consume_queue settings
                (λ _ _. raised text)
                locked
                now
                source
                reason
                existing_job_id
                tables).1.items;
          next_id = next_id;
        })
        after
    → IsProcessing id after.items
unfolding consume_queue
consume_queue-raised settings text locked now source reason existing_job_id tables next_id id idle h
      quiet =
    let same =
      consume_unless_running-raising settings text locked now source reason existing_job_id
        (running_job settings now existing_job_id tables.jobs) tables idle in
    Quiet-IsProcessing id quiet (subst (IsProcessing id) (sym same) h)
