-- ===== src/BomBackfill/Counts.antt =====
-- services/api/app/sync/bom_backfill_queue_service.py: the counts of a run.
use auto_scheduling_system.Prelude.{
  ℕ, suc, ◌+◌, ◌≤◌, max, ◌≡◌, refl, ap, Bool, false, Option, none, some, List, [], ◌∷◌, length, inl,
  inr, Bool-cases, Option-cases, ◌⊎◌, Text, arith, subst, length-append,
}
use auto_scheduling_system.SyncJobs.{Time, SyncJobLog}
use auto_scheduling_system.Bom.{column_eq}
use auto_scheduling_system.BomBackfill.{QueueStatus, QueueItem, Settings, get_item, permanent_error}
use auto_scheduling_system.BomBackfill.Repo.{claim_batch}
use auto_scheduling_system.BomBackfill.Messages.{queue_consume_started_message}
use auto_scheduling_system.BomBackfill.Retries.{apply_failure-limit, apply_failure-id}
use auto_scheduling_system.BomBackfill.Due.{get_item-update_item}
use auto_scheduling_system.BomBackfill.Failure.{Execution, apply_failure}
use auto_scheduling_system.BomBackfill.Consume.{
  Outcome, raised, executed, Tables, Run, Progress, goes_on, ends, ConsumeResult, consume_items,
  consume_batch, consume_batches, end_batch, finish_consume, chunk_queue_items, record_execution,
}
use auto_scheduling_system.BomBackfill.Batches.{flatten, chunk_queue_items_lem}
use auto_scheduling_system.BomBackfill.Service.{
  running_job, consume_claimed, start_consume, finish_empty, consume_unless_running, consume_queue,
  existing_job, consume_rows, start_run,
}

-- A run that another job keeps from starting.
abbrev pub IsSkipped : SyncJobLog → Tables → ConsumeResult × Tables → Type 0
IsSkipped job tables (result, after) =
    (result.job_id ≡ some job.id) × (result.claimed_items ≡ 0) × (after ≡ tables)

-- The counts of a result: of `claimed` items, at most `n` are processed, each with one outcome.
abbrev pub IsCounted : (claimed n : ℕ) → ConsumeResult → Type 0
IsCounted claimed n result =
    (result.claimed_items ≡ claimed)
    × (result.processed_items ≤ n)
    × (result.processed_items
        ≡ result.success_items + result.retry_wait_items + result.failed_items)

abbrev run_of : Progress → Run
run_of (goes_on run) = run
run_of (ends _ run) = run

record_execution-IsCounted :
    (settings : Settings) (now : Time) (job_id claimed n : ℕ) (item : QueueItem)
    (execution : Execution) (run : Run)
    → IsCounted claimed n run.result
    → IsCounted claimed (suc n) (record_execution settings now job_id item execution run).result
unfolding record_execution
record_execution-IsCounted settings now job_id claimed n item execution run h =
    elim (Bool-cases execution.success) [
      | inl e ↦ rw e (h.0, omega arith, omega arith)
      | inr e ↦ elim (Bool-cases (column_eq execution.error_kind permanent_error)) [
        | inl p ↦ rw e (rw p (h.0, omega arith, omega arith))
        | inr p ↦ rw e (rw p (h.0, omega arith, omega arith))
      ]
    ]

IsCounted-more :
    {claimed n : ℕ} (m : ℕ) (result : ConsumeResult)
    → n ≤ m
    → IsCounted claimed n result
    → IsCounted claimed m result
IsCounted-more m result le h = (h.0, omega arith, h.2)

Outcome-cases :
    (outcome : Outcome)
    → ((text : Text) × (outcome ≡ raised text))
      ⊎ ((execution : Execution) × (outcome ≡ executed execution))
Outcome-cases (raised text) = inl (text, refl)
Outcome-cases (executed execution) = inr (execution, refl)

Progress-cases :
    (progress : Progress)
    → ((run : Run) × (progress ≡ goes_on run))
      ⊎ ((text : Text) × (run : Run) × (progress ≡ ends text run))
Progress-cases (goes_on run) = inl (run, refl)
Progress-cases (ends text run) = inr (text, run, refl)

module _ (settings : Settings) (sync_item : Text → Text → Outcome) (now : Time)
    (job_id claimed : ℕ) where
  abbrev AreCounted : ℕ → Progress → Type 0
  AreCounted n progress = IsCounted claimed n (run_of progress).result

  AreCounted-more :
      {n : ℕ} (m : ℕ) (progress : Progress) → n ≤ m → AreCounted n progress → AreCounted m progress
  AreCounted-more m progress le h = (h.0, omega arith, h.2)

  consume_items-AreCounted :
      (n : ℕ) (run : Run) (batch : List QueueItem)
      → IsCounted claimed n run.result
      → AreCounted (n + length batch) (consume_items settings sync_item now job_id run batch)
  unfolding consume_items
  consume_items-AreCounted n run [] h = (h.0, omega arith, h.2)
  consume_items-AreCounted n run (item ∷ batch) h =
      let bound = n + length (item ∷ batch) in
      let loop : Run → Progress = λ r. consume_items settings sync_item now job_id r batch in
      let whole = consume_items settings sync_item now job_id run (item ∷ batch) in
      elim (Option-cases (get_item item.id run.tables.items)) [
        | inl e ↦
            let same : loop run ≡ whole = rw (e, consume_items) refl in
            subst (AreCounted bound) same (
              AreCounted-more bound (loop run) (omega arith)
                (consume_items-AreCounted n run batch h))
        | inr (live, e) ↦ elim (Outcome-cases (sync_item live.material_no live.plant)) [
          | inl (text, o) ↦
              let same : ends text run ≡ whole = rw (e, consume_items) (rw o refl) in
              subst (AreCounted bound) same (AreCounted-more bound (ends text run) (omega arith) h)
          | inr (execution, o) ↦
              let after = record_execution settings now job_id live execution run in
              let same : loop after ≡ whole = rw (e, consume_items) (rw o refl) in
              let counted =
                record_execution-IsCounted settings now job_id claimed n live execution run h in
              subst (AreCounted bound) same (
                AreCounted-more bound (loop after) (omega arith)
                  (consume_items-AreCounted (suc n) after batch counted))
        ]
      ]

  end_batch-IsCounted :
      (n current total : ℕ) (run : Run)
      → IsCounted claimed n run.result
      → IsCounted claimed n (end_batch job_id current total run).result
  unfolding end_batch
  end_batch-IsCounted n current total run h = h

  consume_batches-AreCounted :
      (n current total : ℕ) (run : Run) (batches : List (List QueueItem))
      → IsCounted claimed n run.result
      → AreCounted
          (n + length (flatten batches))
          (consume_batches settings sync_item now job_id current total run batches)
  unfolding consume_batches consume_batch
  consume_batches-AreCounted n current total run [] h = (h.0, omega arith, h.2)
  consume_batches-AreCounted n current total run (batch ∷ batches) h =
      let bound = n + length (flatten (batch ∷ batches)) in
      let size = length-append batch (flatten batches) in
      let whole =
        consume_batches settings sync_item now job_id current total run (batch ∷ batches) in
      let counted = consume_items-AreCounted n run batch h in
      elim (Progress-cases (consume_items settings sync_item now job_id run batch)) [
        | inl (after, e) ↦
            let ended = end_batch job_id current total after in
            let rest =
              consume_batches settings sync_item now job_id (current + 1) total ended batches in
            let same : rest ≡ whole = rw (e, consume_batches) refl in
            let counted_after : IsCounted claimed (n + length batch) after.result =
              subst (AreCounted (n + length batch)) e counted in
            subst (AreCounted bound) same (
              AreCounted-more bound rest (omega arith) (
                consume_batches-AreCounted (n + length batch) (current + 1) total ended batches
                  (end_batch-IsCounted (n + length batch) current total after counted_after)))
        | inr (text, after, e) ↦
            let ended : Progress = ends text (record after { tables = run.tables }) in
            let same : ended ≡ whole = rw (e, consume_batches) refl in
            let counted_after : IsCounted claimed (n + length batch) after.result =
              subst (AreCounted (n + length batch)) e counted in
            subst (AreCounted bound) same (AreCounted-more bound ended (omega arith) counted_after)
      ]

  finish_consume-IsCounted :
      (n : ℕ) (progress : Progress)
      → AreCounted n progress
      → IsCounted claimed n (finish_consume now job_id progress).0
  unfolding finish_consume
  finish_consume-IsCounted n (goes_on run) h = h
  finish_consume-IsCounted n (ends text run) h = h

module _ (settings : Settings) (sync_item : Text → Text → Outcome) (now : Time) where
  consume_claimed-IsCounted :
      (job_id : ℕ) (items : List QueueItem) (tables : Tables)
      → IsCounted
          (length items)
          (length items)
          (consume_claimed settings sync_item now items (job_id, tables)).0
  unfolding consume_claimed
  consume_claimed-IsCounted job_id items tables =
      let batches = chunk_queue_items settings items in
      let start = start_run items job_id tables in
      let claimed = length items in
      let whole : length (flatten batches) ≡ claimed =
        ap length (chunk_queue_items_lem settings items).0 in
      let run = consume_batches settings sync_item now job_id 1 (length batches) start batches in
      let counted =
        consume_batches-AreCounted settings sync_item now job_id claimed 0 1 (length batches) start
          batches (refl, omega arith, refl) in
      finish_consume-IsCounted settings sync_item now job_id claimed claimed run
        (AreCounted-more settings sync_item now job_id claimed claimed run (omega arith) counted)

  module _ (source reason : Text) (existing_job_id : Option ℕ) where
    consume_rows-IsCounted :
        (job : Option SyncJobLog) (items : List QueueItem) (tables : Tables)
        → IsCounted
            (length items)
            (length items)
            (consume_rows settings sync_item now source reason existing_job_id job items tables).0
    unfolding consume_rows finish_empty
    consume_rows-IsCounted job [] tables = (refl, omega arith, refl)
    consume_rows-IsCounted job (item ∷ rest) tables =
        let message =
          queue_consume_started_message (length (item ∷ rest)) (max 1 settings.batch_size) in
        let started = start_consume settings now message job tables in
        consume_claimed-IsCounted started.0 (item ∷ rest) started.1

    consume_unless_running-IsCounted :
        (locked : ℕ → Bool) (running : Option SyncJobLog × List SyncJobLog) (tables : Tables)
        → running.0 ≡ none
        → IsCounted
            (length (claim_batch locked now (max 1 settings.max_items_per_run) tables.items).0)
            (length (claim_batch locked now (max 1 settings.max_items_per_run) tables.items).0)
            (consume_unless_running settings sync_item locked now source reason existing_job_id
              running tables).0
    unfolding consume_unless_running
    consume_unless_running-IsCounted locked (some job, jobs) tables h = cc
    consume_unless_running-IsCounted locked (none, jobs) tables h =
        let claimed = claim_batch locked now (max 1 settings.max_items_per_run) tables.items in
        let after : Tables = record tables { items = claimed.1; jobs = jobs } in
        consume_rows-IsCounted (existing_job existing_job_id jobs) claimed.0 after

    job_of : {row job : SyncJobLog} → some row ≡ some job → row ≡ job
    job_of h = cc

    consume_unless_running-skips :
        (locked : ℕ → Bool) (running : Option SyncJobLog × List SyncJobLog) (tables : Tables)
        {job : SyncJobLog}
        → running.0 ≡ some job
        → IsSkipped job tables (
            consume_unless_running settings sync_item locked now source reason existing_job_id
              running tables)
    unfolding consume_unless_running
    consume_unless_running-skips locked (some row, jobs) tables h =
        (ap (λ (j : SyncJobLog). some j.id) (job_of h), refl, refl)
    consume_unless_running-skips locked (none, jobs) tables h = cc

-- The claim of a run.
abbrev pub claim_of :
    Settings → (locked : ℕ → Bool) → Time → Tables → List QueueItem × List QueueItem
claim_of settings locked now tables =
    claim_batch locked now (max 1 settings.max_items_per_run) tables.items

-- Where another BOM job runs, `consume_queue` reports it and changes no table. Else the result tells
-- how many items it claimed, and it has processed no more than those, however the synchronisations
-- end; each processed item counts once, as a success, as waiting for a retry or as failed.
pub consume_queue-IsCounted :
    (settings : Settings) (sync_item : Text → Text → Outcome) (locked : ℕ → Bool) (now : Time)
    (source reason : Text) (existing_job_id : Option ℕ) (tables : Tables)
    → ((job : SyncJobLog)
        → (running_job settings now existing_job_id tables.jobs).0 ≡ some job
        → IsSkipped job tables
            (consume_queue settings sync_item locked now source reason existing_job_id tables))
      × ((running_job settings now existing_job_id tables.jobs).0 ≡ none
          → IsCounted
              (length (claim_of settings locked now tables).0)
              (length (claim_of settings locked now tables).0)
              (consume_queue settings sync_item locked now source reason existing_job_id tables).0)
unfolding consume_queue
consume_queue-IsCounted settings sync_item locked now source reason existing_job_id tables =
    let running = running_job settings now existing_job_id tables.jobs in
    (
      λ job h.
          consume_unless_running-skips settings sync_item now source reason existing_job_id locked
            running tables h,
      λ h.
          consume_unless_running-IsCounted settings sync_item now source reason existing_job_id
            locked running tables h,
    )

-- A failure that is not permanent counts as waiting for a retry in the result, also where it is the
-- item's last and the item itself is marked as failed.
pub record_execution-limit :
    (settings : Settings) (now : Time) (job_id : ℕ) (item : QueueItem) (execution : Execution)
    (run : Run)
    → get_item item.id run.tables.items ≡ some item
    → execution.success ≡ false
    → column_eq execution.error_kind permanent_error ≡ false
    → settings.max_fail_count ≤ item.fail_count + 1
    → ((record_execution settings now job_id item execution run).result.retry_wait_items
        ≡ run.result.retry_wait_items + 1)
      × (after : QueueItem) × (get_item item.id
            (record_execution settings now job_id item execution run).tables.items
          ≡ some after)
      × (after.status ≡ QueueStatus.failed)
unfolding record_execution
record_execution-limit settings now job_id item execution run found failed transient limit =
    let change = apply_failure settings now job_id execution in
    (
      rw failed (rw transient refl),
      change item,
      rw failed (
          get_item-update_item item.id change run.tables.items
            (apply_failure-id settings now job_id execution) found),
      apply_failure-limit settings now job_id execution item transient limit,
    )
