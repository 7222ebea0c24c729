-- ===== src/BomBackfill/Failure.antt =====
-- services/api/app/sync/bom_backfill_queue_service.py and bom_sync_service.py: the outcome of one
-- synchronisation of a BOM, and what it does to the rows of the queue.
use auto_scheduling_system.Prelude.{
  ℕ, zero, suc, ◌+◌, ◌*◌, max, Bool, ◌||◌, Option, none, some, List, [], ◌∷◌, map, leb,
  if◌then◌else◌, Text, codes, text_eq, any_where, ◌==◌,
}
use auto_scheduling_system.SyncJobs.{Time}
use auto_scheduling_system.Bom.{column_eq}
use auto_scheduling_system.BomBackfill.{
  QueueStatus, QueueItem, Settings, minutes, permanent_error, empty_result,
}
use auto_scheduling_system.BomBackfill.Repo.{has_key}

-- `BomSyncExecutionResult`, without the key that its caller has.
pub record Execution : Type 0 where
  pub success : Bool
  pub inserted_rows : ℕ
  pub error_kind : Option Text
  pub error_message : Option Text

-- The classes of exceptions that the classification tells apart, with their text.
pub data SyncException : Type 0 where
  http_status_error : (status_code : ℕ) → Text → SyncException
  timeout_exception request_error connection_error os_error other : Text → SyncException

abbrev pub transient_http_status_codes : List ℕ
transient_http_status_codes = 408 ∷ 429 ∷ 500 ∷ 502 ∷ 503 ∷ 504 ∷ []

abbrev pub transient_error : Text
transient_error = codes "transient_error"

unfoldable pub classify_bom_sync_exception : SyncException → Text × Text
classify_bom_sync_exception (http_status_error status_code e) =
    if any_where (λ code. code == status_code) transient_http_status_codes
    then (transient_error, e)
    else (permanent_error, e)
classify_bom_sync_exception (timeout_exception e) = (transient_error, e)
classify_bom_sync_exception (request_error e) = (transient_error, e)
classify_bom_sync_exception (connection_error e) = (transient_error, e)
classify_bom_sync_exception (os_error e) = (transient_error, e)
classify_bom_sync_exception (other e) = (permanent_error, e)

-- How many times the base the wait after a failure is.
abbrev pub backoff : (fail_count : ℕ) → ℕ
backoff zero = 1
backoff (suc zero) = 1
backoff (suc (suc zero)) = 3
backoff (suc (suc (suc zero))) = 12
backoff (suc (suc (suc (suc zero)))) = 36
backoff _ = 144

-- The retries after an empty result, in minutes, are not negative.
unfoldable pub compute_next_retry_at : Settings → Time → (fail_count : ℕ) → Option Text → Time
unfolding text_eq
compute_next_retry_at settings now fail_count error_kind =
    if column_eq error_kind empty_result
    then now + minutes settings.empty_result_retry_minutes
    else now + minutes (max 1 settings.retry_base_minutes * backoff fail_count)

-- Where an item is not tried again.
abbrev pub gives_up : Settings → (fail_count : ℕ) → Option Text → Bool
gives_up settings fail_count error_kind =
    column_eq error_kind permanent_error || leb settings.max_fail_count fail_count

unfoldable pub apply_failure : Settings → Time → (job_id : ℕ) → Execution → QueueItem → QueueItem
unfolding compute_next_retry_at text_eq
apply_failure settings now job_id execution item =
    let fail_count = item.fail_count + 1 in
    let failed : QueueItem = record item {
      fail_count = fail_count;
      last_job_id = some job_id;
      failure_kind = execution.error_kind;
      last_error = execution.error_message;
      next_retry_at = none;
      status = QueueStatus.failed;
    } in
    if gives_up settings fail_count execution.error_kind then failed else record failed {
      status = QueueStatus.retry_wait;
      next_retry_at = some (compute_next_retry_at settings now fail_count execution.error_kind);
    }

unfoldable pub resolve_item : Time → QueueItem → QueueItem
resolve_item now item = record item {
  status = QueueStatus.success;
  resolved_at = some now;
  next_retry_at = none;
  failure_kind = none;
  last_error = none;
}

-- `_mark_queue_success`
unfoldable pub mark_queue_success : Time → Text → Text → List QueueItem → List QueueItem
unfolding text_eq resolve_item
mark_queue_success now material_no plant =
    map (λ item. if has_key material_no plant item then resolve_item now item else item)
