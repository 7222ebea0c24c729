-- ===== src/BomBackfill/Retries.antt =====
-- services/api/app/sync/bom_backfill_queue_service.py: when a failed item is tried again
-- (`_apply_failure`, `_compute_next_retry_at`).
use auto_scheduling_system.Prelude.{
  ◌⊎◌, ℕ, zero, suc, ◌+◌, ◌*◌, ◌≤◌, ◌<◌, max, ◌≡◌, refl, true, false, Option, none, some, leb,
  arith, tests, inl, inr, Bool-cases, Text,
}
use auto_scheduling_system.SyncJobs.{Time}
use auto_scheduling_system.Bom.{column_eq}
use auto_scheduling_system.BomBackfill.{
  QueueStatus, QueueItem, Settings, minutes, permanent_error, empty_result,
}
use auto_scheduling_system.BomBackfill.Failure.{
  Execution, backoff, compute_next_retry_at, gives_up, apply_failure,
}

backoff-suc : (n : ℕ) → backoff n ≤ backoff (suc n)
backoff-suc zero = omega arith
backoff-suc (suc zero) = omega arith
backoff-suc (suc (suc zero)) = omega arith
backoff-suc (suc (suc (suc zero))) = omega arith
backoff-suc (suc (suc (suc (suc zero)))) = omega arith
backoff-suc (suc (suc (suc (suc (suc n))))) = omega arith

one_le_backoff : (n : ℕ) → 1 ≤ backoff n
one_le_backoff zero = omega arith
one_le_backoff (suc n) = omega (arith, one_le_backoff n, backoff-suc n)

mul_mono : (b m n : ℕ) → m ≤ n → b * m ≤ b * n
mul_mono b m n h = grind arith

max_one : (b n : ℕ) → 1 ≤ n → 1 ≤ max 1 b * n
max_one b n h = grind arith

-- An item that is tried no more, and one that waits for its next attempt.
abbrev pub IsGivenUp : Execution → QueueItem → Type 0
IsGivenUp execution item =
    (item.status ≡ QueueStatus.failed)
    × (item.next_retry_at ≡ none)
    × (item.failure_kind ≡ execution.error_kind)

-- The retry comes after the set time where the result was empty; else a minute after the failure at
-- the earliest, and 144 times the base of the backoff at the latest.
abbrev pub IsRetryTime : Settings → Time → Option Text → Time → Type 0
IsRetryTime settings now error_kind at =
    ((column_eq error_kind empty_result ≡ true)
      × (at ≡ now + minutes settings.empty_result_retry_minutes))
    ⊎ ((column_eq error_kind empty_result ≡ false)
        × (now + minutes 1 ≤ at)
        × (at ≤ now + minutes (max 1 settings.retry_base_minutes * 144)))

abbrev pub IsRetried : Settings → Time → Execution → QueueItem → Type 0
IsRetried settings now execution item =
    (item.status ≡ QueueStatus.retry_wait)
    × (item.fail_count < settings.max_fail_count)
    × (item.failure_kind ≡ execution.error_kind)
    × (at : Time) × (item.next_retry_at ≡ some at)
    × IsRetryTime settings now execution.error_kind at

backoff_most : (n : ℕ) → backoff n ≤ 144
backoff_most zero = omega arith
backoff_most (suc zero) = omega arith
backoff_most (suc (suc zero)) = omega arith
backoff_most (suc (suc (suc zero))) = omega arith
backoff_most (suc (suc (suc (suc zero)))) = omega arith
backoff_most (suc (suc (suc (suc (suc n))))) = omega arith

compute_next_retry_at-IsRetryTime :
    (settings : Settings) (now : Time) (fail_count : ℕ) (error_kind : Option Text)
    → IsRetryTime settings now error_kind (compute_next_retry_at settings now fail_count error_kind)
unfolding compute_next_retry_at
compute_next_retry_at-IsRetryTime settings now fail_count error_kind =
    elim (Bool-cases (column_eq error_kind empty_result)) [
      | inl e ↦ rw e (inl (refl, refl))
      | inr e ↦ rw e (
          inr (
            refl,
            omega (
              arith,
              max_one settings.retry_base_minutes (backoff fail_count) (one_le_backoff fail_count),
            ),
            omega (
              arith,
              mul_mono (max 1 settings.retry_base_minutes) (backoff fail_count) 144
                  (backoff_most fail_count),
            ),
          ))
    ]

-- The classes of failures: for good, and all others.
gives_up-cases :
    (settings : Settings) (fail_count : ℕ) (error_kind : Option Text)
    → ((gives_up settings fail_count error_kind ≡ true)
        × ((column_eq error_kind permanent_error ≡ true) ⊎ (settings.max_fail_count ≤ fail_count)))
      ⊎ ((gives_up settings fail_count error_kind ≡ false)
          × (column_eq error_kind permanent_error ≡ false)
          × (fail_count < settings.max_fail_count))
gives_up-cases settings fail_count error_kind =
    elim (Bool-cases (column_eq error_kind permanent_error)) [
      | inl permanent ↦ rw permanent (inl (refl, inl refl))
      | inr other ↦ elim (Bool-cases (leb settings.max_fail_count fail_count)) [
        | inl reached ↦ rw (other, reached) (inl (refl, inr (omega tests)))
        | inr below ↦ rw (other, below) (inr (refl, refl, ground arith))
      ]
    ]

-- A failure counts one more. The item is given up, where the error is permanent or the count has
-- reached the limit; else it waits for its retry: after the set time where the result was empty, else
-- a minute at the earliest and 144 times the base of the backoff at the latest.
pub apply_failure_lem :
    (settings : Settings) (now : Time) (job_id : ℕ) (execution : Execution) (item : QueueItem)
    → ((apply_failure settings now job_id execution item).fail_count ≡ item.fail_count + 1)
      × (((column_eq execution.error_kind permanent_error ≡ true)
              ⊎ (settings.max_fail_count ≤ item.fail_count + 1))
            × IsGivenUp execution (apply_failure settings now job_id execution item)
          ⊎ (column_eq execution.error_kind permanent_error ≡ false)
            × IsRetried settings now execution (apply_failure settings now job_id execution item))
unfolding apply_failure
apply_failure_lem settings now job_id execution item =
    elim (gives_up-cases settings (item.fail_count + 1) execution.error_kind) [
      | inl (e, why) ↦ rw e (refl, inl (why, (refl, refl, refl)))
      | inr (e, transient, below) ↦ rw e (
        refl,
        inr (
          transient,
          (
            refl,
            below,
            refl,
            _,
            refl,
            compute_next_retry_at-IsRetryTime settings now (item.fail_count + 1)
                execution.error_kind,
          ),
        ),
      )
    ]

pub apply_failure-id :
    (settings : Settings) (now : Time) (job_id : ℕ) (execution : Execution) (item : QueueItem)
    → (apply_failure settings now job_id execution item).id ≡ item.id
unfolding apply_failure
apply_failure-id settings now job_id execution item =
    elim (Bool-cases (gives_up settings (item.fail_count + 1) execution.error_kind)) [
      | inl e ↦ rw e refl
      | inr e ↦ rw e refl
    ]

-- The rows that `n` failures in a row leave; `job_id` and the time of each are those of its run.
abbrev pub fail_times :
    Settings → (job_id : ℕ → ℕ) (at : ℕ → Time) → Execution → ℕ → QueueItem → QueueItem
fail_times settings job_id at execution zero item = item
fail_times settings job_id at execution (suc n) item =
    apply_failure settings (at n) (job_id n) execution
      (fail_times settings job_id at execution n item)

fail_times-fail_count :
    (settings : Settings) (job_id : ℕ → ℕ) (at : ℕ → Time) (execution : Execution) (n : ℕ)
    (item : QueueItem)
    → (fail_times settings job_id at execution n item).fail_count ≡ item.fail_count + n
fail_times-fail_count settings job_id at execution zero item = omega arith
fail_times-fail_count settings job_id at execution (suc n) item =
    let before = fail_times settings job_id at execution n item in
    let step = (apply_failure_lem settings (at n) (job_id n) execution before).0 in
    omega (arith, fail_times-fail_count settings job_id at execution n item, step)

module _ (settings : Settings) (now : Time) (job_id : ℕ) (execution : Execution) (item : QueueItem)
    (transient : column_eq execution.error_kind permanent_error ≡ false) where
  apply_failure-below :
      item.fail_count + 1 < settings.max_fail_count
      → (apply_failure settings now job_id execution item).status ≡ QueueStatus.retry_wait
  unfolding apply_failure
  apply_failure-below h =
      let below : leb settings.max_fail_count (item.fail_count + 1) ≡ false = ground arith in
      rw transient (rw below refl)

  pub apply_failure-limit :
      settings.max_fail_count ≤ item.fail_count + 1
      → (apply_failure settings now job_id execution item).status ≡ QueueStatus.failed
  unfolding apply_failure
  apply_failure-limit h =
      let reached : leb settings.max_fail_count (item.fail_count + 1) ≡ true = ground arith in
      rw transient (rw reached refl)

-- An item that enters the queue anew and then fails time after time with an error that is not
-- permanent waits for a retry after each failure before the last that the limit allows, and is
-- given up with that one.
pub fail_times_lem :
    (settings : Settings) (job_id : ℕ → ℕ) (at : ℕ → Time) (execution : Execution)
    (item : QueueItem)
    → column_eq execution.error_kind permanent_error ≡ false
    → item.fail_count ≡ 0
    → ((n : ℕ)
        → suc n < settings.max_fail_count
        → (fail_times settings job_id at execution (suc n) item).status ≡ QueueStatus.retry_wait)
      × ((n : ℕ)
          → suc n ≡ settings.max_fail_count
          → (fail_times settings job_id at execution (suc n) item).status ≡ QueueStatus.failed)
fail_times_lem settings job_id at execution item transient fresh =
    let counted = fail_times-fail_count settings job_id at execution in
    let before = λ (n : ℕ). fail_times settings job_id at execution n item in
    (
      λ n below.
          let count = counted n item in
          apply_failure-below settings (at n) (job_id n) execution (before n) transient
            (omega arith),
      λ n limit.
          let count = counted n item in
          apply_failure-limit settings (at n) (job_id n) execution (before n) transient
            (omega arith),
    )
