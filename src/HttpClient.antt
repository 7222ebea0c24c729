-- ===== src/HttpClient.antt =====
-- services/api/app/integration/http_client.py: a request with its retries, and the circuit breaker of
-- its service. What the network gives to each attempt is an argument, as is what httpx counts as a
-- success; an exception of another kind than a `RequestError` is left out. Times are in microseconds,
-- and the base of the backoff is what `max` leaves of it.
pub mod Breaker
pub mod Attempts
pub mod Requests
mod Tests
use auto_scheduling_system.Prelude.{
  ℕ, zero, suc, ◌+◌, ◌-◌, ◌*◌, ◌^◌, ◌≤◌, Bool, true, false, ◌&&◌, Option, none, some, List, [], ◌∷◌,
  ltb, leb, ◌==◌, if◌then◌else◌, any_where, Text,
}
use auto_scheduling_system.SyncJobs.{Time, seconds}

pub data CircuitStatus : Type 0 where
  circuit_closed circuit_open half_open : CircuitStatus

pub record CircuitState : Type 0 where
  pub failure_count : ℕ
  pub last_failure_time : Time
  pub status : CircuitStatus

abbrev pub initial_state : CircuitState
initial_state = record {
  failure_count = 0;
  last_failure_time = 0;
  status = CircuitStatus.circuit_closed;
}

abbrev pub circuit_failure_threshold : ℕ
circuit_failure_threshold = 5

abbrev pub circuit_cooldown : Time
circuit_cooldown = seconds 60

-- Whether a request goes through, and the state after the check.
abbrev pub check_status : Time → CircuitState → CircuitStatus → Bool × CircuitState
check_status now state CircuitStatus.circuit_closed = (true, state)
check_status now state CircuitStatus.half_open = (true, state)
check_status now state CircuitStatus.circuit_open =
    if leb (state.last_failure_time + circuit_cooldown) now
    then (true, record state { status = CircuitStatus.half_open })
    else (false, state)

-- `_check_circuit`, for the state of the service or none.
unfoldable pub check_circuit : Time → Option CircuitState → Bool × Option CircuitState
check_circuit now none = (true, none)
check_circuit now (some state) =
    let (passes, after) = check_status now state state.status in (passes, some after)

-- `_circuit_states.setdefault` of the service.
abbrev pub or_initial : Option CircuitState → CircuitState
or_initial none = initial_state
or_initial (some state) = state

-- The state after a failed request.
abbrev pub fail_circuit : Time → CircuitState → CircuitState
fail_circuit now state = record state {
  failure_count = state.failure_count + 1;
  last_failure_time = now;
  status =
      if leb circuit_failure_threshold (state.failure_count + 1)
      then CircuitStatus.circuit_open
      else state.status;
}

-- `_record_circuit_result`
unfoldable pub record_circuit_result : Time → Bool → Option CircuitState → Option CircuitState
record_circuit_result now true state =
    some (record (or_initial state) { failure_count = 0; status = CircuitStatus.circuit_closed })
record_circuit_result now false state = some (fail_circuit now (or_initial state))

-- What the network gives to one attempt: a response with its status, or a `httpx.RequestError`.
pub data Reply : Type 0 where
  response : (status_code : ℕ) → Reply
  request_error : Text → Reply

abbrev pub default_retry_status_codes : List ℕ
default_retry_status_codes = 408 ∷ 429 ∷ 500 ∷ 502 ∷ 503 ∷ 504 ∷ []

-- A reply that another attempt follows, if there is one left.
unfoldable pub is_retryable : List ℕ → Reply → Bool
is_retryable codes (response status_code) = any_where (λ code. code == status_code) codes
is_retryable codes (request_error _) = true

-- What the circuit is told of the last reply, with the `is_success` of httpx.
abbrev pub reply_success : (is_success : ℕ → Bool) → Reply → Bool
reply_success is_success (response status_code) = is_success status_code
reply_success is_success (request_error _) = false

-- `_backoff`
unfoldable pub backoff : (base : Time) (attempt : ℕ) → Time
backoff base attempt = base * 2 ^ (attempt - 1)

pub record Attempted : Type 0 where
  pub reply : Reply
  pub attempts : ℕ
  pub slept : Time

-- The loop from an attempt on, with the retries that are left.
unfoldable pub attempt_loop :
    List ℕ → (base : Time) (send : ℕ → Reply) (attempt left : ℕ) → Attempted
unfolding is_retryable backoff
attempt_loop codes base send attempt zero = record { reply = send attempt; attempts = 1; slept = 0 }
attempt_loop codes base send attempt (suc left) =
    let later = attempt_loop codes base send (attempt + 1) left in
    if is_retryable codes (send attempt)
    then record {
      reply = later.reply;
      attempts = later.attempts + 1;
      slept = backoff base attempt + later.slept;
    }
    else record { reply = send attempt; attempts = 1; slept = 0 }

-- The answer to the caller: none is the error of an open circuit, and a request error is raised.
unfoldable pub request :
    (is_success : ℕ → Bool)
    → List ℕ
    → (base : Time) (max_retries : ℕ) (checked_at recorded_at : Time) (send : ℕ → Reply)
    → Option CircuitState
    → Option Attempted × Option CircuitState
unfolding check_circuit attempt_loop record_circuit_result
request is_success codes base max_retries checked_at recorded_at send circuit =
    let (passes, checked) = check_circuit checked_at circuit in
    let attempted = attempt_loop codes base send 1 max_retries in
    if passes
    then (
      some attempted,
      record_circuit_result recorded_at (reply_success is_success attempted.reply) checked,
    )
    else (none, checked)
