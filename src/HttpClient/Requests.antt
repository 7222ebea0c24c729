-- ===== src/HttpClient/Requests.antt =====
-- services/api/app/integration/http_client.py: a request of a service with a history.
use auto_scheduling_system.Prelude.{
  ℕ, ◌≡◌, refl, Bool, true, false, Option, none, some, List, ◌∷◌, ◌⊎◌, inl, inr, Bool-cases, sym,
  ◌∙◌,
}
use auto_scheduling_system.SyncJobs.{Time}
use auto_scheduling_system.HttpClient.{
  CircuitState, Reply, Attempted, attempt_loop, check_circuit, reply_success, request,
}
use auto_scheduling_system.HttpClient.Breaker.{
  Event, checks, results, run, admits, check_circuit-run,
}
use auto_scheduling_system.HttpClient.Attempts.{IsEnd, attempt_loop-IsEnd}

-- The circuit refuses, and nothing is sent: there is a check more in the history.
abbrev pub IsRefused : Time → List Event → Option Attempted × Option CircuitState → Type 0
IsRefused checked_at history (answer, after) =
    (admits checked_at history ≡ false)
    × (answer ≡ none)
    × (after ≡ run (checks checked_at ∷ history))

-- The circuit lets the request through, its attempts end, and their result is in the history.
abbrev pub IsSent :
    (is_success : ℕ → Bool)
    → List ℕ
    → (max_retries : ℕ) (checked_at recorded_at : Time) (send : ℕ → Reply) → List Event
    → Option Attempted × Option CircuitState
    → Type 0
IsSent is_success codes max_retries checked_at recorded_at send history (answer, after) =
    (attempted : Attempted) × (admits checked_at history ≡ true)
    × (answer ≡ some attempted)
    × IsEnd codes send 1 max_retries attempted
    × (after
        ≡ run (
            results recorded_at (reply_success is_success attempted.reply)
            ∷ checks checked_at
            ∷ history))

-- A request of a service with any history either is refused or is sent.
pub request_lem :
    (is_success : ℕ → Bool) (codes : List ℕ) (base : Time) (max_retries : ℕ)
    (checked_at recorded_at : Time) (send : ℕ → Reply) (history : List Event)
    → IsRefused checked_at history
        (request is_success codes base max_retries checked_at recorded_at send (run history))
      ⊎ IsSent is_success codes max_retries checked_at recorded_at send history
          (request is_success codes base max_retries checked_at recorded_at send (run history))
unfolding request run
request_lem is_success codes base max_retries checked_at recorded_at send history =
    elim (Bool-cases (check_circuit checked_at (run history)).0) [
      | inl passes ↦ rw passes (
          inr (
            attempt_loop codes base send 1 max_retries,
            sym (check_circuit-run checked_at history) ∙ passes,
            refl,
            attempt_loop-IsEnd codes base send 1 max_retries,
            refl,
          ))
      | inr refuses ↦
          rw refuses (inl (sym (check_circuit-run checked_at history) ∙ refuses, refl, refl))
    ]
