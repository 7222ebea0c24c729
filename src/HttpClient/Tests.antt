-- ===== src/HttpClient/Tests.antt =====
-- services/api/app/integration/http_client.py: a service that fails, and its breaker.
use auto_scheduling_system.Prelude.{
  ℕ, ◌≡◌, refl, Bool, false, List, [], ◌∷◌, if◌then◌else◌, ltb, ◌⊎◌, ◌&&◌, leb, codes,
}
use auto_scheduling_system.SyncJobs.{seconds}
use auto_scheduling_system.HttpClient.{
  Reply, response, request_error, default_retry_status_codes, check_circuit, attempt_loop, request,
}
use auto_scheduling_system.HttpClient.Breaker.{
  Event, checks, results, run, admits, check_circuit-run,
}
use auto_scheduling_system.HttpClient.Requests.{IsRefused, IsSent, request_lem}

-- Five failures, the last at ten seconds.
abbrev failing : List Event
failing =
    results (seconds 10) false
    ∷ results (seconds 8) false
    ∷ results (seconds 6) false
    ∷ results (seconds 4) false
    ∷ results (seconds 2) false
    ∷ []

abbrev is_success : ℕ → Bool
is_success status_code = leb 200 status_code && ltb status_code 300

-- The service is down for two attempts.
abbrev restarting : ℕ → Reply
restarting attempt = if ltb attempt 3 then response 503 else response 200

third_attempt_answers :
    attempt_loop default_retry_status_codes (seconds 1) restarting 1 3
    ≡ record { reply = response 200; attempts = 3; slept = seconds 3 }
unfolding attempt_loop
third_attempt_answers = refl

no_retries_left :
    attempt_loop default_retry_status_codes (seconds 1) (λ _. request_error (codes "refused")) 1 1
    ≡ record { reply = request_error (codes "refused"); attempts = 2; slept = seconds 1 }
unfolding attempt_loop
no_retries_left = refl

refused_after_failures : (check_circuit (seconds 69) (run failing)).0 ≡ false
unfolding check_circuit run
refused_after_failures = refl

-- A failure of the half-open circuit opens it again.
opens_again :
    (check_circuit
      (seconds 75)
      (run (results (seconds 72) false ∷ checks (seconds 70) ∷ failing))).0
    ≡ false
unfolding check_circuit run
opens_again = refl

check_circuit-run_example :
    (check_circuit (seconds 72) (run (checks (seconds 70) ∷ failing))).0
    ≡ admits (seconds 72) (checks (seconds 70) ∷ failing)
check_circuit-run_example = check_circuit-run (seconds 72) (checks (seconds 70) ∷ failing)

request_lem_example :
    IsRefused (seconds 70) failing (
      request is_success default_retry_status_codes
        (seconds 1)
        3
        (seconds 70)
        (seconds 75)
        restarting
        (run failing))
    ⊎ IsSent is_success default_retry_status_codes 3 (seconds 70) (seconds 75) restarting failing (
        request is_success default_retry_status_codes
          (seconds 1)
          3
          (seconds 70)
          (seconds 75)
          restarting
          (run failing))
request_lem_example =
    request_lem is_success default_retry_status_codes (seconds 1) 3 (seconds 70) (seconds 75)
      restarting failing
