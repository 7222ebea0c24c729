-- ===== src/HttpClient/Breaker.antt =====
-- services/api/app/integration/http_client.py: the circuit breaker against the history of its results.
use auto_scheduling_system.Prelude.{
  ℕ, ◌+◌, ◌<◌, ◌≡◌, refl, Bool, true, false, ◌||◌, Option, none, some, List, [], ◌∷◌, leb, ltb, inl,
  inr, Bool-cases, sym, ap, ◌∙◌, arith, tests, ltb→lt,
}
use auto_scheduling_system.SyncJobs.{Time}
use auto_scheduling_system.HttpClient.{
  CircuitStatus, CircuitState, or_initial, circuit_failure_threshold, circuit_cooldown,
  check_circuit, check_status, record_circuit_result, fail_circuit,
}

-- What a service goes through: a check that a request makes, or a recorded result.
pub data Event : Type 0 where
  checks : Time → Event
  results : Time → Bool → Event

-- The state after a history, whose latest event comes first.
unfoldable pub run : List Event → Option CircuitState
unfolding check_circuit record_circuit_result
run [] = none
run (checks now ∷ earlier) = (check_circuit now (run earlier)).1
run (results now success ∷ earlier) = record_circuit_result now success (run earlier)

-- The failures since the last success.
abbrev pub failures : List Event → ℕ
failures [] = 0
failures (checks _ ∷ earlier) = failures earlier
failures (results _ true ∷ earlier) = 0
failures (results _ false ∷ earlier) = failures earlier + 1

-- What a breaker without a status would let through, from the history alone: after a success all,
-- after a failure all while there are too few failures and all from the cooldown on, and after a
-- check that let a request through, all until there is a result.
unfoldable pub admits : Time → List Event → Bool
admits now [] = true
admits now (checks at ∷ earlier) = admits at earlier || admits now earlier
admits now (results at true ∷ earlier) = true
admits now (results at false ∷ earlier) =
    ltb (failures earlier + 1) circuit_failure_threshold || leb (at + circuit_cooldown) now

-- A state that counts n failures: below the threshold it is closed.
abbrev pub Agrees : ℕ → CircuitState → Type 0
Agrees n state =
    (state.failure_count ≡ n)
    × (n < circuit_failure_threshold → state.status ≡ CircuitStatus.circuit_closed)

abbrev pub CircuitAgrees : ℕ → Option CircuitState → Type 0
CircuitAgrees n none = n ≡ 0
CircuitAgrees n (some state) = Agrees n state

open_is_not_closed : ¬ (CircuitStatus.circuit_open ≡ CircuitStatus.circuit_closed)
open_is_not_closed e = cc

check_status-Agrees :
    (now : Time) (n : ℕ) (state : CircuitState) (status : CircuitStatus)
    → state.status ≡ status
    → Agrees n state
    → Agrees n (check_status now state status).1
check_status-Agrees now n state CircuitStatus.circuit_closed e h = h
check_status-Agrees now n state CircuitStatus.half_open e h = h
check_status-Agrees now n state CircuitStatus.circuit_open e (count, below) =
    elim (Bool-cases (leb (state.last_failure_time + circuit_cooldown) now)) [
      | inl late ↦ rw late (count, λ few. absurd (open_is_not_closed (sym e ∙ below few)))
      | inr early ↦ rw early (count, below)
    ]

check_circuit-CircuitAgrees :
    (now : Time) (n : ℕ) (circuit : Option CircuitState)
    → CircuitAgrees n circuit
    → CircuitAgrees n (check_circuit now circuit).1
unfolding check_circuit
check_circuit-CircuitAgrees now n none h = h
check_circuit-CircuitAgrees now n (some state) h =
    check_status-Agrees now n state state.status refl h

or_initial-Agrees :
    (n : ℕ) (circuit : Option CircuitState)
    → CircuitAgrees n circuit
    → Agrees n (or_initial circuit)
or_initial-Agrees n none count = (sym count, λ _. refl)
or_initial-Agrees n (some state) h = h

fail_circuit-Agrees :
    (now : Time) (n : ℕ) (state : CircuitState)
    → Agrees n state
    → Agrees (n + 1) (fail_circuit now state)
fail_circuit-Agrees now n state (count, below) =
    elim (Bool-cases (leb circuit_failure_threshold (state.failure_count + 1))) [
      | inl many ↦ rw many (ap (λ m. m + 1) count, λ few. absurd (omega tests))
      | inr fewer ↦ rw fewer (ap (λ m. m + 1) count, λ few. below (omega arith))
    ]

run-CircuitAgrees : (history : List Event) → CircuitAgrees (failures history) (run history)
unfolding run record_circuit_result
run-CircuitAgrees [] = refl
run-CircuitAgrees (checks now ∷ earlier) =
    check_circuit-CircuitAgrees now (failures earlier) (run earlier) (run-CircuitAgrees earlier)
run-CircuitAgrees (results now true ∷ earlier) = (refl, λ _. refl)
run-CircuitAgrees (results now false ∷ earlier) =
    fail_circuit-Agrees now (failures earlier) (or_initial (run earlier))
      (or_initial-Agrees (failures earlier) (run earlier) (run-CircuitAgrees earlier))

-- A check after a check.
check_circuit-check_circuit :
    (now at : Time) (circuit : Option CircuitState)
    → (check_circuit now (check_circuit at circuit).1).0
      ≡ ((check_circuit at circuit).0 || (check_circuit now circuit).0)
unfolding check_circuit
check_circuit-check_circuit now at none = refl
check_circuit-check_circuit now at (some state) = check_status-check_status state.status refl
  where
    check_status-check_status :
        (status : CircuitStatus)
        → state.status ≡ status
        → (check_circuit now (some (check_status at state status).1)).0
          ≡ ((check_status at state status).0 || (check_status now state status).0)
    check_status-check_status CircuitStatus.circuit_closed e = rw e refl
    check_status-check_status CircuitStatus.half_open e = rw e refl
    check_status-check_status CircuitStatus.circuit_open e =
        elim (Bool-cases (leb (state.last_failure_time + circuit_cooldown) at)) [
          | inl late ↦ rw late refl
          | inr early ↦ rw early (ap (λ s. (check_status now state s).0) e)
        ]

reaches :
    {n m : ℕ}
    → m ≡ n
    → leb circuit_failure_threshold (m + 1) ≡ true
    → ltb (n + 1) circuit_failure_threshold ≡ false
reaches e many = ground arith

stays :
    {n m : ℕ}
    → m ≡ n
    → leb circuit_failure_threshold (m + 1) ≡ false
    → ltb (n + 1) circuit_failure_threshold ≡ true
stays e fewer = ground arith

-- A check after a failure.
check_circuit-fail_circuit :
    (now at : Time) (n : ℕ) (state : CircuitState)
    → Agrees n state
    → (check_circuit now (some (fail_circuit at state))).0
      ≡ (ltb (n + 1) circuit_failure_threshold || leb (at + circuit_cooldown) now)
unfolding check_circuit
check_circuit-fail_circuit now at n state (count, below) =
    elim (Bool-cases (leb circuit_failure_threshold (state.failure_count + 1))) [
      | inl many ↦
          rw (many, reaches count many)
            (elim (Bool-cases (leb (at + circuit_cooldown) now)) [
              | inl late ↦ rw late refl
              | inr early ↦ rw early refl
            ])
      | inr fewer ↦
          rw
            (
              fewer,
              stays count fewer,
              below (omega (arith, ltb→lt (n + 1) circuit_failure_threshold (stays count fewer))),
            )
            refl
    ]

-- After any history of checks and results, a request is let through exactly when the history says so.
pub check_circuit-run :
    (now : Time) (history : List Event) → (check_circuit now (run history)).0 ≡ admits now history
unfolding run record_circuit_result check_circuit admits
check_circuit-run now [] = refl
check_circuit-run now (checks at ∷ earlier) =
    check_circuit-check_circuit now at (run earlier)
    ∙ rw (check_circuit-run at earlier, check_circuit-run now earlier) refl
check_circuit-run now (results at true ∷ earlier) = refl
check_circuit-run now (results at false ∷ earlier) =
    check_circuit-fail_circuit now at (failures earlier) (or_initial (run earlier))
      (or_initial-Agrees (failures earlier) (run earlier) (run-CircuitAgrees earlier))
