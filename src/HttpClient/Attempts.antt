-- ===== src/HttpClient/Attempts.antt =====
-- services/api/app/integration/http_client.py: the attempts of a request.
use auto_scheduling_system.Prelude.{
  ℕ, zero, suc, ◌+◌, ◌≤◌, ◌≡◌, refl, true, false, List, ◌⊎◌, inl, inr, Bool-cases, ap, sym, ◌∙◌,
  arith,
}
use auto_scheduling_system.SyncJobs.{Time}
use auto_scheduling_system.HttpClient.{Reply, Attempted, is_retryable, attempt_loop, backoff}

-- Each of so many attempts, from one on, gets a reply to retry on.
abbrev pub AreRetried : List ℕ → (ℕ → Reply) → (attempt count : ℕ) → Type 0
AreRetried codes send attempt zero = Unit
AreRetried codes send attempt (suc count) =
    (is_retryable codes (send attempt) ≡ true) × AreRetried codes send (attempt + 1) count

-- The loop from an attempt on goes through some attempts that are retried, at most as many as there
-- are retries left, and returns the reply of the next, which is not to retry on or has no retry left.
abbrev pub IsEnd : List ℕ → (ℕ → Reply) → (attempt left : ℕ) → Attempted → Type 0
IsEnd codes send attempt left attempted =
    (retried : ℕ) × (attempted.attempts ≡ retried + 1)
    × (retried ≤ left)
    × AreRetried codes send attempt retried
    × (attempted.reply ≡ send (attempt + retried))
    × ((is_retryable codes (send (attempt + retried)) ≡ false) ⊎ (retried ≡ left))

IsEnd-suc :
    (codes : List ℕ) (send : ℕ → Reply) (attempt left : ℕ) (later : Attempted)
    → is_retryable codes (send attempt) ≡ true
    → IsEnd codes send (attempt + 1) left later
    → (slept : Time)
    → IsEnd codes send attempt
        (suc left)
        (record { reply = later.reply; attempts = later.attempts + 1; slept = slept })
IsEnd-suc codes send attempt left later again (retried, count, fits, all, reply, end) slept = (
  suc retried,
  omega arith,
  omega arith,
  (again, all),
  reply ∙ ap send same,
  elim end [
    | inl done ↦ inl (ap (λ i. is_retryable codes (send i)) (sym same) ∙ done)
    | inr used ↦ inr (omega arith)
  ],
)
  where
    same : attempt + 1 + retried ≡ attempt + suc retried
    same = omega arith

pub attempt_loop-IsEnd :
    (codes : List ℕ) (base : Time) (send : ℕ → Reply) (attempt left : ℕ)
    → IsEnd codes send attempt left (attempt_loop codes base send attempt left)
unfolding attempt_loop
attempt_loop-IsEnd codes base send attempt zero = (0, refl, omega arith, tt, ap send same, inr refl)
  where
    same : attempt ≡ attempt + 0
    same = omega arith
attempt_loop-IsEnd codes base send attempt (suc left) =
    elim (Bool-cases (is_retryable codes (send attempt))) [
      | inl again ↦ rw again (
          IsEnd-suc codes send attempt left (attempt_loop codes base send (attempt + 1) left) again
            (attempt_loop-IsEnd codes base send (attempt + 1) left)
            (backoff base attempt + (attempt_loop codes base send (attempt + 1) left).slept))
      | inr done ↦ rw done (
        0,
        refl,
        omega arith,
        tt,
        ap send same,
        inl (ap (λ i. is_retryable codes (send i)) (sym same) ∙ done),
      )
    ]
  where
    same : attempt ≡ attempt + 0
    same = omega arith
