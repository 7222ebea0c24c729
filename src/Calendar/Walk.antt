-- ===== src/Calendar/Walk.antt =====
-- The loop of calendar_utils.py along a sequence of dates `at 0`, `at 1`, …, in either direction.
use auto_scheduling_system.Prelude.{
  ℕ, zero, suc, ◌+◌, ◌≤◌, ◌<◌, ◌≡◌, refl, ◌⊎◌, inl, inr, Bool, true, false, arith, lt→ltb, le_cases,
  Bool-cases,
}
use auto_scheduling_system.Prelude.Result.{Result, ok}
use auto_scheduling_system.Calendar.{Date, Calendar, is_workday, workday_loop}

abbrev pub one_if : Bool → ℕ
one_if true = 1
one_if false = 0

-- The workdays among `at 1`, …, `at k`.
unfoldable pub workdays_seen : Calendar → (ℕ → Date) → ℕ → ℕ
workdays_seen calendar at zero = 0
workdays_seen calendar at (suc k) =
    workdays_seen calendar at k + one_if (is_workday calendar (at (suc k)))

-- Where a walk of at most `limit` days that looks for `days` workdays ends: on the day that
-- completes the count, or at the limit with too few.
pub record Lands (calendar : Calendar) (at : ℕ → Date) (limit days : ℕ) (result : Result Date)
    : Type 0 where
  pub moved : ℕ
  pub lands : result ≡ ok (at moved)
  pub within : moved ≤ limit
  pub ends :
      (workdays_seen calendar at moved ≡ days) × (is_workday calendar (at moved) ≡ true)
      ⊎ (moved ≡ limit) × (workdays_seen calendar at moved < days)

module _ (calendar : Calendar) (at : ℕ → Date) where
  pub workdays_seen_mono :
      (j k : ℕ) → j ≤ k → workdays_seen calendar at j ≤ workdays_seen calendar at k
  unfolding workdays_seen
  workdays_seen_mono j zero h = let e : j ≡ 0 = omega arith in rw e (omega arith)
  workdays_seen_mono j (suc k) h = elim (le_cases j k) [
    | inl below ↦ omega (arith, workdays_seen_mono j k below)
    | inr above ↦ let e : j ≡ suc k = omega arith in rw e (omega arith)
  ]

  -- A workday adds to the count.
  pub workdays_seen_lt :
      (j k : ℕ)
      → j < k
      → is_workday calendar (at k) ≡ true
      → workdays_seen calendar at j < workdays_seen calendar at k
  unfolding workdays_seen
  workdays_seen_lt j zero h w = absurd (omega arith)
  workdays_seen_lt j (suc k) h w = rw w (omega (arith, workdays_seen_mono j k (omega arith)))

  -- Two workdays with the same count are the same.
  pub workdays_seen_unique :
      (j k : ℕ)
      → is_workday calendar (at j) ≡ true
      → is_workday calendar (at k) ≡ true
      → workdays_seen calendar at j ≡ workdays_seen calendar at k
      → j ≡ k
  workdays_seen_unique j k wj wk e = elim (le_cases j k) [
    | inl le ↦ elim (le_cases k j) [
      | inl ge ↦ omega arith
      | inr lt ↦ absurd (omega (arith, workdays_seen_lt j k lt wk))
    ]
    | inr gt ↦ absurd (omega (arith, workdays_seen_lt k j gt wj))
  ]

module _ (step : Date → Result Date) (calendar : Calendar) (days : ℕ) where
  -- With the count complete the loop leaves the date.
  loop_stops :
      (left count : ℕ) (c : Date)
      → days ≤ count
      → workday_loop step calendar left days count c ≡ ok c
  unfolding workday_loop
  loop_stops zero count c h = refl
  loop_stops (suc left) count c h = ground arith

  -- One round.
  loop_round :
      (left count : ℕ) (c next : Date)
      → count < days
      → step c ≡ ok next
      → workday_loop step calendar (suc left) days count c
        ≡ workday_loop step calendar left days (count + one_if (is_workday calendar next)) next
  unfolding workday_loop
  loop_round left count c next h e = elim (Bool-cases (is_workday calendar next)) [
    | inl w ↦ rw (lt→ltb _ _ h, e, w)
    | inr w ↦ let same : count + 0 ≡ count = omega arith in rw (lt→ltb _ _ h, e, w) (rw same)
  ]

-- The round that completes the count is a workday.
completes :
    (count days : ℕ) (w : Bool)
    → count < days
    → days ≤ count + one_if w
    → (count + one_if w ≡ days) × (w ≡ true)
completes count days true short reached = (omega arith, refl)
completes count days false short reached = absurd (omega arith)

module _ (step : Date → Result Date) (calendar : Calendar) (at : ℕ → Date) (limit days : ℕ)
    (moves : (i : ℕ) → i < limit → step (at i) ≡ ok (at (suc i))) where
  pub loop-Lands :
      (left i : ℕ)
      → i + left ≡ limit
      → workdays_seen calendar at i < days
      → Lands calendar at limit days
          (workday_loop step calendar left days (workdays_seen calendar at i) (at i))
  unfolding workday_loop workdays_seen
  loop-Lands zero i e short = record {
    moved = i;
    lands = refl;
    within = omega arith;
    ends = inr (omega arith, short);
  }
  loop-Lands (suc left) i e short =
      let count = workdays_seen calendar at i in
      let w = is_workday calendar (at (suc i)) in
      let one =
        loop_round step calendar days left count (at i) (at (suc i)) short
          (moves i (omega arith)) in
      rw one (elim (le_cases days (count + one_if w)) [
        | inl reached ↦ record {
          moved = suc i;
          lands = loop_stops step calendar days left (count + one_if w) (at (suc i)) reached;
          within = omega arith;
          ends = inl (completes count days w short reached);
        }
        | inr short' ↦ loop-Lands left (suc i) (omega arith) short'
      ])

  -- The whole walk, from its start.
  pub walk-Lands :
      (start : Date)
      → at 0 ≡ start
      → 0 < days
      → Lands calendar at limit days (workday_loop step calendar limit days 0 start)
  unfolding workdays_seen
  walk-Lands start e pos_days = rw (← e) (loop-Lands limit 0 (omega arith) pos_days)
