-- ===== src/Calendar/Workdays.antt =====
-- `subtract_workdays` and `add_workdays` of calendar_utils.py against the count of workdays.
use auto_scheduling_system.Prelude.{
  ℕ, zero, suc, ◌+◌, ◌-◌, ◌≤◌, ◌<◌, ◌≡◌, refl, sym, ap, ◌∙◌, inl, inr, true, arith,
}
use auto_scheduling_system.Prelude.Int.{ℤ, pos, negsuc}
use auto_scheduling_system.Prelude.Result.{ok}
use auto_scheduling_system.Calendar.{
  Date, Calendar, max_date, prev_day, next_day, is_workday, subtract_workdays, add_workdays,
}
use auto_scheduling_system.Calendar.Walk.{
  one_if, workdays_seen, Lands, workdays_seen_mono, workdays_seen_unique, walk-Lands,
}

abbrev pub before : Date → ℕ → Date
before d i = d - i

abbrev pub after : Date → ℕ → Date
after d i = d + i

-- The most days that either loop moves.
abbrev pub reach : ℕ
reach = 1001

prev_day-before : (d i : ℕ) → reach < d → i < reach → prev_day (before d i) ≡ ok (before d (suc i))
prev_day-before d i h k = ground arith

next_day-after :
    (d i : ℕ) → d + reach ≤ max_date → i < reach → next_day (after d i) ≡ ok (after d (suc i))
next_day-after d i h k = ground arith

-- From a date later than ordinal 1001, subtracting n > 0 workdays raises no OverflowError. It lands
-- on a workday with exactly n workdays from there up to the day before the start, or, where the
-- 1001 days before the start hold fewer than n workdays, on the first of these days.
pub subtract_workdays-Lands :
    (calendar : Calendar) (d n : ℕ)
    → reach < d
    → 0 < n
    → Lands calendar (before d) reach n (subtract_workdays d (pos n) calendar)
unfolding subtract_workdays
subtract_workdays-Lands calendar d zero h p = absurd (omega arith)
subtract_workdays-Lands calendar d (suc n) h p =
    walk-Lands prev_day calendar (before d) reach (suc n) (λ i k. prev_day-before d i h k) d
      (omega arith) (omega arith)

-- Up to 1001 days before date.max, adding n > 0 workdays raises no OverflowError. It lands on a
-- workday with exactly n workdays from the day after the start up to it, or, where the 1001 days
-- after the start hold fewer than n workdays, on the last of these days.
pub add_workdays-Lands :
    (calendar : Calendar) (d n : ℕ)
    → d + reach ≤ max_date
    → 0 < n
    → Lands calendar (after d) reach n (add_workdays d (pos n) calendar)
unfolding add_workdays
add_workdays-Lands calendar d zero h p = absurd (omega arith)
add_workdays-Lands calendar d (suc n) h p =
    walk-Lands next_day calendar (after d) reach (suc n) (λ i k. next_day-after d i h k) d
      (omega arith) (omega arith)

-- From a date later than ordinal 1001 the result is a date that is not later, and at most 1001 days
-- earlier, for every integer of workdays.
pub subtract_workdays_bounds :
    (calendar : Calendar) (d : Date) (n : ℤ)
    → reach < d
    → (r : Date) × (subtract_workdays d n calendar ≡ ok r) × (r ≤ d) × (d ≤ r + reach)
unfolding subtract_workdays
subtract_workdays_bounds calendar d (negsuc n) h = (d, refl, omega arith, omega arith)
subtract_workdays_bounds calendar d (pos zero) h = (d, refl, omega arith, omega arith)
subtract_workdays_bounds calendar d (pos (suc n)) h =
    let walk = subtract_workdays-Lands calendar d (suc n) h (omega arith) in
    (before d walk.moved, walk.lands, omega arith, omega (arith, walk.within))

-- The count of the days after b, split at the first of them.
seen-after-suc :
    (calendar : Calendar) (b k : ℕ)
    → workdays_seen calendar (after b) (suc k)
      ≡ one_if (is_workday calendar (b + 1)) + workdays_seen calendar (after (b + 1)) k
unfolding workdays_seen
seen-after-suc calendar b zero = omega arith
seen-after-suc calendar b (suc k) =
    let e : after b (suc (suc k)) ≡ after (b + 1) (suc k) = omega arith in
    rw e (omega (arith, seen-after-suc calendar b k))

-- The k days before d, counted backwards from d and forwards from the day before them.
seen_both_ways :
    (calendar : Calendar) (d k : ℕ)
    → k < d
    → workdays_seen calendar (before d) k ≡ workdays_seen calendar (after (d - suc k)) k
unfolding workdays_seen
seen_both_ways calendar d zero h = refl
seen_both_ways calendar d (suc k) h =
    let b = d - suc (suc k) in
    let e : b + 1 ≡ d - suc k = omega arith in
    let split = rw e at (seen-after-suc calendar b k) in
    omega (arith, split, seen_both_ways calendar d k (omega arith))

-- Between two workdays the count is the same in both directions.
seen_between_workdays :
    (calendar : Calendar) (d k : ℕ)
    → k ≤ d
    → is_workday calendar d ≡ true
    → is_workday calendar (before d k) ≡ true
    → workdays_seen calendar (after (before d k)) k ≡ workdays_seen calendar (before d) k
unfolding workdays_seen
seen_between_workdays calendar d zero h w wk = refl
seen_between_workdays calendar d (suc k) h w wk =
    let e : after (before d (suc k)) (suc k) ≡ d = omega arith in
    rw (e, w, wk) (omega (arith, seen_both_ways calendar d k (omega arith)))

-- From k days before a workday, adding the workdays of these days leads back.
return_trip :
    (calendar : Calendar) (d k n : ℕ)
    → k ≤ d
    → k ≤ reach
    → d + reach ≤ max_date
    → 0 < n
    → is_workday calendar d ≡ true
    → is_workday calendar (before d k) ≡ true
    → workdays_seen calendar (before d) k ≡ n
    → add_workdays (before d k) (pos n) calendar ≡ ok d
return_trip calendar d k n h far hi p w wk e =
    let walk = add_workdays-Lands calendar (before d k) n (omega arith) p in
    let back : after (before d k) k ≡ d = omega arith in
    let seen = seen_between_workdays calendar d k h w wk ∙ e in
    elim walk.ends [
      | inl (full, w_end) ↦
          let m =
            workdays_seen_unique calendar (after (before d k)) walk.moved k w_end (rw back w)
              (full ∙ sym seen) in
          walk.lands ∙ ap (λ j. ok (after (before d k) j)) m ∙ ap ok back
      | inr (m, short) ↦ absurd (
          omega (
            arith,
            seen,
            rw m at short,
            workdays_seen_mono calendar (after (before d k)) k reach far,
          ))
    ]

-- From a workday, where the 1001 days before it hold n > 0 workdays, adding n workdays undoes
-- subtracting n.
pub add_workdays-subtract_workdays :
    (calendar : Calendar) (d n : ℕ) {r : Date}
    → reach < d
    → d + reach ≤ max_date
    → 0 < n
    → is_workday calendar d ≡ true
    → n ≤ workdays_seen calendar (before d) reach
    → subtract_workdays d (pos n) calendar ≡ ok r
    → add_workdays r (pos n) calendar ≡ ok d
add_workdays-subtract_workdays calendar d n {r} lo hi p w enough e =
    let walk = subtract_workdays-Lands calendar d n lo p in
    let here : before d walk.moved ≡ r = cc (walk.lands, e) in
    elim walk.ends [
      | inl (full, w_end) ↦ rw here at (
          return_trip calendar d walk.moved n (omega (arith, walk.within)) walk.within hi p w w_end
            full)
      | inr (m, short) ↦ absurd (omega (arith, rw m at short))
    ]
