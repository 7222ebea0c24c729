-- ===== src/MachineCycles/Tests.antt =====
-- Runs of the machine cycles, and the theorem at a concrete input. The floats are decimals here.
use mathlib.Core.List.{Memᴰ}
use auto_scheduling_system.Prelude.{
  ℕ, Bool, ◌≡◌, refl, true, false, none, some, List, [], ◌∷◌, codes,
}
use auto_scheduling_system.Prelude.Decimal.{Decimal, decimal}
use auto_scheduling_system.MachineCycles.Baselines.{MachineCycleBaseline}
use auto_scheduling_system.MachineCycles.{get_machine_cycle}
use auto_scheduling_system.MachineCycles.Deactivation.{deactivate, deactivate_duplicate_active_rows}
use auto_scheduling_system.MachineCycles.Kept.{
  IsOneActive, deactivate_duplicate_active_rows-IsOneActive,
}

abbrev baseline : Decimal → Decimal → MachineCycleBaseline
baseline qty days = record {
  id = 1;
  product_series = none;
  machine_model = codes "P1";
  order_qty = qty;
  cycle_days_median = days;
  sample_count = 3;
  is_active = true;
  remark = none;
  updated_at = 0;
}

abbrev table : List MachineCycleBaseline
table = baseline (decimal 5) (decimal 80) ∷ baseline (decimal 1) (decimal 30) ∷ []

-- The floats are replaced by decimals: the ratio is the first number.
abbrev ratio : Decimal → Decimal → Decimal
ratio a b = a

abbrev scale : Decimal → Decimal → Decimal
scale a b = a

exact_runs :
    get_machine_cycle ratio (decimal 1) scale table (some (codes "P1")) (some (decimal 5))
    ≡ (decimal 80, false)
unfolding get_machine_cycle
exact_runs = refl

abbrev row_of : ℕ → ℕ → Bool → MachineCycleBaseline
row_of id sample_count is_active = record (baseline (decimal 5) (decimal 80)) {
  id = id;
  sample_count = sample_count;
  is_active = is_active;
}

-- Two active rows of a quantity, and one that is not active.
abbrev doubled : List MachineCycleBaseline
doubled = row_of 1 3 true ∷ row_of 2 9 true ∷ row_of 3 12 false ∷ []

more_samples_kept :
    deactivate_duplicate_active_rows doubled
    ≡ (deactivate (row_of 1 3 true) ∷ row_of 2 9 true ∷ row_of 3 12 false ∷ [], 1)
unfolding deactivate_duplicate_active_rows
more_samples_kept = refl

deactivate_duplicate_active_rows-IsOneActive_example :
    IsOneActive (deactivate_duplicate_active_rows doubled).0 (row_of 1 3 true)
deactivate_duplicate_active_rows-IsOneActive_example =
    deactivate_duplicate_active_rows-IsOneActive doubled (row_of 1 3 true)
      ((refl, (refl, tt)), ((refl, tt), (tt, tt))) (Memᴰ.head refl) refl
