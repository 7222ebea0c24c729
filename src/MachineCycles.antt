-- ===== src/MachineCycles.antt =====
-- services/api/app/models/machine_cycle_baseline.py, the look-ups of
-- repository/machine_cycle_baseline_repo.py, and `_get_machine_cycle` of
-- scheduler/schedule_check_service.py and scheduler/machine_schedule_service.py. Python's floats are
-- a parameter: `ratio` divides two decimals as floats, and `scale` multiplies a decimal with a
-- float, rounds the product to four places and reads it as a decimal.
pub mod Baselines
pub mod Deactivation
pub mod Distinct
pub mod Duplicates
pub mod Kept
pub mod Nearest
mod Tests
use auto_scheduling_system.Prelude.{
  Bool, true, false, Option, none, some, List, [], ◌∷◌, if◌then◌else◌, Text, is_empty, or_empty,
  first_where,
}
use auto_scheduling_system.Prelude.Int.{abs, ◌-ℤ◌, ltb_ℤ}
use auto_scheduling_system.Prelude.Decimal.{Decimal, decimal, is_zero, equal_ℤ}
use auto_scheduling_system.Prelude.Dict.{dict_get}
use auto_scheduling_system.MachineCycles.Baselines.{
  MachineCycleBaseline, find_by_model_and_qty, find_all_by_model,
}

abbrev pub default_machine_cycle_days : Decimal
default_machine_cycle_days = decimal 90

unfoldable pub distance : Decimal → MachineCycleBaseline → Decimal
unfolding abs ◌-ℤ◌
distance qty baseline = abs (baseline.order_qty -ℤ qty)

-- `min(..., key=...)`: the first baseline of the least distance.
unfoldable pub nearest_to :
    Decimal → MachineCycleBaseline → List MachineCycleBaseline → MachineCycleBaseline
unfolding distance
nearest_to qty best [] = best
nearest_to qty best (baseline ∷ baselines) =
    nearest_to qty (if ltb_ℤ (distance qty baseline) (distance qty best) then baseline else best)
      baselines

-- `quantity or Decimal("1")`
abbrev pub quantity_or_one : Option Decimal → Decimal
quantity_or_one none = decimal 1
quantity_or_one (some qty) = if is_zero qty then decimal 1 else qty

module _ {Float : Type 0} (ratio : Decimal → Decimal → Float) (one : Float)
    (scale : Decimal → Float → Decimal) where
  -- The cycle of the nearest baseline, in proportion to the quantity.
  unfoldable pub adjusted : Decimal → MachineCycleBaseline → Decimal
  adjusted qty nearest =
      scale nearest.cycle_days_median
        (if is_zero nearest.order_qty then one else ratio qty nearest.order_qty)

  -- The days, and whether they are the default: of the exact baseline, or of the nearest.
  unfoldable pub choose_cycle :
      Decimal → Option MachineCycleBaseline → List MachineCycleBaseline → Decimal × Bool
  unfolding nearest_to adjusted
  choose_cycle qty (some exact) baselines = (exact.cycle_days_median, false)
  choose_cycle qty none [] = (default_machine_cycle_days, true)
  choose_cycle qty none (baseline ∷ baselines) =
      (adjusted qty (nearest_to qty baseline baselines), false)

  -- `_get_machine_cycle` with the two queries.
  unfoldable pub get_machine_cycle :
      List MachineCycleBaseline → Option Text → Option Decimal → Decimal × Bool
  unfolding choose_cycle find_by_model_and_qty find_all_by_model
  get_machine_cycle table machine_model quantity =
      let model = or_empty machine_model in
      let qty = quantity_or_one quantity in
      if is_empty model
      then (default_machine_cycle_days, true)
      else choose_cycle qty (find_by_model_and_qty table model qty) (find_all_by_model table model)

  abbrev pub known_baselines :
      List (Text × List MachineCycleBaseline) → Text → List MachineCycleBaseline
  known_baselines baselines_by_model model = elim (dict_get model baselines_by_model) [
    | none ↦ []
    | some baselines ↦ baselines
  ]

  -- `_get_machine_cycle` with the baselines read beforehand.
  unfoldable pub get_machine_cycle_from :
      List (Text × List MachineCycleBaseline) → Option Text → Option Decimal → Decimal × Bool
  unfolding choose_cycle dict_get
  get_machine_cycle_from baselines_by_model machine_model quantity =
      let model = or_empty machine_model in
      let qty = quantity_or_one quantity in
      let baselines = known_baselines baselines_by_model model in
      if is_empty model
      then (default_machine_cycle_days, true)
      else choose_cycle qty (first_where (λ b. equal_ℤ b.order_qty qty) baselines) baselines
