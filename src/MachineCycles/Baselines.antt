-- ===== src/MachineCycles/Baselines.antt =====
-- services/api/app/models/machine_cycle_baseline.py and the look-ups of
-- repository/machine_cycle_baseline_repo.py.
use auto_scheduling_system.Prelude.{
  ℕ, Bool, true, false, ◌&&◌, not, Option, List, [], ◌∷◌, ltb, leb, ◌==◌, if◌then◌else◌, Text,
  text_eq, any_where, where_true, first_where, sort_by,
}
use auto_scheduling_system.Prelude.Int.{ltb_ℤ}
use auto_scheduling_system.Prelude.Decimal.{Decimal, equal_ℤ}

pub record MachineCycleBaseline : Type 0 where
  pub id : ℕ
  pub product_series : Option Text
  pub machine_model : Text
  pub order_qty : Decimal
  pub cycle_days_median : Decimal
  pub sample_count : ℕ
  pub is_active : Bool
  pub remark : Option Text
  pub updated_at : ℕ

-- The last three columns of the order: samples, time of the update and id, all descending.
abbrev pub by_samples : MachineCycleBaseline → MachineCycleBaseline → Bool
by_samples a b =
    if ltb b.sample_count a.sample_count
    then true
    else (if a.sample_count == b.sample_count
        then (if ltb b.updated_at a.updated_at
            then true
            else (if a.updated_at == b.updated_at then leb b.id a.id else false))
        else false)

-- The order of `_ordered_stmt`.
abbrev pub better_baseline : MachineCycleBaseline → MachineCycleBaseline → Bool
better_baseline a b =
    if a.is_active
    then (if b.is_active then by_samples a b else true)
    else (if b.is_active then false else by_samples a b)

unfoldable pub find_by_model_and_qty :
    List MachineCycleBaseline → Text → Decimal → Option MachineCycleBaseline
unfolding sort_by text_eq
find_by_model_and_qty table machine_model order_qty =
    first_where (λ _. true)
      (sort_by better_baseline (
        where_true
          (λ b.
            (text_eq b.machine_model machine_model && equal_ℤ b.order_qty order_qty) && b.is_active)
          table))

-- `deduped.setdefault(row.order_qty, row)`, whose items come in the order of the rows.
unfoldable pub first_per_quantity :
    List MachineCycleBaseline → List MachineCycleBaseline → List MachineCycleBaseline
first_per_quantity seen [] = []
first_per_quantity seen (row ∷ rows) =
    let later = first_per_quantity (row ∷ seen) rows in
    let rest = first_per_quantity seen rows in
    if any_where (λ other. equal_ℤ other.order_qty row.order_qty) seen then rest else row ∷ later

abbrev pub quantity_before : MachineCycleBaseline → MachineCycleBaseline → Bool
quantity_before a b = not (ltb_ℤ b.order_qty a.order_qty)

unfoldable pub find_all_by_model : List MachineCycleBaseline → Text → List MachineCycleBaseline
unfolding sort_by text_eq first_per_quantity
find_all_by_model table machine_model = sort_by quantity_before (
    first_per_quantity [] (
      sort_by better_baseline
        (where_true (λ b. text_eq b.machine_model machine_model && b.is_active) table)))
