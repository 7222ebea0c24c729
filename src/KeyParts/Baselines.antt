-- ===== src/KeyParts/Baselines.antt =====
-- services/api/app/models/part_cycle_baseline.py and the look-ups of
-- repository/part_cycle_baseline_repo.py. The columns that the scheduler does not read are left
-- out. The prefix of the `like` pattern has Chinese characters only, so no wildcard.
use auto_scheduling_system.Prelude.{
  ℕ, Bool, true, false, ◌&&◌, ◌||◌, Option, none, some, List, ltb, ◌==◌, if◌then◌else◌, Text,
  text_eq, text_leb, starts_with, or_empty, none_if_empty, strip, where_true, first_where, sort_by,
}
use auto_scheduling_system.Prelude.Decimal.{Decimal}
use auto_scheduling_system.Bom.{column_eq}

pub record PartCycleBaseline : Type 0 where
  pub id : ℕ
  pub material_no : Text
  pub material_desc : Text
  pub core_part_name : Text
  pub machine_model : Option Text
  pub plant : Option Text
  pub cycle_days : Decimal
  pub sample_count : ℕ
  pub is_active : Bool
  pub updated_at : ℕ

abbrev pub lookup_plant : Option Text → Option Text
lookup_plant plant = none_if_empty (strip (or_empty plant))

abbrev pub is_null : Option Text → Bool
is_null none = true
is_null (some _) = false

-- `_apply_plant_lookup`: a baseline of the plant or of no plant.
unfoldable pub apply_plant_lookup : Option Text → PartCycleBaseline → Bool
apply_plant_lookup plant baseline = elim (lookup_plant plant) [
  | none ↦ is_null baseline.plant
  | some p ↦ column_eq baseline.plant p || is_null baseline.plant
]

abbrev pub plant_priority : Option Text → PartCycleBaseline → ℕ
plant_priority plant baseline = elim (lookup_plant plant) [
  | none ↦ if is_null baseline.plant then 0 else 1
  | some p ↦ if column_eq baseline.plant p then 0 else 1
]

-- One column of an `order by`, and the columns that follow it.
unfoldable pub order_column : ℕ → ℕ → Bool → Bool
order_column a b rest = if ltb a b then true else (if a == b then rest else false)

-- `_lookup_order_by`, with the columns that follow.
unfoldable pub lookup_order_by :
    Option Text
    → (PartCycleBaseline → PartCycleBaseline → Bool)
    → PartCycleBaseline
    → PartCycleBaseline
    → Bool
unfolding order_column
lookup_order_by plant rest a b = order_column (plant_priority plant a) (plant_priority plant b) (
    order_column b.sample_count a.sample_count
      (order_column b.updated_at a.updated_at (order_column b.id a.id (rest a b))))

abbrev pub no_more_columns : PartCycleBaseline → PartCycleBaseline → Bool
no_more_columns a b = true

abbrev pub is_active_of : Text → PartCycleBaseline → Bool
is_active_of machine_model baseline =
    column_eq baseline.machine_model machine_model && baseline.is_active

unfoldable pub find_by_model_and_part_type :
    List PartCycleBaseline → Text → Text → Option Text → Option PartCycleBaseline
unfolding sort_by apply_plant_lookup lookup_order_by
find_by_model_and_part_type table machine_model part_type plant =
    first_where (λ _. true)
      (sort_by (lookup_order_by plant no_more_columns) (
        where_true
          (λ b.
            (is_active_of machine_model b && text_eq b.material_no part_type)
            && apply_plant_lookup plant b)
          table))

unfoldable pub find_by_model_and_desc_prefix :
    List PartCycleBaseline → Text → Text → Option Text → Option PartCycleBaseline
unfolding sort_by apply_plant_lookup lookup_order_by starts_with
find_by_model_and_desc_prefix table machine_model desc_prefix plant =
    first_where (λ _. true)
      (sort_by (lookup_order_by plant no_more_columns) (
        where_true
          (λ b.
            (is_active_of machine_model b && starts_with b.material_desc desc_prefix)
            && apply_plant_lookup plant b)
          table))

unfoldable pub list_active_by_model :
    List PartCycleBaseline → Text → Option Text → List PartCycleBaseline
unfolding sort_by apply_plant_lookup lookup_order_by
list_active_by_model table machine_model plant =
    sort_by (lookup_order_by plant (λ a b. text_leb a.core_part_name b.core_part_name))
      (where_true (λ b. is_active_of machine_model b && apply_plant_lookup plant b) table)
