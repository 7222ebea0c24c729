-- ===== src/MachineCycles/Deactivation.antt =====
-- repository/machine_cycle_baseline_repo.py: the deactivation of duplicate active baselines.
use auto_scheduling_system.Prelude.{
  ℕ, false, ◌&&◌, Bool, some, List, [], ◌∷◌, map, if◌then◌else◌, ◌==◌, any_where, where_true,
  length, codes, text_eq, sort_by,
}
use auto_scheduling_system.Prelude.Decimal.{equal_ℤ}
use auto_scheduling_system.MachineCycles.Baselines.{MachineCycleBaseline, better_baseline}

-- The key of two rows in `keep_map`.
abbrev pub same_key : MachineCycleBaseline → MachineCycleBaseline → Bool
same_key a b = text_eq a.machine_model b.machine_model && equal_ℤ a.order_qty b.order_qty

-- The rows of the loop whose key is in `keep_map`, which holds the kept rows.
unfoldable pub duplicates :
    List MachineCycleBaseline → List MachineCycleBaseline → List MachineCycleBaseline
duplicates kept [] = []
duplicates kept (row ∷ rows) =
    let later = duplicates (row ∷ kept) rows in
    let rest = duplicates kept rows in if any_where (same_key row) kept then row ∷ rest else later

abbrev pub deactivate : MachineCycleBaseline → MachineCycleBaseline
deactivate row = record row { is_active = false; remark = some (codes "自动停用：存在同机型同数量的更优基准记录") }

-- The rows that the loop deactivates.
unfoldable pub active_duplicates : List MachineCycleBaseline → List MachineCycleBaseline
unfolding duplicates sort_by text_eq
active_duplicates table =
    duplicates [] (sort_by better_baseline (where_true (λ row. row.is_active) table))

-- A row of the table after the loop.
abbrev pub deactivate_in : List MachineCycleBaseline → MachineCycleBaseline → MachineCycleBaseline
deactivate_in changed row =
    if any_where (λ other. other.id == row.id) changed then deactivate row else row

-- The table, and how many rows were updated.
unfoldable pub deactivate_duplicate_active_rows :
    List MachineCycleBaseline → List MachineCycleBaseline × ℕ
unfolding active_duplicates
deactivate_duplicate_active_rows table =
    (map (deactivate_in (active_duplicates table)) table, length (active_duplicates table))
