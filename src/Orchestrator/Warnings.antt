-- ===== src/Orchestrator/Warnings.antt =====
-- services/api/app/scheduler/schedule_orchestrator_helpers.py: the warnings that a run shows. An item
-- has no further fields here.
use auto_scheduling_system.Prelude.{
  Bool, List, [], ◌∷◌, ◌++◌, if◌then◌else◌, Text, codes, member, any_where,
}
use auto_scheduling_system.MachineSchedules.{MachineScheduleResult}
use auto_scheduling_system.PartSchedule.Rows.{PartScheduleResult}
use auto_scheduling_system.Orchestrator.Marks.{has_flag}

pub record ValidationItem : Type 0 where
  pub code : Text
  pub label : Text
  pub message : Text
  pub level : Text

unfoldable pub build_validation_item : (code label message level : Text) → ValidationItem
build_validation_item code label message level = record {
  code = code;
  label = label;
  message = message;
  level = level;
}

-- `add_warning`; the state has the codes that were seen, and the items.
unfoldable pub add_warning :
    (code label message : Text) → List Text × List ValidationItem → List Text × List ValidationItem
unfolding member build_validation_item
add_warning code label message (seen_codes, items) =
    if member code seen_codes then (seen_codes, items) else (
      code ∷ seen_codes,
      items ++ build_validation_item code label message (codes "warning") ∷ [],
    )

abbrev add_if :
    Bool
    → (code label message : Text) → List Text × List ValidationItem
    → List Text × List ValidationItem
add_if b code label message state = if b then add_warning code label message state else state

abbrev pub any_has : Text → List PartScheduleResult → Bool
any_has key parts = any_where (λ part. has_flag key part.default_flags) parts

-- The warnings by the defaults that were used.
unfoldable pub warning_items :
    (cycle assembly parts_assembly key_parts parts : Bool) → List ValidationItem
unfolding add_warning
warning_items cycle assembly parts_assembly key_parts parts =
    (add_if parts (codes "part_cycle_default") (codes "历史周期数据") (codes "部分零件周期基准缺失，已按默认值完成排产。") (
      add_if key_parts (codes "key_part_cycle_default") (codes "历史周期数据")
        (codes "部分关键零件周期基准缺失，已按默认值完成排产。")
        (add_if parts_assembly (codes "assembly_time_default") (codes "装配时长")
          (codes "部分部装装配时长基准缺失，已按默认值完成排产。")
          (add_if assembly (codes "final_assembly_time_default") (codes "装配时长")
            (codes "整机总装时长基准缺失，已按默认值完成排产。")
            (add_if cycle (codes "machine_cycle_default") (codes "历史周期数据")
              (codes "整机历史周期基准缺失，已按默认值完成排产。") ([], [])))))).1

unfoldable pub collect_schedule_warning_items :
    MachineScheduleResult → List PartScheduleResult → List ValidationItem
unfolding warning_items has_flag
collect_schedule_warning_items machine parts =
    warning_items (has_flag (codes "machine_cycle") machine.default_flags)
      (has_flag (codes "final_assembly_time") machine.default_flags)
      (any_has (codes "assembly_time") parts) (any_has (codes "key_part_cycle") parts)
      (any_has (codes "part_cycle") parts)
