-- ===== src/Orchestrator/Marks.antt =====
-- services/api/app/scheduler/schedule_orchestrator_helpers.py and schedule_orchestrator.py: the flags
-- and marks of the rows that were made with defaults.
use auto_scheduling_system.Prelude.{
  Bool, Option, some, List, [], ◌∷◌, ◌++◌, if◌then◌else◌, Text, codes, member, is_empty, or_empty,
}
use auto_scheduling_system.MachineSchedules.{MachineScheduleResult}
use auto_scheduling_system.PartSchedule.Rows.{PartScheduleResult}

-- `flags.get(key)`
unfoldable pub has_flag : Text → List Text → Bool
unfolding member
has_flag key flags = member key flags

-- `flags[key] = True`
unfoldable pub set_flag : Text → List Text → List Text
unfolding has_flag
set_flag key flags = if has_flag key flags then flags else flags ++ key ∷ []

abbrev pub set_flags : List Text → List Text → List Text
set_flags [] flags = flags
set_flags (key ∷ keys) flags = set_flags keys (set_flag key flags)

unfoldable pub mark_machine_schedule_abnormal : Text → MachineScheduleResult → MachineScheduleResult
unfolding set_flag
mark_machine_schedule_abnormal flag_key machine = record machine {
  warning_level = some (codes "abnormal");
  issue_flags = set_flag flag_key machine.issue_flags;
}

unfoldable pub mark_part_schedule_abnormal : List Text → PartScheduleResult → PartScheduleResult
unfolding set_flag
mark_part_schedule_abnormal [] part = part
mark_part_schedule_abnormal (key ∷ keys) part = record part {
  warning_level = codes "abnormal";
  issue_flags = set_flags (key ∷ keys) part.issue_flags;
}

abbrev pub key_if : Bool → Text → List Text
key_if b key = if b then key ∷ [] else []

-- The flags of a row, with that of its own cycle.
unfoldable pub default_flags_of : PartScheduleResult → List Text
unfolding set_flag
default_flags_of part =
    if part.part_cycle_is_default
    then set_flag (codes "part_cycle") part.default_flags
    else part.default_flags

unfoldable pub abnormal_flags : List Text → List Text
unfolding has_flag
abnormal_flags flags =
    key_if (has_flag (codes "assembly_time") flags) (codes "assembly_time_default")
    ++ (key_if (has_flag (codes "key_part_cycle") flags) (codes "key_part_cycle_default")
        ++ key_if (has_flag (codes "part_cycle") flags) (codes "part_cycle_default"))

-- One row of the loop.
unfoldable pub mark_part : PartScheduleResult → PartScheduleResult
unfolding default_flags_of abnormal_flags mark_part_schedule_abnormal
mark_part part =
    let flags = default_flags_of part in
    mark_part_schedule_abnormal (abnormal_flags flags) (record part { default_flags = flags })

abbrev pub mark_machine_if : List Text → MachineScheduleResult → MachineScheduleResult
mark_machine_if [] machine = machine
mark_machine_if (_ ∷ _) machine =
    mark_machine_schedule_abnormal (codes "part_schedule_default") machine

-- The rows after the loop, and the machine's.
unfoldable pub mark_parts :
    MachineScheduleResult
    → List PartScheduleResult
    → MachineScheduleResult × List PartScheduleResult
unfolding mark_part abnormal_flags default_flags_of mark_machine_schedule_abnormal
mark_parts machine [] = (machine, [])
mark_parts machine (part ∷ parts) =
    let (marked, rows) =
      mark_parts (mark_machine_if (abnormal_flags (default_flags_of part)) machine) parts in
    (marked, mark_part part ∷ rows)

-- `a or b or c`
abbrev pub first_text : Option Text → Option Text → Text → Text
first_text a b c =
    if is_empty (or_empty a) then (if is_empty (or_empty b) then c else or_empty b) else or_empty a

-- The names that the loop collects, from the rows with their flags.
unfoldable pub assembly_defaults : List PartScheduleResult → List Text
unfolding has_flag
assembly_defaults [] = []
assembly_defaults (part ∷ parts) =
    key_if (has_flag (codes "assembly_time") part.default_flags) part.assembly_name
    ++ assembly_defaults parts

unfoldable pub cycle_defaults : List PartScheduleResult → List Text
unfolding has_flag
cycle_defaults [] = []
cycle_defaults (part ∷ parts) =
    key_if (has_flag (codes "key_part_cycle") part.default_flags)
      (first_text part.key_part_material_no part.key_part_name part.assembly_name)
    ++ (key_if (has_flag (codes "part_cycle") part.default_flags)
          (first_text part.part_material_no part.part_name part.assembly_name)
        ++ cycle_defaults parts)
